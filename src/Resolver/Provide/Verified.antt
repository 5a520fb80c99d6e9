-- ===== src/Resolver/Provide/Verified.antt =====
-- What the check of an SMT proof establishes.
use did_btcr2_js.Smt.Proof.{SerializedSmtProof, did_to_index, verify_serialized_proof}
use did_btcr2_js.Prelude.{[], ap, arith, some, subst, true, ℕ, ◌∙◌, ◌∷◌, ◌≡◌}
use did_btcr2_js.Resolver.Beacons.{candidate_hash, check_smt_proof, lift_smt, lift_smt-ok}
use did_btcr2_js.Resolver.Types.{BeaconService, Env, invalid_smt_proof}
use did_btcr2_js.Smt.Hash.{Bytes, base64url_to_hash, block_hash}
use did_btcr2_js.Prelude.Result.{>>=-eq-ok, guard-eq-ok, ok, or_throw, or_throw-eq-ok}
use did_btcr2_js.Common.Text.{first_part}
use Prim.Native.String.{String}

-- The serialised proof verifies, at the index of the beacon's DID, for the leaf hash(hash(nonce), b) of
-- its own nonce and the 32 bytes b of its update id.
pub record IsVerified (env : Env) (service : BeaconService) (p : SerializedSmtProof String)
    (b : Bytes) : Type 0 where
  pub text : String
  pub with_nonce : p.nonce ≡ some text
  pub nonce : Bytes
  pub decoded : base64url_to_hash env.crypto text ≡ ok nonce
  pub index : ℕ
  pub own : did_to_index env.crypto (first_part b'#' service.id) ≡ ok index
  pub verified :
      verify_serialized_proof env.crypto p index
        (block_hash env.crypto (block_hash env.crypto (nonce ∷ []) ∷ b ∷ []))
      ≡ ok true

module _ (env : Env) (service : BeaconService) where
  -- What `check_smt_proof` has verified.
  pub check_smt_proof-IsVerified :
      (p : SerializedSmtProof String) (update_id : String) (b : Bytes)
      → p.update_id ≡ some update_id
      → base64url_to_hash env.crypto update_id ≡ ok b
      → check_smt_proof env service p ≡ ok tt
      → IsVerified env service p b
  unfolding check_smt_proof candidate_hash
  check_smt_proof-IsVerified p update_id b has_id d e =
      let (own_text, e1, r1) = >>=-eq-ok (or_throw p.nonce invalid_smt_proof) _ e in
      let (own_index, e2, r2) =
        >>=-eq-ok (lift_smt env (did_to_index env.crypto (first_part b'#' service.id))) _ r1 in
      let (own_nonce, e3, r3) =
        >>=-eq-ok (lift_smt env (base64url_to_hash env.crypto own_text)) _ r2 in
      let (leaf, e4, r4) =
        >>=-eq-ok (lift_smt env (candidate_hash env own_nonce p.update_id)) _ r3 in
      let (valid, e5, r5) =
        >>=-eq-ok (lift_smt env (verify_serialized_proof env.crypto p own_index leaf)) _ r4 in
      let same = candidate own_nonce leaf (lift_smt-ok env _ leaf e4) in
      record {
        text = own_text;
        with_nonce = or_throw-eq-ok p.nonce invalid_smt_proof own_text e1;
        nonce = own_nonce;
        decoded = lift_smt-ok env _ own_nonce e3;
        index = own_index;
        own = lift_smt-ok env _ own_index e2;
        verified =
            subst (λ x. verify_serialized_proof env.crypto p own_index x ≡ ok true) same
              (lift_smt-ok env _ valid e5 ∙ ap ok (guard-eq-ok valid invalid_smt_proof r5));
      }
    where
      candidate :
          (n leaf : Bytes)
          → candidate_hash env n p.update_id ≡ ok leaf
          → leaf ≡ block_hash env.crypto (block_hash env.crypto (n ∷ []) ∷ b ∷ [])
      candidate n leaf h =
          let h' : candidate_hash env n (some update_id) ≡ ok leaf = rw has_id at h in
          let h'' : ok (block_hash env.crypto (block_hash env.crypto (n ∷ []) ∷ b ∷ [])) ≡ ok leaf =
            rw d at h' in
          ground (arith, h'')
