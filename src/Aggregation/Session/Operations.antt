-- ===== src/Aggregation/Session/Operations.antt =====
-- The operations of a signing session: consistency, the final signature, the secret nonce.
use did_btcr2_js.Aggregation.Cohort.{Cohort, index_of_participant}
use did_btcr2_js.Aggregation.Session.{
  open_session, sign_in, sign_with, missing_secret_nonce, Context, Musig, Session, SessionError,
  add_nonce_contribution, add_partial_signature, clear_secrets, complete, generate_aggregated_nonce,
  generate_final_signature, generate_nonce_contribution, generate_partial_signature, sign_once,
}
use did_btcr2_js.Prelude.{
  get_elem?, ◌<◌, is_some, subst, sym, All, length, List, Option, map, none, refl, some, true, ℕ,
  ◌≡◌,
}
use did_btcr2_js.Prelude.Result.{Result, err, Holds, ok}
use Prim.Native.String.{String}
use did_btcr2_js.Prelude.Dict.{Dict}
use did_btcr2_js.Aggregation.Session.Invariant.{
  add_nonce_contribution-IsConsistent, add_partial_signature-IsConsistent, IsConsistent,
}
use did_btcr2_js.Smt.Hash.{Bytes}
use did_btcr2_js.Aggregation.Session.Placed.{nonce_at}
use did_btcr2_js.Aggregation.Session.Consistent.{
  generate_aggregated_nonce-IsConsistent, generate_final_signature-IsConsistent,
  generate_nonce_contribution-IsConsistent, generate_partial_signature-IsConsistent,
}

-- Every operation of a session keeps the contributions those of participants, one from each, and the
-- phase in agreement with them: all nonces are there before they are aggregated, all partial
-- signatures before the final one, and a complete session has its signature.
pub operations-IsConsistent :
    (musig : Musig) (s : Session)
    → IsConsistent s
    → ((did : String) (nonce : Bytes) → Holds IsConsistent (add_nonce_contribution s did nonce))
      × ((did : String) (p : Bytes) → Holds IsConsistent (add_partial_signature s did p))
      × Holds (λ r. IsConsistent r.0) (generate_aggregated_nonce musig s)
      × Holds (λ r. IsConsistent r.0) (generate_final_signature musig s)
      × ((public_key secret_key : Bytes)
          → Holds
              (λ r. IsConsistent r.0)
              (generate_nonce_contribution musig s public_key secret_key))
      × ((secret_key : Bytes) → IsConsistent (generate_partial_signature musig s secret_key).0)
operations-IsConsistent musig s c = (
  add_nonce_contribution-IsConsistent s c,
  add_partial_signature-IsConsistent s c,
  generate_aggregated_nonce-IsConsistent musig s c,
  generate_final_signature-IsConsistent musig s c,
  generate_nonce_contribution-IsConsistent musig s c,
  generate_partial_signature-IsConsistent musig s c,
)

-- The loop has verified every partial signature, at the place of its signer's key.
abbrev pub AreVerified : Musig → Context → Cohort → List (Option Bytes) → Dict String Bytes → Type 0
AreVerified musig ctx k nonces = All (λ x.
    (i : ℕ) × (index_of_participant k x.0 ≡ some i)
    × (musig.partial_sig_verify ctx x.1 nonces i ≡ some true))

-- What a final signature of session s rests on.
pub record IsFinal (musig : Musig) (s s' : Session) (signature : Bytes) : Type 0 where
  pub ctx : Context
  pub nonces : List (Option Bytes)
  -- one place for each key, which holds the nonce of the contributor with that key
  pub counted : length nonces ≡ length s.cohort.cohort_keys
  pub placed :
      (j : ℕ)
      → j < length s.cohort.cohort_keys
      → get_elem? nonces j ≡ some (nonce_at s.cohort s.nonce_contributions j)
  pub signers :
      All (λ x. (i : ℕ) × (index_of_participant s.cohort x.0 ≡ some i)) s.nonce_contributions
  -- the MuSig2 session: aggregated nonce, keys, sighash and tweak, which its constructor takes
  pub opened :
      (s.aggregated_nonce ≡ some ctx.nonce)
      × (ctx.keys ≡ s.cohort.cohort_keys)
      × (ctx.message ≡ musig.preimage_witness s.pending_tx s.prev_out_scripts s.prev_out_values)
      × (ctx.tweak ≡ s.cohort.tap_tweak)
      × (musig.opens ctx ≡ true)
  pub verified : AreVerified musig ctx s.cohort nonces s.partial_signatures
  pub aggregate : musig.partial_sig_agg ctx (map (λ x. x.1) s.partial_signatures) ≡ some signature
  pub completed : s'.phase ≡ complete
  pub stored : s'.signature ≡ some signature

sign_with-cleared :
    (musig : Musig) (s : Session) (secret_key partial_sig : Bytes) (nonce secret : Option Bytes)
    → (sign_with musig s secret_key nonce secret).1 ≡ ok partial_sig
    → ((sign_with musig s secret_key nonce secret).0 ≡ clear_secrets s) × (is_some nonce ≡ true)
unfolding sign_with
sign_with-cleared musig s secret_key p none secret e = cc
sign_with-cleared musig s secret_key p (some nonce) none e = cc
sign_with-cleared musig s secret_key p (some nonce) (some secret) e =
    (opened (open_session musig s nonce) e, refl)
  where
    opened :
        (x : Result SessionError Context)
        → (sign_in musig s secret secret_key x).1 ≡ ok p
        → (sign_in musig s secret secret_key x).0 ≡ clear_secrets s
    opened (err k) h = unfold sign_in in cc
    opened (ok ctx) h = unfold sign_in sign_once in refl

sign_with-none :
    (musig : Musig) (s : Session) (secret_key : Bytes) (nonce : Option Bytes)
    → is_some nonce ≡ true
    → (sign_with musig s secret_key nonce none).1 ≡ err missing_secret_nonce
unfolding sign_with
sign_with-none musig s secret_key none h = cc
sign_with-none musig s secret_key (some nonce) h = refl

-- After a call that has signed, the secret nonce is gone: a second call throws, whatever key it is given.
pub generate_partial_signature_once :
    (musig : Musig) (s : Session) (secret_key other_key partial_sig : Bytes)
    → (generate_partial_signature musig s secret_key).1 ≡ ok partial_sig
    → (generate_partial_signature musig
        (generate_partial_signature musig s secret_key).0
        other_key).1
      ≡ err missing_secret_nonce
unfolding generate_partial_signature
generate_partial_signature_once musig s secret_key other_key p e =
    let (cleared, there) =
      sign_with-cleared musig s secret_key p s.aggregated_nonce s.secret_nonce e in
    subst
      (λ (x : Session).
        (sign_with musig x other_key x.aggregated_nonce x.secret_nonce).1
        ≡ err missing_secret_nonce)
      (sym cleared)
      (unfold clear_secrets in
        sign_with-none musig (clear_secrets s) other_key s.aggregated_nonce there)
