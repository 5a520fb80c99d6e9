-- ===== src/Resolver/Provide/Commitments.antt =====
-- The hashes that sidecar data stands under, through `sidecarData` and `provide`.
use did_btcr2_js.Resolver.Provide.{
  is_record, payload_value, read_cas_announcement, read_signed_update, read_smt_proof, Payload,
  Sidecar, cas_map_of, hex_hash, json_payload, provide, provide_cas, provide_genesis,
  provide_signals, provide_smt, provide_update, sidecar_data, signals_payload, smt_map_of,
  update_map_of,
}
use did_btcr2_js.Prelude.{some, All, List, [], nat_eq, refl, string_eq, ◌==◌, ◌∷◌, ◌≡◌}
use did_btcr2_js.Resolver.Types.{
  invalid_did_update, ResolveError, CasAnnouncement, DataNeed, Env, SidecarData, SignedUpdate,
  need_beacon_signals, need_cas_announcement, need_genesis_document, need_signed_update,
  need_smt_proof,
}
use did_btcr2_js.Prelude.Dict.{All-set, Dict, set}
use did_btcr2_js.Prelude.Result.{
  Holds, Holds->>=, Holds-eq, Result, or_throw, guard, guard-eq-ok, ok,
}
use did_btcr2_js.Smt.Hash.{Bytes}
use text.Mathlib.TextEquality.{eq_iff}
use Prim.Native.String.{String}
use did_btcr2_js.Smt.Proof.{SerializedSmtProof}
use did_btcr2_js.Resolver.Machine.{Resolver}
use did_btcr2_js.Resolver.Apply.{decode_hash}

-- The text `k` is the hex text of the 32 bytes that stand in the base64url text `t`.
abbrev pub IsIdOf : Env → String → String → Type 0
IsIdOf env k t = (b : Bytes) × (decode_hash env t ≡ ok b) × (env.encode_hex b ≡ k)

-- Every entry of the three maps stands under the hash of what it holds.
pub record IsCommitted (env : Env) (s : SidecarData) : Type 0 where
  pub update_keys : All (λ x. hex_hash env x.1.json ≡ x.0) s.update_map
  pub cas_keys : All (λ x. hex_hash env x.1.json ≡ x.0) s.cas_map
  pub smt_keys : All (λ x. IsIdOf env x.0 x.1.id) s.smt_map

module _ (env : Env) where
  update_map_of-keys :
      (us : List SignedUpdate) (m : Dict String SignedUpdate)
      → All (λ x. hex_hash env x.1.json ≡ x.0) m
      → All (λ x. hex_hash env x.1.json ≡ x.0) (update_map_of env us m)
  unfolding update_map_of
  update_map_of-keys [] m a = a
  update_map_of-keys (u ∷ us) m a =
      update_map_of-keys us _
        (All-set (λ x. hex_hash env x.1.json ≡ x.0) (hex_hash env u.json) u m a refl)

  cas_map_of-keys :
      (us : List CasAnnouncement) (m : Dict String CasAnnouncement)
      → All (λ x. hex_hash env x.1.json ≡ x.0) m
      → All (λ x. hex_hash env x.1.json ≡ x.0) (cas_map_of env us m)
  unfolding cas_map_of
  cas_map_of-keys [] m a = a
  cas_map_of-keys (u ∷ us) m a =
      cas_map_of-keys us _
        (All-set (λ x. hex_hash env x.1.json ≡ x.0) (hex_hash env u.json) u m a refl)

  smt_map_of-keys :
      (ps : List (SerializedSmtProof String)) (m : Dict String (SerializedSmtProof String))
      → All (λ x. IsIdOf env x.0 x.1.id) m
      → Holds (All (λ x. IsIdOf env x.0 x.1.id)) (smt_map_of env ps m)
  unfolding smt_map_of
  smt_map_of-keys [] m a = a
  smt_map_of-keys (p ∷ ps) m a =
      Holds->>= (All (λ x. IsIdOf env x.0 x.1.id)) (decode_hash env p.id)
        (λ id. smt_map_of env ps (set (env.encode_hex id) p m))
        (λ id d.
          smt_map_of-keys ps _
            (All-set (λ x. IsIdOf env x.0 x.1.id) (env.encode_hex id) p m a (id, d, refl)))

  -- `sidecarData` files everything under its hash, when it returns.
  pub sidecar_data-IsCommitted : (s : Sidecar) → Holds (IsCommitted env) (sidecar_data env s)
  unfolding sidecar_data
  sidecar_data-IsCommitted s =
      Holds->>= (IsCommitted env) (smt_map_of env s.smt_proofs []) _ (λ m e. record {
        update_keys = update_map_of-keys s.updates [] tt;
        cas_keys = cas_map_of-keys s.cas_updates [] tt;
        smt_keys =
            Holds-eq (All (λ x. IsIdOf env x.0 x.1.id)) _ m (smt_map_of-keys s.smt_proofs [] tt) e;
      })

  abbrev Keeps : Result ResolveError Resolver → Type 0
  Keeps = Holds (λ r. IsCommitted env r.sidecar)

  provide_update-IsCommitted :
      (r : Resolver) (hash : String) (data_ : Payload)
      → IsCommitted env r.sidecar
      → Keeps (provide_update env r hash data_)
  unfolding provide_update
  provide_update-IsCommitted r hash data_ c =
      Holds->>= (λ q. IsCommitted env q.sidecar) (or_throw (read_signed_update _) _) _
        (λ u e1.
          Holds->>= (λ q. IsCommitted env q.sidecar) (guard (hex_hash env u.json == hash) _) _
            (λ t e2. record {
              update_keys =
                  All-set (λ x. hex_hash env x.1.json ≡ x.0) (hex_hash env u.json) u
                    r.sidecar.update_map c.update_keys refl;
              cas_keys = c.cas_keys;
              smt_keys = c.smt_keys;
            }))

  provide_cas-IsCommitted :
      (r : Resolver) (hash : String) (data_ : Payload)
      → IsCommitted env r.sidecar
      → Keeps (provide_cas env r hash data_)
  unfolding provide_cas
  provide_cas-IsCommitted r hash data_ c =
      Holds->>= (λ q. IsCommitted env q.sidecar) (or_throw (read_cas_announcement _) _) _
        (λ a e1.
          Holds->>= (λ q. IsCommitted env q.sidecar) (guard (hex_hash env a.json == hash) _) _
            (λ t e2. record {
              update_keys = c.update_keys;
              cas_keys =
                  All-set (λ x. hex_hash env x.1.json ≡ x.0) (hex_hash env a.json) a
                    r.sidecar.cas_map c.cas_keys refl;
              smt_keys = c.smt_keys;
            }))

  provide_smt-IsCommitted :
      (r : Resolver) (hash : String) (data_ : Payload)
      → IsCommitted env r.sidecar
      → Keeps (provide_smt env r hash data_)
  unfolding provide_smt
  provide_smt-IsCommitted r hash data_ c =
      Holds->>= (λ q. IsCommitted env q.sidecar) (or_throw (read_smt_proof _) _) _
        (λ p e1.
          Holds->>= (λ q. IsCommitted env q.sidecar) (decode_hash env p.id) _
            (λ id e2.
              Holds->>= (λ q. IsCommitted env q.sidecar) (guard (env.encode_hex id == hash) _) _
                (λ t e3. record {
                  update_keys = c.update_keys;
                  cas_keys = c.cas_keys;
                  smt_keys =
                      All-set (λ x. IsIdOf env x.0 x.1.id) hash p r.sidecar.smt_map c.smt_keys
                        (id, e2, (eq_iff (env.encode_hex id) hash).0 (guard-eq-ok _ _ e3));
                })))

  -- `provide` keeps everything under its hash, whatever is provided for whatever need, when it
  -- returns.
  pub provide-IsCommitted :
      (r : Resolver) (need : DataNeed) (data_ : Payload)
      → IsCommitted env r.sidecar
      → Holds (λ q. IsCommitted env q.sidecar) (provide env r need data_)
  unfolding provide provide_genesis provide_signals
  provide-IsCommitted r (need_genesis_document h) data_ c =
      Holds->>= {E = ResolveError} {B = Resolver} (λ q. IsCommitted env q.sidecar)
        (guard (is_record (payload_value data_)) invalid_did_update)
        (λ x. ok (record r { provided_genesis = some (payload_value data_) })) (λ t e. c)
  provide-IsCommitted r (need_beacon_signals ss) (json_payload j) c = tt
  provide-IsCommitted r (need_beacon_signals ss) (signals_payload m) c = c
  provide-IsCommitted r (need_cas_announcement h s) data_ c = provide_cas-IsCommitted r h data_ c
  provide-IsCommitted r (need_signed_update h s) data_ c = provide_update-IsCommitted r h data_ c
  provide-IsCommitted r (need_smt_proof h s) data_ c = provide_smt-IsCommitted r h data_ c
