-- ===== src/Aggregation/Session/Consistent.antt =====
-- Each operation of a signing session keeps it consistent.
use did_btcr2_js.Aggregation.Session.{
  Context, Musig, Phase, Session, SessionError, awaiting_nonce_contributions,
  awaiting_partial_signatures, clear_secrets, complete, failed, generate_aggregated_nonce,
  generate_final_signature, generate_nonce_contribution, generate_partial_signature, invalid_phase,
  missing_aggregated_nonce, musig_error, nonce_contributions_received, open_session,
  partial_signatures_received, place_nonces, same_phase, sign_in, sign_once, sign_with,
  verify_partials,
}
use did_btcr2_js.Prelude.Result.{Holds, Holds->>=, Result, err, guard, guard-eq-ok, ok, or_throw}
use did_btcr2_js.Aggregation.Session.Invariant.{IsConsistent, PhaseHolds, in_phase_of}
use did_btcr2_js.Prelude.{Option, map, none, refl, some}
use did_btcr2_js.Smt.Hash.{Bytes}

module _ (musig : Musig) (s : Session) (c : IsConsistent s) where
  pub generate_aggregated_nonce-IsConsistent :
      Holds (λ r. IsConsistent r.0) (generate_aggregated_nonce musig s)
  unfolding generate_aggregated_nonce
  generate_aggregated_nonce-IsConsistent =
      Holds->>= {B = Session × Bytes} (λ r. IsConsistent r.0)
        (guard (same_phase s.phase nonce_contributions_received) invalid_phase) _
        (λ _ e1.
          let now = in_phase_of s c nonce_contributions_received (guard-eq-ok _ _ e1) in
          Holds->>= {B = Session × Bytes} (λ r. IsConsistent r.0)
            (or_throw (musig.nonce_aggregate (map (λ x. x.1) s.nonce_contributions)) musig_error) _
            (λ nonce e2. record {
              nonces_distinct = c.nonces_distinct;
              nonce_members = c.nonce_members;
              partials_distinct = c.partials_distinct;
              partial_members = c.partial_members;
              in_phase = (now.0, refl, now.2);
            }))

  pub generate_final_signature-IsConsistent :
      Holds (λ r. IsConsistent r.0) (generate_final_signature musig s)
  unfolding generate_final_signature
  generate_final_signature-IsConsistent =
      Holds->>= {B = Session × Bytes} (λ r. IsConsistent r.0)
        (guard (same_phase s.phase partial_signatures_received) invalid_phase) _
        (λ _ e1.
          let now = in_phase_of s c partial_signatures_received (guard-eq-ok _ _ e1) in
          Holds->>= {B = Session × Bytes} (λ r. IsConsistent r.0)
            (or_throw s.aggregated_nonce missing_aggregated_nonce) _
            (λ nonce e2.
              Holds->>= {B = Session × Bytes} (λ r. IsConsistent r.0) (open_session musig s nonce) _
                (λ ctx e3.
                  Holds->>= {B = Session × Bytes} (λ r. IsConsistent r.0)
                    (place_nonces s.cohort s.nonce_contributions _) _
                    (λ nonces e4.
                      Holds->>= {B = Session × Bytes} (λ r. IsConsistent r.0)
                        (verify_partials musig ctx s.cohort nonces s.partial_signatures) _
                        (λ _ e5.
                          Holds->>= {B = Session × Bytes} (λ r. IsConsistent r.0)
                            (or_throw
                              (musig.partial_sig_agg ctx (map (λ x. x.1) s.partial_signatures))
                              musig_error)
                            _
                            (λ signature e6. record {
                              nonces_distinct = c.nonces_distinct;
                              nonce_members = c.nonce_members;
                              partials_distinct = c.partials_distinct;
                              partial_members = c.partial_members;
                              in_phase = (now.0, now.1, refl);
                            }))))))

  pub unchanged : (secret : Option Bytes) → IsConsistent (record s { secret_nonce = secret })
  unchanged secret = record {
    nonces_distinct = c.nonces_distinct;
    nonce_members = c.nonce_members;
    partials_distinct = c.partials_distinct;
    partial_members = c.partial_members;
    in_phase = kept s.phase c.in_phase;
  }
    where
      kept : (p : Phase) → PhaseHolds s p → PhaseHolds (record s { secret_nonce = secret }) p
      kept awaiting_nonce_contributions h = h
      kept nonce_contributions_received h = h
      kept awaiting_partial_signatures h = h
      kept partial_signatures_received h = h
      kept complete h = h
      kept failed h = h

  pub generate_nonce_contribution-IsConsistent :
      (public_key secret_key : Bytes)
      → Holds (λ r. IsConsistent r.0) (generate_nonce_contribution musig s public_key secret_key)
  unfolding generate_nonce_contribution
  generate_nonce_contribution-IsConsistent public_key secret_key =
      Holds->>= {B = Session × Bytes} (λ r. IsConsistent r.0)
        (or_throw (musig.nonce_gen public_key secret_key s.cohort.cohort_keys) musig_error) _
        (λ nonces e. unchanged (some nonces.0))

  pub sign_in-IsConsistent :
      (secret secret_key : Bytes) (x : Result SessionError Context)
      → IsConsistent (sign_in musig s secret secret_key x).0
  unfolding sign_in sign_once clear_secrets
  sign_in-IsConsistent secret secret_key (err e) = c
  sign_in-IsConsistent secret secret_key (ok ctx) = unchanged none

  pub sign_with-IsConsistent :
      (secret_key : Bytes) (nonce secret : Option Bytes)
      → IsConsistent (sign_with musig s secret_key nonce secret).0
  unfolding sign_with
  sign_with-IsConsistent secret_key none secret = c
  sign_with-IsConsistent secret_key (some nonce) none = c
  sign_with-IsConsistent secret_key (some nonce) (some secret) =
      sign_in-IsConsistent secret secret_key (open_session musig s nonce)

  pub generate_partial_signature-IsConsistent :
      (secret_key : Bytes) → IsConsistent (generate_partial_signature musig s secret_key).0
  unfolding generate_partial_signature
  generate_partial_signature-IsConsistent secret_key =
      sign_with-IsConsistent secret_key s.aggregated_nonce s.secret_nonce
