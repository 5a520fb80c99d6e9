-- ===== src/Aggregation/Service/Sound/Messages.antt =====
-- The handlers of incoming messages keep a cohort sound.
use did_btcr2_js.Prelude.{
  length, nat_beq, some, inl, inr, Bool-cases, ap, arith, false, is_some, nat_eq, refl, string_eq,
  subst, sym, true, ◌∙◌, ◌≡◌,
}
use did_btcr2_js.Prelude.Step.{call_ends, if_ends, when_ends, when_some_ends}
use did_btcr2_js.Common.Json.{Json}
use did_btcr2_js.Aggregation.Service.Fallback.{
  check_fallback, handle_fallback_signature, store_fallback_signature, store_spend,
}
use did_btcr2_js.Aggregation.Messages.{
  Message, MessageType, aggregated_nonce, authorization_request, cohort_advert, cohort_opt_in,
  cohort_opt_in_accept, cohort_ready, distribute_aggregated_data, fallback_authorization_request,
  fallback_signature, is_foreign, nonce_contribution, other, signature_authorization,
  submit_nonincluded, submit_update, validation_ack,
}
use did_btcr2_js.Aggregation.Cohort.{
  Cohort, add_update, has_all_validation_responses, is_fully_validated,
}
use did_btcr2_js.Aggregation.Service.Sound.Changes.{
  decline-core, opt_in-core, update-core, verify_submitted_update-IsProven,
}
use did_btcr2_js.Aggregation.Service.Receive.{handle, receive_action}
use did_btcr2_js.Aggregation.Service.Handlers.{
  accept_update, check_update, handle_nonce_contribution, handle_opt_in,
  handle_signature_authorization, handle_submit_non_inclusion, handle_submit_update,
  handle_validation_ack, is_collecting, phase_after_validation, reject, store_opt_in,
  store_partial_signature, store_response, store_session_nonce, store_signature, store_validation,
  verify_submitted_update,
}
use did_btcr2_js.Aggregation.Service.Endings.{or_reject_ends, with_member_ends, with_update_ends}
use did_btcr2_js.Aggregation.Service.{
  nonces_collected, CohortState, Host, RejectionReason, complete, data_distributed, failed,
  update_malformed, update_too_large, update_verification_failed, validated, wrong_version,
}
use did_btcr2_js.Prelude.Result.{Holds-eq, ok}
use did_btcr2_js.Aggregation.Service.Sound.Operator.{Sound}
use did_btcr2_js.Aggregation.Service.Sound.{CoreOf, IsSound, core_same}
use did_btcr2_js.Aggregation.Service.Phases.{is_in-eq}
use did_btcr2_js.Prelude.Dict.{includes, set}
use Prim.Native.String.{String}
use did_btcr2_js.Aggregation.Service.Sound.Responses.{
  add_non_inclusion-Holds, add_update-Holds, add_validation-Holds, phase_after_response-ne,
}

module _ (host : Host) (id : String) (m : Message) (s : CohortState) (sound : IsSound host s) where
  rejected : (code : RejectionReason) → Sound host (reject m.from code s)
  unfolding reject
  rejected code = record { core = sound.core; completed = sound.completed }

  opt_in-Sound : Sound host (handle_opt_in id m s)
  unfolding handle_opt_in store_opt_in
  opt_in-Sound = when_ends (Sound host) _ _ s sound (λ e1.
      when_some_ends (Sound host) _ _ s sound (λ pk e2.
        when_some_ends (Sound host) _ _ s sound (λ communication_pk e3.
          when_ends (Sound host) _ _ s sound (λ e4. record {
            core = opt_in-core host s sound.core m.from _ (ground (arith, e4));
            completed = sound.completed;
          }))))

  store_response-Sound :
      (k : Cohort)
      → is_collecting s.phase ≡ true
      → CoreOf host s k
      → Sound host (store_response k s)
  unfolding store_response
  store_response-Sound k h core = record {
    core = core;
    completed = λ e. absurd (phase_after_response-ne s.phase k h e);
  }

  submit_update-Sound : Sound host (handle_submit_update host m s)
  unfolding handle_submit_update check_update accept_update
  submit_update-Sound = when_ends (Sound host) _ _ s sound (λ e1.
      with_update_ends (Sound host) m.from _ _ s (rejected update_malformed) (λ u e2.
        or_reject_ends (Sound host) _ m.from update_too_large _ s (rejected update_too_large) (λ e3.
          call_ends (Sound host) _ _ _ s (λ e. sound)
            (λ verified e4.
              or_reject_ends (Sound host) verified m.from update_verification_failed _ s
                (rejected update_verification_failed)
                (λ e5.
                  or_reject_ends (Sound host) _ m.from update_malformed _ s
                    (rejected update_malformed)
                    (λ e6.
                      or_reject_ends (Sound host) _ m.from update_malformed _ s
                        (rejected update_malformed)
                        (λ e7.
                          call_ends (Sound host) _ _ _ s (λ e. sound)
                            (λ k e8.
                              store_response-Sound k e1
                                (updated u k (ground (arith, e6)) (e4 ∙ ap ok e5) e8)))))))))
    where
      updated :
          (u : Json) (k : Cohort)
          → includes m.from s.cohort.non_included ≡ false
          → verify_submitted_update host s m.from u ≡ ok true
          → add_update s.cohort m.from u ≡ ok k
          → CoreOf host s k
      updated u k free verified e =
          let (same, member) = Holds-eq _ _ k (add_update-Holds s.cohort m.from u) e in
          subst (CoreOf host s) (sym same) (
            update-core host s sound.core m.from u member free
              (verify_submitted_update-IsProven host s m.from u verified))

  submit_non_inclusion-Sound : Sound host (handle_submit_non_inclusion m s)
  unfolding handle_submit_non_inclusion
  submit_non_inclusion-Sound = when_ends (Sound host) _ _ s sound (λ e1.
      or_reject_ends (Sound host) _ m.from update_malformed _ s (rejected update_malformed) (λ e2.
        or_reject_ends (Sound host) _ m.from update_malformed _ s (rejected update_malformed) (λ e3.
          call_ends (Sound host) _ _ _ s (λ e. sound)
            (λ k e4. store_response-Sound k e1 (
              subst (CoreOf host s)
                (sym (Holds-eq _ _ k (add_non_inclusion-Holds s.cohort m.from) e4))
                (decline-core host s sound.core m.from e2 (ground (arith, e3))))))))

  validation_ack-Sound : Sound host (handle_validation_ack m s)
  unfolding handle_validation_ack store_validation phase_after_validation
  validation_ack-Sound = when_ends (Sound host) _ _ s sound (λ e1.
      when_some_ends (Sound host) _ _ s sound (λ approved e2.
        call_ends (Sound host) _ _ _ s (λ e. sound)
          (λ k e3. record {
            core =
                core_same host s s.cohort k
                  (Holds-eq _ _ k (add_validation-Holds s.cohort m.from approved) e3) sound.core;
            completed = λ h. absurd (open_phase k (is_in-eq s.phase data_distributed e1) h);
          })))
    where
      open_phase :
          (k : Cohort)
          → s.phase ≡ data_distributed
          → phase_after_validation s.phase k ≡ complete
          → ⊥
      open_phase k p h = elim (Bool-cases (is_fully_validated k)) [
        | inl full ↦ let e' : validated ≡ complete = rw full at h in cc
        | inr part ↦ elim (Bool-cases (has_all_validation_responses k)) [
          | inl refused ↦ let e' : failed ≡ complete = rw (part, refused) at h in cc
          | inr waiting ↦ let e' : s.phase ≡ complete = rw (part, waiting) at h in cc
        ]
      ]

  nonce_contribution-Sound : Sound host (handle_nonce_contribution m s)
  unfolding handle_nonce_contribution store_session_nonce
  nonce_contribution-Sound = when_some_ends (Sound host) _ _ s sound (λ session e1.
      when_ends (Sound host) _ _ s sound (λ e2. when_ends (Sound host) _ _ s sound (λ e3.
        when_some_ends (Sound host) _ _ s sound (λ nonce e4.
          call_ends (Sound host) _ _ _ s (λ e. sound)
            (λ k e5. record {
              core = sound.core;
              completed =
                  if_ends (λ p. p ≡ complete → is_some s.result ≡ true)
                    (nat_beq (length k.nonce_contributions) (length s.cohort.participants))
                    {x = nonces_collected} (λ h. cc h) sound.completed;
            })))))

  signature_authorization-Sound : Sound host (handle_signature_authorization host id m s)
  unfolding handle_signature_authorization store_partial_signature store_signature
  signature_authorization-Sound = when_some_ends (Sound host) _ _ s sound (λ session e1.
      when_ends (Sound host) _ _ s sound (λ e2. when_ends (Sound host) _ _ s sound (λ e3.
        when_some_ends (Sound host) _ _ s sound (λ partial_sig e4.
          call_ends (Sound host) _ _ _ s (λ e. sound)
            (λ k e5.
              let kept : IsSound host (record s { signing_session = some k }) = record {
                core = sound.core;
                completed = sound.completed;
              } in
              when_ends (Sound host) _ _ _ kept (λ e6.
                call_ends (Sound host) _ _ _ _ (λ e. kept)
                  (λ r e7. record { core = sound.core; completed = λ h. refl })))))))

  fallback_signature-Sound : Sound host (handle_fallback_signature host id m s)
  unfolding handle_fallback_signature check_fallback store_fallback_signature store_spend
  fallback_signature-Sound = when_some_ends (Sound host) _ _ s sound (λ session e1.
      when_some_ends (Sound host) _ _ s sound (λ signatures e2.
        when_ends (Sound host) _ _ s sound (λ e3. when_ends (Sound host) _ _ s sound (λ e4.
          when_some_ends (Sound host) _ _ s sound (λ fields e5.
            when_some_ends (Sound host) _ _ s sound (λ prev_out e6.
              with_member_ends (Sound host) m.from _ _ s (rejected update_malformed) (λ key e7.
                or_reject_ends (Sound host) _ m.from update_malformed _ s
                  (rejected update_malformed)
                  (λ e8.
                    call_ends (Sound host) _ _ _ s (λ e. sound)
                      (λ leaf e9.
                        or_reject_ends (Sound host) _ m.from update_verification_failed _ s
                          (rejected update_verification_failed)
                          (λ e10.
                            let kept : IsSound host (record s {
                              fallback_signatures = some (
                                  set m.from (record { pub_key = fields.0; signature = fields.1 })
                                    signatures);
                            }) =
                              record { core = sound.core; completed = sound.completed } in
                            when_ends (Sound host) _ _ _ kept (λ e11.
                              call_ends (Sound host) _ _ _ _ (λ e. kept)
                                (λ tx e12. record {
                                  core = sound.core;
                                  completed = λ h. refl;
                                }))))))))))))

  handle-Sound : (kind : MessageType) → Sound host (handle host id m kind s)
  unfolding handle
  handle-Sound cohort_opt_in = opt_in-Sound
  handle-Sound submit_update = submit_update-Sound
  handle-Sound submit_nonincluded = submit_non_inclusion-Sound
  handle-Sound validation_ack = validation_ack-Sound
  handle-Sound nonce_contribution = nonce_contribution-Sound
  handle-Sound signature_authorization = signature_authorization-Sound
  handle-Sound fallback_signature = fallback_signature-Sound
  handle-Sound cohort_advert = sound
  handle-Sound cohort_opt_in_accept = sound
  handle-Sound cohort_ready = sound
  handle-Sound distribute_aggregated_data = sound
  handle-Sound authorization_request = sound
  handle-Sound aggregated_nonce = sound
  handle-Sound fallback_authorization_request = sound
  handle-Sound other = sound

  pub receive_action-Sound : Sound host (receive_action host id m s)
  unfolding receive_action
  receive_action-Sound = elim (Bool-cases (is_foreign m)) [
    | inl e ↦ rw e (rejected wrong_version)
    | inr e ↦ rw e (handle-Sound m.kind)
  ]
