-- ===== src/Aggregation/Service/Phases/Messages.antt =====
-- The phases of a cohort under the handlers of incoming messages, and under `receive`.
use did_btcr2_js.Prelude.{Bool-cases, inl, inr, refl, subst, sym, true, ◌≡◌}
use did_btcr2_js.Prelude.Step.{call_ends, if_ends, when_ends, when_some_ends}
use did_btcr2_js.Aggregation.Service.Phases.{
  Allowed, Moves, advance_from, approval, first_response, is_in-eq, key_path_spend, last_response,
  nonces, only_response, or_true, refusal, script_path_spend,
}
use did_btcr2_js.Aggregation.Service.{
  CohortState, Host, RejectionReason, ServicePhase, awaiting_partial_sigs, cohort_set,
  collecting_updates, data_distributed, fallback_requested, is_in, service_phase_number,
  signing_started, update_malformed, update_too_large, update_verification_failed, wrong_version,
}
use did_btcr2_js.Aggregation.Messages.{
  Message, MessageType, aggregated_nonce, authorization_request, cohort_advert, cohort_opt_in,
  cohort_opt_in_accept, cohort_ready, distribute_aggregated_data, fallback_authorization_request,
  fallback_signature, is_foreign, nonce_contribution, other, signature_authorization,
  submit_nonincluded, submit_update, validation_ack,
}
use did_btcr2_js.Aggregation.Service.Handlers.{
  accept_update, check_update, handle_nonce_contribution, handle_opt_in,
  handle_signature_authorization, handle_submit_non_inclusion, handle_submit_update,
  handle_validation_ack, is_collecting, phase_after_response, phase_after_validation, reject,
  store_opt_in, store_partial_signature, store_response, store_session_nonce, store_signature,
  store_validation,
}
use did_btcr2_js.Aggregation.Service.Endings.{or_reject_ends, with_member_ends, with_update_ends}
use did_btcr2_js.Aggregation.Service.Receive.{handle, receive_action}
use Prim.Native.String.{String}
use did_btcr2_js.Aggregation.Service.Fallback.{
  check_fallback, handle_fallback_signature, store_fallback_signature, store_spend,
}
use did_btcr2_js.Aggregation.Cohort.{
  Cohort, has_all_responses, has_all_validation_responses, is_fully_validated,
}

collected :
    (p : ServicePhase) (k : Cohort) → is_collecting p ≡ true → Allowed p (phase_after_response p k)
unfolding phase_after_response
collected p k h = elim (or_true _ _ h) [
  | inl e ↦ subst (λ x. Allowed x (phase_after_response x k)) (sym (is_in-eq p cohort_set e)) first
  | inr e ↦
      subst (λ x. Allowed x (phase_after_response x k)) (sym (is_in-eq p collecting_updates e))
        later
]
  where
    first : Allowed cohort_set (phase_after_response cohort_set k)
    first = elim (Bool-cases (has_all_responses k)) [
      | inl e ↦ rw e (inr only_response)
      | inr e ↦ rw e (unfold service_phase_number in inr first_response)
    ]

    later : Allowed collecting_updates (phase_after_response collecting_updates k)
    later = elim (Bool-cases (has_all_responses k)) [
      | inl e ↦ rw e (inr last_response)
      | inr e ↦ rw e (unfold service_phase_number in inl refl)
    ]

answered :
    (p : ServicePhase) (k : Cohort)
    → is_in p data_distributed ≡ true
    → Allowed p (phase_after_validation p k)
unfolding phase_after_validation
answered p k h = elim (Bool-cases (is_fully_validated k)) [
  | inl e ↦ rw e (advance_from p data_distributed h approval)
  | inr e ↦ elim (Bool-cases (has_all_validation_responses k)) [
    | inl f ↦ rw (e, f) (advance_from p data_distributed h refusal)
    | inr f ↦ rw (e, f) (inl refl)
  ]
]

module _ (host : Host) (id : String) (m : Message) (s : CohortState) where
  rejected : (code : RejectionReason) → Moves s.phase (reject m.from code s)
  unfolding reject
  rejected code = inl refl

  opt_in-Moves : Moves s.phase (handle_opt_in id m s)
  unfolding handle_opt_in store_opt_in
  opt_in-Moves = when_ends (Moves s.phase) _ _ s (inl refl) (λ e1.
      when_some_ends (Moves s.phase) _ _ s (inl refl) (λ pk e2.
        when_some_ends (Moves s.phase) _ _ s (inl refl)
          (λ communication_pk e3. when_ends (Moves s.phase) _ _ s (inl refl) (λ e4. inl refl))))

  submit_update-Moves : Moves s.phase (handle_submit_update host m s)
  unfolding handle_submit_update check_update accept_update store_response
  submit_update-Moves = when_ends (Moves s.phase) _ _ s (inl refl) (λ e1.
      with_update_ends (Moves s.phase) m.from _ _ s (rejected update_malformed) (λ u e2.
        or_reject_ends (Moves s.phase) _ m.from update_too_large _ s (rejected update_too_large)
          (λ e3.
            call_ends (Moves s.phase) _ _ _ s (λ e. inl refl)
              (λ verified e4.
                or_reject_ends (Moves s.phase) verified m.from update_verification_failed _ s
                  (rejected update_verification_failed)
                  (λ e5.
                    or_reject_ends (Moves s.phase) _ m.from update_malformed _ s
                      (rejected update_malformed)
                      (λ e6.
                        or_reject_ends (Moves s.phase) _ m.from update_malformed _ s
                          (rejected update_malformed)
                          (λ e7.
                            call_ends (Moves s.phase) _ _ _ s (λ e. inl refl)
                              (λ k e8. collected s.phase k e1))))))))

  submit_non_inclusion-Moves : Moves s.phase (handle_submit_non_inclusion m s)
  unfolding handle_submit_non_inclusion store_response
  submit_non_inclusion-Moves = when_ends (Moves s.phase) _ _ s (inl refl) (λ e1.
      or_reject_ends (Moves s.phase) _ m.from update_malformed _ s (rejected update_malformed)
        (λ e2.
          or_reject_ends (Moves s.phase) _ m.from update_malformed _ s (rejected update_malformed)
            (λ e3.
              call_ends (Moves s.phase) _ _ _ s (λ e. inl refl) (λ k e4. collected s.phase k e1))))

  validation_ack-Moves : Moves s.phase (handle_validation_ack m s)
  unfolding handle_validation_ack store_validation
  validation_ack-Moves = when_ends (Moves s.phase) _ _ s (inl refl) (λ e1.
      when_some_ends (Moves s.phase) _ _ s (inl refl) (λ approved e2.
        call_ends (Moves s.phase) _ _ _ s (λ e. inl refl) (λ k e3. answered s.phase k e1)))

  nonce_contribution-Moves : Moves s.phase (handle_nonce_contribution m s)
  unfolding handle_nonce_contribution store_session_nonce
  nonce_contribution-Moves = when_some_ends (Moves s.phase) _ _ s (inl refl) (λ session e1.
      when_ends (Moves s.phase) _ _ s (inl refl) (λ e2.
        when_ends (Moves s.phase) _ _ s (inl refl) (λ e3.
          when_some_ends (Moves s.phase) _ _ s (inl refl) (λ nonce e4.
            call_ends (Moves s.phase) _ _ _ s (λ e. inl refl)
              (λ k e5.
                if_ends (Allowed s.phase) _ (advance_from s.phase signing_started e2 nonces)
                  (inl refl))))))

  signature_authorization-Moves : Moves s.phase (handle_signature_authorization host id m s)
  unfolding handle_signature_authorization store_partial_signature store_signature
  signature_authorization-Moves = when_some_ends (Moves s.phase) _ _ s (inl refl) (λ session e1.
      when_ends (Moves s.phase) _ _ s (inl refl) (λ e2.
        when_ends (Moves s.phase) _ _ s (inl refl) (λ e3.
          when_some_ends (Moves s.phase) _ _ s (inl refl) (λ partial_sig e4.
            call_ends (Moves s.phase) _ _ _ s (λ e. inl refl)
              (λ k e5. when_ends (Moves s.phase) _ _ _ (inl refl) (λ e6.
                call_ends (Moves s.phase) _ _ _ _ (λ e. inl refl)
                  (λ r e7. advance_from s.phase awaiting_partial_sigs e2 key_path_spend)))))))

  fallback_signature-Moves : Moves s.phase (handle_fallback_signature host id m s)
  unfolding handle_fallback_signature check_fallback store_fallback_signature store_spend
  fallback_signature-Moves = when_some_ends (Moves s.phase) _ _ s (inl refl) (λ session e1.
      when_some_ends (Moves s.phase) _ _ s (inl refl) (λ signatures e2.
        when_ends (Moves s.phase) _ _ s (inl refl) (λ e3.
          when_ends (Moves s.phase) _ _ s (inl refl) (λ e4.
            when_some_ends (Moves s.phase) _ _ s (inl refl) (λ fields e5.
              when_some_ends (Moves s.phase) _ _ s (inl refl) (λ prev_out e6.
                with_member_ends (Moves s.phase) m.from _ _ s (rejected update_malformed) (λ key e7.
                  or_reject_ends (Moves s.phase) _ m.from update_malformed _ s
                    (rejected update_malformed)
                    (λ e8.
                      call_ends (Moves s.phase) _ _ _ s (λ e. inl refl)
                        (λ leaf e9.
                          or_reject_ends (Moves s.phase) _ m.from update_verification_failed _ s
                            (rejected update_verification_failed)
                            (λ e10. when_ends (Moves s.phase) _ _ _ (inl refl) (λ e11.
                              call_ends (Moves s.phase) _ _ _ _ (λ e. inl refl)
                                (λ tx e12.
                                  advance_from s.phase fallback_requested e3
                                    script_path_spend))))))))))))

  handle-Moves : (kind : MessageType) → Moves s.phase (handle host id m kind s)
  unfolding handle
  handle-Moves cohort_opt_in = opt_in-Moves
  handle-Moves submit_update = submit_update-Moves
  handle-Moves submit_nonincluded = submit_non_inclusion-Moves
  handle-Moves validation_ack = validation_ack-Moves
  handle-Moves nonce_contribution = nonce_contribution-Moves
  handle-Moves signature_authorization = signature_authorization-Moves
  handle-Moves fallback_signature = fallback_signature-Moves
  handle-Moves cohort_advert = inl refl
  handle-Moves cohort_opt_in_accept = inl refl
  handle-Moves cohort_ready = inl refl
  handle-Moves distribute_aggregated_data = inl refl
  handle-Moves authorization_request = inl refl
  handle-Moves aggregated_nonce = inl refl
  handle-Moves fallback_authorization_request = inl refl
  handle-Moves other = inl refl

  pub receive_action-Moves : Moves s.phase (receive_action host id m s)
  unfolding receive_action
  receive_action-Moves = elim (Bool-cases (is_foreign m)) [
    | inl e ↦ rw e (rejected wrong_version)
    | inr e ↦ rw e (handle-Moves m.kind)
  ]
