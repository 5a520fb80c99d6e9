-- ===== src/Aggregation/Conditions/Equivalence.antt =====
-- `validateCohortConditions` beside the documented conditions.
use did_btcr2_js.Prelude.{ap, arith, not, ◌↔◌, ◌≡◌, []}
use did_btcr2_js.Aggregation.Conditions.Checks.{
  append-eq-nil, append_nil, report-eq-nil, check_beacon_type, check_funding_model-eq-nil,
  check_max_of, check_pair-eq-nil, check_sequence, check_threshold-eq-nil, check_trigger-eq-nil,
  is_hex_text-eq-true, report_short,
}
use did_btcr2_js.Aggregation.Conditions.{CohortConditions, is_hex_text, validate_cohort_conditions}
use did_btcr2_js.Aggregation.Conditions.Admissible.{IsAdmissible}
use did_btcr2_js.Aggregation.Conditions.Checks.Costs.{check_cost-eq-nil}

-- `validateCohortConditions` finds no problem exactly when the conditions are the documented ones: a
-- known beacon type; bounds that are integers in range and in order; costs that are finite, not
-- negative, with a unit and a known basis; a recovery key of 64 hexadecimal digits; a recovery
-- sequence from 1 to 65535; a known funding model; a fallback threshold of 1 up to the participants.
pub validate_cohort_conditions-IsAdmissible :
    (c : CohortConditions) → (validate_cohort_conditions c ≡ []) ↔ IsAdmissible c
unfolding validate_cohort_conditions
validate_cohort_conditions-IsAdmissible c = (
  λ e.
      let (e1, r1) = (append-eq-nil _ _).0 e in
      let (e2, r2) = (append-eq-nil _ _).0 r1 in
      let (e3, r3) = (append-eq-nil _ _).0 r2 in
      let (e4, r4) = (append-eq-nil _ _).0 r3 in
      let (e5, r5) = (append-eq-nil _ _).0 r4 in
      let (e6, r6) = (append-eq-nil _ _).0 r5 in
      let (e7, r7) = (append-eq-nil _ _).0 r6 in
      let (e8, r8) = (append-eq-nil _ _).0 r7 in
      let (e9, r9) = (append-eq-nil _ _).0 r8 in
      let (e10, r10) = (append-eq-nil _ _).0 r9 in
      let (e11, e12) = (append-eq-nil _ _).0 r10 in
      let least = (report_short 1 c.min_participants _).0 e2 in
      let max = (check_max_of c.min_participants c.max_participants least).0 e3 in
      let key = (report-eq-nil (not (is_hex_text 64 c.recovery_key)) _).0 e10 in
      record {
        beacon_type = (check_beacon_type c.beacon_type _).0 e1;
        min_participants = least;
        max_participants = max.0;
        participants = max.1;
        dids = (check_pair-eq-nil _ _ _).0 e4;
        seconds = (check_pair-eq-nil _ _ _).0 e5;
        trigger = (check_trigger-eq-nil _).0 e6;
        threshold = ((check_threshold-eq-nil c.fallback_threshold c.max_participants max.0).0 e7).0;
        threshold_max =
            ((check_threshold-eq-nil c.fallback_threshold c.max_participants max.0).0 e7).1;
        enrollment = (check_cost-eq-nil _ _).0 e8;
        announcement = (check_cost-eq-nil _ _).0 e9;
        recovery_key = (is_hex_text-eq-true 64 c.recovery_key).0 (ground (arith, key));
        recovery_sequence = (check_sequence c.recovery_sequence _).0 e11;
        funding_model = (check_funding_model-eq-nil c.funding_model).0 e12;
      },
  λ h. append_nil ((check_beacon_type c.beacon_type _).1 h.beacon_type) (
      append_nil ((report_short 1 c.min_participants _).1 h.min_participants) (
        append_nil
          ((check_max_of c.min_participants c.max_participants h.min_participants).1
            (h.max_participants, h.participants))
          (append_nil ((check_pair-eq-nil _ _ _).1 h.dids) (
            append_nil ((check_pair-eq-nil _ _ _).1 h.seconds) (
              append_nil ((check_trigger-eq-nil _).1 h.trigger) (
                append_nil
                  ((check_threshold-eq-nil c.fallback_threshold c.max_participants
                      h.max_participants).1
                    (h.threshold, h.threshold_max))
                  (append_nil ((check_cost-eq-nil _ _).1 h.enrollment) (
                    append_nil ((check_cost-eq-nil _ _).1 h.announcement) (
                      append_nil
                        ((report-eq-nil (not (is_hex_text 64 c.recovery_key)) _).1
                          (ap not ((is_hex_text-eq-true 64 c.recovery_key).1 h.recovery_key)))
                        (append_nil ((check_sequence c.recovery_sequence _).1 h.recovery_sequence) (
                          (check_funding_model-eq-nil c.funding_model).1 h.funding_model))))))))))),
)
