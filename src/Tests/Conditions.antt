-- ===== src/Tests/Conditions.antt =====
-- Cohort conditions, good ones and bad ones.
use did_btcr2_js.Prelude.{nat_eq, some, string_eq, ◌∷◌, [], refl, ◌↔◌, ◌≡◌}
use did_btcr2_js.Tests.ToyHost.{conditions}
use did_btcr2_js.Aggregation.Conditions.Admissible.{IsAdmissible}
use did_btcr2_js.Aggregation.Conditions.Equivalence.{validate_cohort_conditions-IsAdmissible}
use did_btcr2_js.Aggregation.Conditions.{
  CohortConditions, check_basis, check_bound, check_cost, check_funding_model, check_max,
  check_order, check_pair, check_threshold, check_trigger, exceeds, is_hex_text,
  validate_cohort_conditions,
}
use did_btcr2_js.Common.Number.{above, below, is_integer, less, natural}

pub problems_test : validate_cohort_conditions conditions ≡ []
unfolding validate_cohort_conditions check_bound check_order check_pair check_basis check_cost
    check_max check_trigger exceeds check_threshold is_hex_text check_funding_model is_integer below
    above less
problems_test = refl

-- The admissible conditions are those without a problem.
validate_cohort_conditions-IsAdmissible_example :
    (validate_cohort_conditions conditions ≡ []) ↔ IsAdmissible conditions
validate_cohort_conditions-IsAdmissible_example = validate_cohort_conditions-IsAdmissible conditions

abbrev bad : CohortConditions
bad = record conditions { max_participants = some (natural 1); recovery_key = "0g" }

-- Fewer participants at most than at least, and a key that is too short.
bad_test :
    validate_cohort_conditions bad
    ≡ "maxParticipants must be >= minParticipants"
      ∷ "recoveryKey must be a 64-character hex string (x-only public key)" ∷ []
unfolding validate_cohort_conditions check_bound check_order check_pair check_basis check_cost
    check_max check_trigger exceeds check_threshold is_hex_text check_funding_model is_integer below
    above less
bad_test = refl
