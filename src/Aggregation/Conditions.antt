-- ===== src/Aggregation/Conditions.antt =====
-- packages/aggregation/src/core/conditions.ts: the conditions that a service advertises for a cohort,
-- and `validateCohortConditions`. Where the code pushes on one array of problems, each check here
-- returns the problems that it pushes.
pub mod Admissible
pub mod Checks
pub mod Equivalence
use did_btcr2_js.Common.Number.{Number, above, below, is_finite, is_integer, less}
use did_btcr2_js.Prelude.{
  Bool, List, Option, [], false, if◌then◌else◌, leb, none, not, some, string_eq, suc, true, zero, ℕ,
  ◌&&◌, ◌++◌, ◌==◌, ◌||◌, ◌∷◌,
}
use did_btcr2_js.Prelude.Dict.{includes}
use Prim.Native.Char.{code}
use Prim.Native.String
use Prim.Native.String.{String}

pub record CohortCost : Type 0 where
  pub amount : Number
  pub unit : String
  pub basis : Option String

pub record CohortConditions : Type 0 where
  pub beacon_type : String
  pub min_participants : Number
  pub max_participants : Option Number
  pub min_dids_per_participant : Option Number
  pub max_dids_per_participant : Option Number
  pub cost_of_enrollment : Option CohortCost
  pub cost_per_announcement : Option CohortCost
  pub min_seconds_between_announcements : Option Number
  pub max_seconds_between_announcements : Option Number
  pub pending_update_trigger : Option Number
  pub funding_model : Option String
  pub recovery_key : String
  pub recovery_sequence : Number
  pub fallback_threshold : Option Number

abbrev pub known_beacon_types : List String
known_beacon_types = "CASBeacon" ∷ "SMTBeacon" ∷ []

abbrev pub known_funding_models : List String
known_funding_models = "operator-funded" ∷ "participant-funded" ∷ []

-- recovery-policy.ts
abbrev pub max_recovery_sequence : ℕ
max_recovery_sequence = 0xffff

-- `if(bad) problems.push(text)`
abbrev pub report : Bool → String → List String
report bad text = if bad then text ∷ [] else []

abbrev concat : String → String → String
concat a b = String.◌++◌ a b

-- `!Number.isInteger(x) || x < least`
abbrev pub is_short : ℕ → Number → Bool
is_short least x = not (is_integer x) || below x least

unfoldable pub check_bound : String → Option Number → List String
check_bound text none = []
check_bound text (some x) = report (is_short 0 x) text

unfoldable pub check_order : String → Option Number → Option Number → List String
check_order text none max = []
check_order text (some min) none = []
check_order text (some min) (some max) =
    report (is_integer min && is_integer max && less max min) text

unfoldable pub check_pair : String → Option Number → Option Number → List String
check_pair label min max =
    check_bound (concat "min" (concat label " must be an integer >= 0")) min
    ++ (check_bound (concat "max" (concat label " must be an integer >= 0")) max
        ++ check_order (concat "max" (concat label (concat " must be >= min" label))) min max)

unfoldable pub check_basis : String → Option String → List String
check_basis text none = []
check_basis text (some basis) =
    report (not (basis == "per-did") && not (basis == "per-participant")) text

unfoldable pub check_cost : String → Option CohortCost → List String
check_cost label none = []
check_cost label (some cost) =
    report (not (is_finite cost.amount) || below cost.amount 0)
      (concat label ".amount must be a finite number >= 0")
    ++ (report (cost.unit == "") (concat label ".unit must be a non-empty string")
        ++ check_basis (concat label ".basis must be 'per-did' or 'per-participant'") cost.basis)

unfoldable pub check_max : Number → Option Number → List String
check_max min none = []
check_max min (some max) =
    if is_short 1 max
    then "maxParticipants must be an integer >= 1" ∷ []
    else report (is_integer min && less max min) "maxParticipants must be >= minParticipants"

unfoldable pub check_trigger : Option Number → List String
check_trigger none = []
check_trigger (some x) = report (is_short 1 x) "pendingUpdateTrigger must be an integer >= 1"

-- The bound of the threshold by `maxParticipants`.
unfoldable pub exceeds : Option Number → Number → Bool
exceeds none k = false
exceeds (some max) k = is_integer max && less max k

unfoldable pub check_threshold : Option Number → Option Number → List String
check_threshold none max = []
check_threshold (some k) max =
    if is_short 1 k
    then "fallbackThreshold must be an integer >= 1" ∷ []
    else report (exceeds max k) "fallbackThreshold must be <= maxParticipants"

abbrev pub is_hex_digit : ℕ → Bool
is_hex_digit c = leb b'0' c && leb c b'9' || leb b'a' c && leb c b'f' || leb b'A' c && leb c b'F'

-- `/^[0-9a-fA-F]{n}$/.test(text)`
unfoldable pub is_hex_text : ℕ → String → Bool
is_hex_text zero String.[] = true
is_hex_text zero (String.◌∷◌ c s) = false
is_hex_text (suc n) String.[] = false
is_hex_text (suc n) (String.◌∷◌ c s) = is_hex_digit (code c) && is_hex_text n s

unfoldable pub check_funding_model : Option String → List String
check_funding_model none = []
check_funding_model (some model) =
    report (not (includes model known_funding_models))
      "fundingModel must be one of operator-funded, participant-funded"

unfoldable pub validate_cohort_conditions : CohortConditions → List String
validate_cohort_conditions c =
    report (not (includes c.beacon_type known_beacon_types))
      "beaconType must be one of CASBeacon, SMTBeacon"
    ++ (report (is_short 1 c.min_participants) "minParticipants must be an integer >= 1"
        ++ (check_max c.min_participants c.max_participants
            ++ (check_pair "DidsPerParticipant" c.min_dids_per_participant
                  c.max_dids_per_participant
                ++ (check_pair "SecondsBetweenAnnouncements" c.min_seconds_between_announcements
                      c.max_seconds_between_announcements
                    ++ (check_trigger c.pending_update_trigger
                        ++ (check_threshold c.fallback_threshold c.max_participants
                            ++ (check_cost "costOfEnrollment" c.cost_of_enrollment
                                ++ (check_cost "costPerAnnouncement" c.cost_per_announcement
                                    ++ (report (not (is_hex_text 64 c.recovery_key))
                                          "recoveryKey must be a 64-character hex string (x-only public key)"
                                        ++ (report
                                              (is_short 1 c.recovery_sequence
                                                || above c.recovery_sequence max_recovery_sequence)
                                              "recoverySequence must be a block-based BIP-68 relative timelock in [1, 65535]"
                                            ++ check_funding_model c.funding_model))))))))))
