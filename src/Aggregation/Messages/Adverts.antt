-- ===== src/Aggregation/Messages/Adverts.antt =====
-- packages/aggregation/src/core/messages/bodies.ts: the guard of a cohort advert.
use did_btcr2_js.Prelude.{
  Bool, List, Option, if◌then◌else◌, nat_eq, not, some, string_eq, true, ℕ, ◌&&◌, ◌||◌, none,
}
use did_btcr2_js.Aggregation.Conditions.{
  CohortConditions, is_short, known_funding_models, max_recovery_sequence,
}
use Prim.Native.String.{String}
use did_btcr2_js.Common.Number.{Number, above}
use did_btcr2_js.Prelude.Dict.{includes}
use did_btcr2_js.Smt.Hash.{Bytes}
use did_btcr2_js.Aggregation.Messages.{Body}

-- An advert that has passed its guard.
pub record Advert : Type 0 where
  pub cohort_id : String
  pub network : String
  pub communication_pk : Bytes
  pub conditions : CohortConditions

-- `optIntMin` and `optStrOneOf`
unfoldable pub opt_int_min : ℕ → Option Number → Bool
opt_int_min least none = true
opt_int_min least (some x) = not (is_short least x)

unfoldable pub opt_str_one_of : List String → Option String → Bool
opt_str_one_of allowed none = true
opt_str_one_of allowed (some text) = includes text allowed

-- The ranges that `isCohortAdvertMessage` checks.
unfoldable pub is_advertised : CohortConditions → Bool
is_advertised c =
    not (is_short 1 c.min_participants)
    && opt_int_min 1 c.max_participants
    && not (is_short 1 c.recovery_sequence || above c.recovery_sequence max_recovery_sequence)
    && opt_str_one_of known_funding_models c.funding_model
    && opt_int_min 1 c.fallback_threshold

unfoldable pub advert_of :
    Option String → Option String → Option Bytes → Option CohortConditions → Option Advert
advert_of (some id) (some network) (some pk) (some conditions) =
    if is_advertised conditions
    then some (record {
      cohort_id = id;
      network = network;
      communication_pk = pk;
      conditions = conditions;
    })
    else none
advert_of _ _ _ _ = none

-- `isCohortAdvertMessage` of a message of that type, with what it narrows the body to.
pub cohort_advert_of : Body → Option Advert
cohort_advert_of b = advert_of b.cohort_id b.network b.communication_pk b.conditions
