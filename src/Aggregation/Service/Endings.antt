-- ===== src/Aggregation/Service/Endings.antt =====
-- What holds at every end of a handler holds of the handler: the combinators that drop a message.
use did_btcr2_js.Prelude.{Bool, Option, false, refl, some, true, ◌≡◌, none}
use Prim.Native.String.{String}
use did_btcr2_js.Aggregation.Service.Fallback.{with_member}
use did_btcr2_js.Aggregation.Service.Handlers.{or_reject, reject, with_update}
use did_btcr2_js.Common.Json.{Json}
use did_btcr2_js.Prelude.Result.{Result}
use did_btcr2_js.Aggregation.Service.{
  Action, CohortState, RejectionReason, ServiceError, update_malformed,
}
use did_btcr2_js.Smt.Hash.{Bytes}

module _ (P : Result ServiceError (Unit {0}) × CohortState → Type 0) where
  pub or_reject_ends :
      (b : Bool) (from : String) (code : RejectionReason) (step : Action (Unit {0}))
      (s : CohortState)
      → P (reject from code s)
      → (b ≡ true → P (step s))
      → P (or_reject b from code step s)
  unfolding or_reject
  or_reject_ends true from code step s out h = h refl
  or_reject_ends false from code step s out h = out

  pub with_update_ends :
      (from : String) (step : Json → Action (Unit {0})) (o : Option Json) (s : CohortState)
      → P (reject from update_malformed s)
      → ((u : Json) → o ≡ some u → P (step u s))
      → P (with_update from step o s)
  unfolding with_update
  with_update_ends from step none s out h = out
  with_update_ends from step (some u) s out h = h u refl

  pub with_member_ends :
      (from : String) (step : Bytes → Action (Unit {0})) (o : Option Bytes) (s : CohortState)
      → P (reject from update_malformed s)
      → ((key : Bytes) → o ≡ some key → P (step key s))
      → P (with_member from step o s)
  unfolding with_member
  with_member_ends from step none s out h = out
  with_member_ends from step (some key) s out h = h key refl
