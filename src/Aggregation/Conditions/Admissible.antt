-- ===== src/Aggregation/Conditions/Admissible.antt =====
-- Cohort conditions as the documentation of conditions.ts words them, beside the code's checks.
use did_btcr2_js.Prelude.{All, Option, length, none, some, ℕ, ◌∷◌, ◌≡◌, ◌≢◌, ◌≤◌, ◌⊎◌, List, []}
use did_btcr2_js.Common.Number.{Number, fraction, natural}
use did_btcr2_js.Aggregation.Conditions.{CohortConditions, CohortCost}
use Prim.Native.Char.{code}
use Prim.Native.String.{String}

abbrev pub Optional {ℓ} : {A : Type ℓ} → (A → Type 0) → Option A → Type 0
Optional P none = Unit
Optional P (some x) = P x

-- An integer that is not below `least`.
abbrev pub IsAtLeast : ℕ → Number → Type 0
IsAtLeast least x = (n : ℕ) × (x ≡ natural n) × (least ≤ n)

abbrev pub IsOrder : Number → Number → Type 0
IsOrder (natural a) (natural b) = a ≤ b
IsOrder _ _ = Unit

-- Where both are there, the first is at most the second.
abbrev pub AreOrdered : Option Number → Option Number → Type 0
AreOrdered none max = Unit
AreOrdered (some min) none = Unit
AreOrdered (some min) (some max) = IsOrder min max

abbrev pub IsPair : Option Number → Option Number → Type 0
IsPair min max = Optional (IsAtLeast 0) min × Optional (IsAtLeast 0) max × AreOrdered min max

-- A finite number that is not negative.
abbrev pub IsAmount : Number → Type 0
IsAmount x = ((n : ℕ) × (x ≡ natural n)) ⊎ ((n : ℕ) × (x ≡ fraction n))

abbrev pub IsBasis : String → Type 0
IsBasis basis = (basis ≡ "per-did") ⊎ (basis ≡ "per-participant")

abbrev pub IsCost : CohortCost → Type 0
IsCost cost = IsAmount cost.amount × (cost.unit ≢ "") × Optional IsBasis cost.basis

abbrev pub codes : String → List ℕ
codes String.[] = []
codes (String.◌∷◌ c s) = code c ∷ codes s

abbrev pub IsHexDigit : ℕ → Type 0
IsHexDigit c = ((b'0' ≤ c) × (c ≤ b'9')) ⊎ (((b'a' ≤ c) × (c ≤ b'f')) ⊎ ((b'A' ≤ c) × (c ≤ b'F')))

-- A block-based relative timelock of BIP-68.
abbrev pub IsTimelock : Number → Type 0
IsTimelock x = (n : ℕ) × (x ≡ natural n) × (1 ≤ n) × (n ≤ 65535)

pub record IsAdmissible (c : CohortConditions) : Type 0 where
  pub beacon_type : (c.beacon_type ≡ "CASBeacon") ⊎ (c.beacon_type ≡ "SMTBeacon")
  pub min_participants : IsAtLeast 1 c.min_participants
  pub max_participants : Optional (IsAtLeast 1) c.max_participants
  pub participants : AreOrdered (some c.min_participants) c.max_participants
  pub dids : IsPair c.min_dids_per_participant c.max_dids_per_participant
  pub seconds : IsPair c.min_seconds_between_announcements c.max_seconds_between_announcements
  pub trigger : Optional (IsAtLeast 1) c.pending_update_trigger
  pub threshold : Optional (IsAtLeast 1) c.fallback_threshold
  pub threshold_max : AreOrdered c.fallback_threshold c.max_participants
  pub enrollment : Optional IsCost c.cost_of_enrollment
  pub announcement : Optional IsCost c.cost_per_announcement
  pub recovery_key : (length (codes c.recovery_key) ≡ 64) × All IsHexDigit (codes c.recovery_key)
  pub recovery_sequence : IsTimelock c.recovery_sequence
  pub funding_model :
      Optional (λ m. (m ≡ "operator-funded") ⊎ (m ≡ "participant-funded")) c.funding_model
