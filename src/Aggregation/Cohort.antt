-- ===== src/Aggregation/Cohort.antt =====
-- packages/aggregation/src/core/cohort.ts: the responses and validations that `AggregationCohort`
-- collects, and what it builds from them. Canonical hashes and texts (npm packages) are arguments.
pub mod Address
pub mod SmtTree
pub mod Responses
pub mod Answers
use did_btcr2_js.Common.Number.{Number}
use did_btcr2_js.Prelude.Result.{err, ◌>>=◌, Result, guard, ok, ◌>>◌}
use did_btcr2_js.Prelude.{
  arith, refl, ◌↔◌, ◌≡◌, map, Bool, List, Option, [], false, if◌then◌else◌, length, nat_beq, nat_eq,
  none, not, some, string_eq, suc, true, ℕ, ◌&&◌, ◌+◌, ◌∷◌,
}
use did_btcr2_js.Common.Json.{Json}
use did_btcr2_js.Prelude.Dict.{Dict, add, get, has, includes, set}
use did_btcr2_js.Smt.Hash.{Crypto, Error, Bytes}
use Prim.Native.String.{String}
use did_btcr2_js.Smt.Tree.{Tree, TreeEntry, add_entries, finalize, new_tree, proof, root_hash}
use did_btcr2_js.Smt.Proof.{SerializedSmtProof}

pub record Cohort : Type 0 where
  pub id : String
  pub service_did : String
  pub min_participants : Number
  pub network : String
  pub beacon_type : String
  pub participants : List String
  pub participant_keys : Dict String Bytes
  pub cohort_keys : List Bytes
  pub tap_tweak : Bytes
  pub internal_key : Bytes
  pub tap_merkle_root : Bytes
  pub recovery_key : Option Bytes
  pub recovery_sequence : Option Number
  pub funding_model : String
  pub fallback_threshold : Option Number
  pub beacon_address : String
  pub pending_updates : Dict String Json
  pub non_included : List String
  pub cas_announcement : Option (Dict String String)
  pub signal_bytes : Option Bytes
  pub validation_acks : List String
  pub validation_rejections : List String

pub data CohortError : Type 0 where
  unknown_participant conflicting_response incomplete_responses : CohortError
  no_cohort_keys invalid_cohort_key invalid_fallback_threshold : CohortError
  invalid_recovery_key invalid_recovery_sequence : CohortError
  unsupported_funding_model unknown_funding_model no_recovery_params : CohortError
  beacon_address_error cohort_validation_error beacon_address_mismatch : CohortError
  prevout_script_mismatch fallback_leaf_not_found not_enough_fallback_signatures : CohortError
  taproot_error : CohortError
  tree_error : Error → CohortError

-- `k.length === pk.length && k.every((b, i) => b === pk[i])`
unfoldable pub same_bytes : Bytes → Bytes → Bool
same_bytes [] [] = true
same_bytes [] (y ∷ ys) = false
same_bytes (x ∷ xs) [] = false
same_bytes (x ∷ xs) (y ∷ ys) = nat_beq x y && same_bytes xs ys

pub same_bytes_iff : (a b : Bytes) → (same_bytes a b ≡ true) ↔ (a ≡ b)
unfolding same_bytes
same_bytes_iff [] [] = (λ e. refl, λ e. refl)
same_bytes_iff [] (y ∷ ys) = (λ e. cc, λ e. cc)
same_bytes_iff (x ∷ xs) [] = (λ e. cc, λ e. cc)
same_bytes_iff (x ∷ xs) (y ∷ ys) =
    (λ e. ground (arith, (same_bytes_iff xs ys).0), λ e. ground (arith, (same_bytes_iff xs ys).1))

unfoldable pub find_index : Bytes → List Bytes → Option ℕ
find_index key [] = none
find_index key (k ∷ ks) =
    let rest = find_index key ks in
    if same_bytes k key then some 0 else elim rest [ none ↦ none | some i ↦ some (suc i) ]

-- `indexOfParticipant`, `none` for -1.
unfoldable pub index_of_participant : Cohort → String → Option ℕ
index_of_participant k did = elim (get did k.participant_keys) [
  | none ↦ none
  | some key ↦ find_index key k.cohort_keys
]

unfoldable pub add_update : Cohort → String → Json → Result CohortError Cohort
add_update k did signed_update = do
  guard (includes did k.participants) unknown_participant
  ok (record k { pending_updates = set did signed_update pending })
  where
    open k use {pending_updates as pending}

unfoldable pub add_non_inclusion : Cohort → String → Result CohortError Cohort
add_non_inclusion k did = do
  guard (includes did k.participants) unknown_participant
  guard (not (has did k.pending_updates)) conflicting_response
  ok (record k { non_included = add did declined })
  where
    open k use {non_included as declined}

pub has_all_updates : Cohort → Bool
has_all_updates k = nat_beq (length k.pending_updates) (length k.participants)

unfoldable pub has_all_responses : Cohort → Bool
has_all_responses k =
    nat_beq (length k.pending_updates + length k.non_included) (length k.participants)

-- The loop that fills the announcement.
unfoldable pub announce :
    (Json → String) → Dict String Json → Dict String String → Dict String String
announce hash_text [] announcement = announcement
announce hash_text ((did, signed_update) ∷ rest) announcement =
    announce hash_text rest (set did (hash_text signed_update) announcement)

unfoldable pub build_cas_announcement :
    (Json → String)
    → (Dict String String → Bytes)
    → Cohort
    → Result CohortError (Cohort × Dict String String)
build_cas_announcement hash_text hash_announcement k = do
  guard (has_all_responses k) incomplete_responses
  ok (
    record k {
      cas_announcement = some (announce hash_text pending []);
      signal_bytes = some (hash_announcement (announce hash_text pending []));
    },
    announce hash_text pending [],
  )
  where
    open k use {pending_updates as pending}

unfoldable pub add_validation : Cohort → String → Bool → Result CohortError Cohort
add_validation k did approved = do
  guard (includes did k.participants) unknown_participant
  ok (
      if approved
      then record k { validation_acks = add did acks }
      else record k { validation_rejections = add did rejections })
  where
    open k use {validation_acks as acks, validation_rejections as rejections}

pub has_all_validation_responses : Cohort → Bool
has_all_validation_responses k =
    nat_beq (length k.validation_acks + length k.validation_rejections) (length k.participants)

pub is_fully_validated : Cohort → Bool
is_fully_validated k =
    nat_beq (length k.validation_rejections) 0
    && nat_beq (length k.validation_acks) (length k.participants)

unfoldable pub lift_tree {ℓ} : {A : Type ℓ} → Result Error A → Result CohortError A
lift_tree (ok a) = ok a
lift_tree (err e) = err (tree_error e)

module _ {Text : Type 0} (c : Crypto Text) where
  -- The loop that asks the tree for the proofs.
  pub collect_proofs :
      Tree
      → List String
      → Dict String (SerializedSmtProof Text)
      → Result Error (Dict String (SerializedSmtProof Text))
  collect_proofs t [] proofs = ok proofs
  collect_proofs t (did ∷ rest) proofs =
      proof c t did >>= λ p. collect_proofs t rest (set did p proofs)

-- `this.smtProofs` is the map that the call returns. `nonce_of` are the random nonces that the call
-- draws, one for each participant; `canonical_bytes` is canonicalize with the UTF-8 encoder.
module _ {Text : Type 0} (c : Crypto Text) (canonical_bytes : Json → Bytes)
    (nonce_of : String → Bytes) where
  -- The slot of a participant: with its update, or without one.
  abbrev pub slot : Cohort → String → TreeEntry
  slot k did = record {
    did = did;
    nonce = nonce_of did;
    signed_update = elim (get did k.pending_updates) [
      | none ↦ none
      | some signed_update ↦ some (canonical_bytes signed_update)
    ];
  }

  unfoldable pub build_smt_tree :
      Cohort → Result CohortError (Cohort × Dict String (SerializedSmtProof Text))
  unfolding lift_tree
  build_smt_tree k =
      let (t, outcome) = add_entries c new_tree (map (slot k) k.participants) in
      do
        guard (has_all_responses k) incomplete_responses
        lift_tree outcome
        root ← lift_tree (root_hash (finalize c t))
        proofs ← lift_tree (collect_proofs c (finalize c t) k.participants [])
        ok (record k { signal_bytes = some root }, proofs)
