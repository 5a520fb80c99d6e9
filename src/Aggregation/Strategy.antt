-- ===== src/Aggregation/Strategy.antt =====
-- packages/aggregation/src/core/beacon-strategy.ts: the strategies of the two beacon types, and the map
-- in which they are registered. `cohort.smtProofs` is passed beside the cohort.
use did_btcr2_js.Prelude.{
  Bool, Option, [], false, if◌then◌else◌, nat_eq, not, some, string_eq, true, ℕ, ◌==◌, ◌∷◌, none,
}
use did_btcr2_js.Prelude.Result.{Result, ok, ◌>>=◌}
use did_btcr2_js.Smt.Hash.{Bytes, Crypto, Error, base64url_to_hash, block_hash, hash_to_base64url}
use did_btcr2_js.Aggregation.Cohort.{Cohort, CohortError, build_cas_announcement, build_smt_tree}
use did_btcr2_js.Smt.Proof.{SerializedSmtProof, did_to_index, verify_serialized_proof}
use did_btcr2_js.Prelude.Dict.{Dict, get, has, set}
use Prim.Native.String.{String}
use did_btcr2_js.Common.Json.{Json}
use did_btcr2_js.Aggregation.Messages.{Body}
use did_btcr2_js.Smt.Tree.{proof}

pub record ViewResult : Type 0 where
  pub matches : Bool
  pub cas_announcement : Option (Dict String String)
  pub smt_proof : Option (SerializedSmtProof String)

pub record Payload : Type 0 where
  pub cas_announcement : Option (Dict String String)
  pub smt_proof : Option (SerializedSmtProof String)

-- What `validateParticipantView` is given.
pub record View : Type 0 where
  pub participant_did : String
  pub included : Bool
  pub submitted_update : Option Json
  pub expected_hash : Option String
  pub body : Body

abbrev pub Proofs : Type 0
Proofs = Dict String (SerializedSmtProof String)

-- `AggregateBeaconStrategy`
pub record Strategy : Type 0 where
  pub build_aggregated_data : Cohort → Proofs → Result CohortError (Cohort × Proofs)
  pub get_distribute_payload : Cohort → Proofs → String → Payload
  pub validate_participant_view : View → Result Error ViewResult

-- `canonical_hash` is canonicalHash, `canonical_bytes` canonicalize with the UTF-8 encoder,
-- `canonical_length` the length of the text that canonicalize returns, `hash_announcement` the hash of
-- a canonicalized announcement; `nonce_of` are the random nonces.
pub record Canonical : Type 0 where
  pub crypto : Crypto String
  pub canonical_hash : Json → String
  pub canonical_bytes : Json → Bytes
  pub canonical_length : Json → ℕ
  pub hash_announcement : Dict String String → Bytes
  pub nonce_of : String → Bytes

-- `a === b` for texts that may be undefined.
unfoldable pub same_text : Option String → Option String → Bool
same_text none none = true
same_text none (some b) = false
same_text (some a) none = false
same_text (some a) (some b) = a == b

unfoldable pub cas_view : View → Option (Dict String String) → ViewResult
cas_view v none = record { matches = false; cas_announcement = none; smt_proof = none }
cas_view v (some announcement) = record {
  matches =
      if v.included
      then same_text (get v.participant_did announcement) v.expected_hash
      else not (has v.participant_did announcement);
  cas_announcement = some announcement;
  smt_proof = none;
}

abbrev pub smt_result : Bool → SerializedSmtProof String → ViewResult
smt_result matches proof = record {
  matches = matches;
  cas_announcement = none;
  smt_proof = some proof;
}

module _ (e : Canonical) where
  -- The slot of a decliner: a nonce, and no update.
  unfoldable pub declined_view :
      ℕ → SerializedSmtProof String → Option String → Option String → Result Error ViewResult
  declined_view index proof none update = ok (smt_result false proof)
  declined_view index proof (some nonce) (some update) = ok (smt_result false proof)
  declined_view index proof (some nonce) none = do
    nonce_hash ← base64url_to_hash e.crypto nonce
    matches ←
        verify_serialized_proof e.crypto proof index
          (block_hash e.crypto (block_hash e.crypto (nonce_hash ∷ []) ∷ []))
    ok (smt_result matches proof)

  -- Once the update's hash is known to be the expected one.
  unfoldable pub included_leaf :
      ℕ → SerializedSmtProof String → String → String → Result Error ViewResult
  included_leaf index proof nonce update_id = do
    nonce_hash ← base64url_to_hash e.crypto nonce
    update_hash ← base64url_to_hash e.crypto update_id
    matches ←
        verify_serialized_proof e.crypto proof index
          (block_hash e.crypto (block_hash e.crypto (nonce_hash ∷ []) ∷ update_hash ∷ []))
    ok (smt_result matches proof)

  unfoldable pub included_view :
      ℕ
      → SerializedSmtProof String
      → Option String
      → Option String
      → Option Json
      → Result Error ViewResult
  included_view index proof none update_id update = ok (smt_result false proof)
  included_view index proof (some nonce) none update = ok (smt_result false proof)
  included_view index proof (some nonce) (some update_id) none = ok (smt_result false proof)
  included_view index proof (some nonce) (some update_id) (some update) = do
    expected ← hash_to_base64url e.crypto (block_hash e.crypto (e.canonical_bytes update ∷ []))
    if update_id == expected
        then included_leaf index proof nonce update_id
        else ok (smt_result false proof)

  unfoldable pub smt_view : View → ℕ → Option (SerializedSmtProof String) → Result Error ViewResult
  smt_view v index none = ok (record { matches = false; cas_announcement = none; smt_proof = none })
  smt_view v index (some proof) =
      if v.included
      then included_view index proof proof.nonce proof.update_id v.submitted_update
      else declined_view index proof proof.nonce proof.update_id

  unfoldable pub cas_strategy : Strategy
  cas_strategy = record {
    build_aggregated_data = λ k proofs.
        build_cas_announcement e.canonical_hash e.hash_announcement k >>= λ r. ok (r.0, proofs);
    get_distribute_payload =
        λ k proofs did. record { cas_announcement = k.cas_announcement; smt_proof = none };
    validate_participant_view = λ v. ok (cas_view v v.body.cas_announcement);
  }

  unfoldable pub smt_strategy : Strategy
  smt_strategy = record {
    build_aggregated_data = λ k proofs. build_smt_tree e.crypto e.canonical_bytes e.nonce_of k;
    get_distribute_payload =
        λ k proofs did. record { cas_announcement = none; smt_proof = get did proofs };
    validate_participant_view =
        λ v. did_to_index e.crypto v.participant_did >>= λ index. smt_view v index v.body.smt_proof;
  }

  unfoldable pub built_in_strategies : Dict String Strategy
  built_in_strategies = ("CASBeacon", cas_strategy) ∷ ("SMTBeacon", smt_strategy) ∷ []

pub register_beacon_strategy : String → Strategy → Dict String Strategy → Dict String Strategy
register_beacon_strategy type_name strategy strategies = set type_name strategy strategies

unfoldable pub get_beacon_strategy : String → Dict String Strategy → Option Strategy
get_beacon_strategy type_name strategies = get type_name strategies
