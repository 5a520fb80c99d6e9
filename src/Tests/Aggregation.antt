-- ===== src/Tests/Aggregation.antt =====
-- The theorems on cohorts and signing sessions at work on a cohort with two participants.
use did_btcr2_js.Aggregation.Session.Invariant.{IsConsistent, new_session-IsConsistent}
use did_btcr2_js.Prelude.Dict.{Dict, get, has, includes, set}
use did_btcr2_js.Prelude.{
  arith, All, Bool, [], false, nat_eq, none, refl, some, string_eq, true, ◌∷◌, ◌≡◌,
}
use did_btcr2_js.Aggregation.Cohort.{
  build_smt_tree, slot, Cohort, add_non_inclusion, add_update, add_validation, announce,
  build_cas_announcement, has_all_responses,
}
use did_btcr2_js.Common.Json.{Json, null}
use did_btcr2_js.Common.Number.{natural}
use did_btcr2_js.Aggregation.Session.{
  Musig, Session, add_nonce_contribution, add_partial_signature, complete,
  generate_aggregated_nonce, generate_final_signature, generate_nonce_contribution,
  generate_partial_signature, missing_secret_nonce, new_session, open_session,
  partial_signatures_received, sig_hash, sign_in, sign_once, sign_with,
}
use did_btcr2_js.Prelude.Result.{Holds, err, ok}
use did_btcr2_js.Aggregation.Session.Operations.{
  generate_partial_signature_once, operations-IsConsistent,
}
use did_btcr2_js.Aggregation.Cohort.Responses.{
  add_update-add_non_inclusion, announced, build_cas_announcement-get, operations-IsAnswered,
}
use did_btcr2_js.Aggregation.Cohort.Answers.{IsExclusive, has_responded, IsAnswered}
use did_btcr2_js.Smt.Hash.{block_hash, fold_bytes, hash_to_big_int, is_valid_hash, Bytes}
use Prim.Native.String.{String}
use did_btcr2_js.Tests.Toy.{length-sum_hash, sum_hash, sum_hash-IsBytes, toy, toy_laws}
use did_btcr2_js.Smt.Proof.{SerializedSmtProof, did_to_index}
use mathlib.Core.List.{flatten}
use did_btcr2_js.Aggregation.Cohort.SmtTree.{IsServed, build_smt_tree-IsServed}
use did_btcr2_js.Prelude.Utf8.{encode_utf8}
use did_btcr2_js.Smt.Tree.Fresh.{DistinctIndexes}

abbrev cohort : Cohort
cohort = record {
  id = "c";
  service_did = "did:s";
  min_participants = natural 2;
  network = "regtest";
  beacon_type = "CASBeacon";
  participants = "did:a" ∷ "did:b" ∷ [];
  participant_keys = ("did:a", 1 ∷ []) ∷ ("did:b", 2 ∷ []) ∷ [];
  cohort_keys = (1 ∷ []) ∷ (2 ∷ []) ∷ [];
  tap_tweak = [];
  internal_key = [];
  tap_merkle_root = [];
  recovery_key = none;
  recovery_sequence = none;
  funding_model = "operator-funded";
  fallback_threshold = none;
  beacon_address = "";
  pending_updates = ("did:a", null) ∷ [];
  non_included = "did:b" ∷ [];
  cas_announcement = none;
  signal_bytes = none;
  validation_acks = [];
  validation_rejections = [];
}

cohort-IsAnswered : IsAnswered cohort
cohort-IsAnswered = record {
  update_members = (refl, tt);
  declined_members = (refl, tt);
  ack_members = tt;
  rejection_members = tt;
  distinct = unfold get in (refl, tt);
}

cohort-IsExclusive : IsExclusive cohort
cohort-IsExclusive = record { declined_once = (refl, tt); exclusive = (unfold get in refl, tt) }

operations-IsAnswered_example :
    ((did : String) (u : Json) → Holds IsAnswered (add_update cohort did u))
    × ((did : String) → Holds IsAnswered (add_non_inclusion cohort did))
    × ((did : String) (approved : Bool) → Holds IsAnswered (add_validation cohort did approved))
operations-IsAnswered_example = operations-IsAnswered cohort cohort-IsAnswered

abbrev announced_cohort : Cohort
announced_cohort = record cohort {
  cas_announcement = some (("did:a", "hash") ∷ []);
  signal_bytes = some (1 ∷ []);
}

announcement_test :
    build_cas_announcement (λ u. "hash") (λ a. 1 ∷ []) cohort
    ≡ ok (announced_cohort, ("did:a", "hash") ∷ [])
unfolding build_cas_announcement has_all_responses announce set
announcement_test = refl

build_cas_announcement-get_example :
    All (λ did. has_responded did cohort ≡ true) cohort.participants
    × ((did : String)
        → get did (("did:a", "hash") ∷ [])
          ≡ announced (λ u. "hash") (get did cohort.pending_updates) none)
    × (announced_cohort.signal_bytes ≡ some (1 ∷ []))
build_cas_announcement-get_example =
    build_cas_announcement-get (λ u. "hash") (λ a. 1 ∷ []) cohort announced_cohort
      (("did:a", "hash") ∷ []) cohort-IsAnswered cohort-IsExclusive announcement_test

free_test : has "did:b" cohort.pending_updates ≡ false
unfolding get
free_test = refl

add_update-add_non_inclusion_example :
    (k' : Cohort) × (k'' : Cohort) × (add_non_inclusion cohort "did:b" ≡ ok k')
    × (add_update k' "did:b" null ≡ ok k'')
    × (includes "did:b" k''.non_included ≡ true)
    × (get "did:b" k''.pending_updates ≡ some null)
add_update-add_non_inclusion_example =
    add_update-add_non_inclusion cohort "did:b" null refl free_test

abbrev musig : Musig
musig = record {
  nonce_aggregate = λ nonces. some [];
  opens = λ ctx. true;
  partial_sig_verify = λ ctx p nonces i. some true;
  partial_sig_agg = λ ctx ps. some (7 ∷ []);
  sign = λ ctx secret key. some (8 ∷ []);
  nonce_gen = λ public secret keys. some ([], []);
  preimage_witness = λ tx scripts values. [];
}

abbrev session : Session
session = new_session "s" cohort [] ([] ∷ []) (1 ∷ [])

operations-IsConsistent_example :
    ((did : String) (nonce : Bytes) → Holds IsConsistent (add_nonce_contribution session did nonce))
    × ((did : String) (p : Bytes) → Holds IsConsistent (add_partial_signature session did p))
    × Holds (λ r. IsConsistent r.0) (generate_aggregated_nonce musig session)
    × Holds (λ r. IsConsistent r.0) (generate_final_signature musig session)
    × ((public_key secret_key : Bytes)
        → Holds
            (λ r. IsConsistent r.0)
            (generate_nonce_contribution musig session public_key secret_key))
    × ((secret_key : Bytes) → IsConsistent (generate_partial_signature musig session secret_key).0)
operations-IsConsistent_example =
    operations-IsConsistent musig session
      (new_session-IsConsistent "s" cohort [] ([] ∷ []) (1 ∷ []))

-- All partial signatures are there.
abbrev signed : Session
signed = record {
  id = "s";
  cohort = cohort;
  pending_tx = [];
  prev_out_scripts = [] ∷ [];
  prev_out_values = 1 ∷ [];
  nonce_contributions = ("did:b", 5 ∷ []) ∷ ("did:a", 6 ∷ []) ∷ [];
  aggregated_nonce = some [];
  partial_signatures = ("did:a", 3 ∷ []) ∷ ("did:b", 4 ∷ []) ∷ [];
  signature = none;
  phase = partial_signatures_received;
  secret_nonce = some (9 ∷ []);
}

abbrev finished : Session
finished = record signed { signature = some (7 ∷ []); phase = complete }

sign_test : (generate_partial_signature musig signed []).1 ≡ ok (8 ∷ [])
unfolding generate_partial_signature sign_with sign_in sign_once open_session sig_hash
sign_test = refl

generate_partial_signature_once_example :
    (generate_partial_signature musig (generate_partial_signature musig signed []).0 (1 ∷ [])).1
    ≡ err missing_secret_nonce
generate_partial_signature_once_example =
    generate_partial_signature_once musig signed [] (1 ∷ []) (8 ∷ []) sign_test

abbrev nonce_of : String → Bytes
nonce_of did = sum_hash []

abbrev canonical_bytes : Json → Bytes
canonical_bytes u = 1 ∷ []

responses_test : has_all_responses cohort ≡ true
unfolding has_all_responses
responses_test = refl

distinct_test : DistinctIndexes toy cohort.participants
unfolding did_to_index hash_to_big_int fold_bytes block_hash encode_utf8 is_valid_hash flatten
distinct_test = ((λ e. ground (arith, e), tt), (tt, tt))

build_smt_tree-IsServed_example :
    (k' : Cohort) × (proofs : Dict String (SerializedSmtProof Bytes)) × (build_smt_tree toy
        canonical_bytes nonce_of cohort
      ≡ ok (k', proofs))
    × All (IsServed toy (slot toy canonical_bytes nonce_of cohort) proofs) cohort.participants
build_smt_tree-IsServed_example =
    build_smt_tree-IsServed toy toy_laws canonical_bytes nonce_of
      (λ did. (sum_hash-IsBytes [], length-sum_hash [])) cohort responses_test distinct_test
