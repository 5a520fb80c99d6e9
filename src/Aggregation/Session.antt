-- ===== src/Aggregation/Session.antt =====
-- packages/aggregation/src/core/signing-session.ts: `BeaconSigningSession`. MuSig2 and the sighash of a
-- transaction come from @scure/btc-signer and are the record `Musig`.
pub mod Operations
pub mod Invariant
pub mod Placed
pub mod Consistent
use did_btcr2_js.Aggregation.Cohort.{Cohort, index_of_participant}
use did_btcr2_js.Prelude.Result.{Result, err, guard, ok, or_throw, ◌>>=◌, ◌>>◌}
use did_btcr2_js.Prelude.{
  Bool, List, Option, [], false, if◌then◌else◌, length, map, nat_beq, nat_eq, none, not, replicate,
  some, string_eq, suc, true, zero, ℕ, ◌&&◌, ◌∷◌,
}
use did_btcr2_js.Prelude.Dict.{Dict, has, includes, set}
use did_btcr2_js.Smt.Hash.{Bytes}
use Prim.Native.String.{String}

pub data Phase : Type 0 where
  awaiting_nonce_contributions nonce_contributions_received awaiting_partial_signatures : Phase
  partial_signatures_received complete failed : Phase

pub record Session : Type 0 where
  pub id : String
  pub cohort : Cohort
  pub pending_tx : Bytes
  pub prev_out_scripts : List Bytes
  pub prev_out_values : List ℕ
  pub nonce_contributions : Dict String Bytes
  pub aggregated_nonce : Option Bytes
  pub partial_signatures : Dict String Bytes
  pub signature : Option Bytes
  pub phase : Phase
  pub secret_nonce : Option Bytes

-- What `new musig2.Session(aggregatedNonce, cohortKeys, sigHash, [tapTweak], [true])` is made of.
pub record Context : Type 0 where
  pub nonce : Bytes
  pub keys : List Bytes
  pub message : Bytes
  pub tweak : Bytes

-- `none` stands for a throw; `opens` says whether the constructor of `Session` returns.
pub record Musig : Type 0 where
  pub nonce_aggregate : List Bytes → Option Bytes
  pub opens : Context → Bool
  pub partial_sig_verify : Context → Bytes → List (Option Bytes) → ℕ → Option Bool
  pub partial_sig_agg : Context → List Bytes → Option Bytes
  pub sign : Context → Bytes → Bytes → Option Bytes
  pub nonce_gen : Bytes → Bytes → List Bytes → Option (Bytes × Bytes)
  pub preimage_witness : Bytes → List Bytes → List ℕ → Bytes

pub data SessionError : Type 0 where
  sighash_error invalid_phase unknown_participant invalid_nonce_length duplicate_nonce :
      SessionError
  duplicate_partial_sig missing_aggregated_nonce unknown_participant_key bad_partial_sig :
      SessionError
  missing_secret_nonce musig_error : SessionError

-- The members of the enumeration, numbered.
unfoldable pub phase_number : Phase → ℕ
phase_number awaiting_nonce_contributions = 0
phase_number nonce_contributions_received = 1
phase_number awaiting_partial_signatures = 2
phase_number partial_signatures_received = 3
phase_number complete = 4
phase_number failed = 5

-- `===` on phases
abbrev pub same_phase : Phase → Phase → Bool
same_phase p q = nat_beq (phase_number p) (phase_number q)

-- `id` is the given one, or a random UUID.
unfoldable pub new_session : String → Cohort → Bytes → List Bytes → List ℕ → Session
new_session id cohort tx scripts values = record {
  id = id;
  cohort = cohort;
  pending_tx = tx;
  prev_out_scripts = scripts;
  prev_out_values = values;
  nonce_contributions = [];
  aggregated_nonce = none;
  partial_signatures = [];
  signature = none;
  phase = awaiting_nonce_contributions;
  secret_nonce = none;
}

-- The end of `addNonceContribution`: store the nonce, and advance when all are there.
abbrev pub store_nonce : Session → String → Bytes → Session
store_nonce s did nonce = record s {
  nonce_contributions = set did nonce nonces;
  phase =
      if nat_beq (length (set did nonce nonces)) (length cohort.participants)
      then nonce_contributions_received
      else phase;
}
  where
    open s use {nonce_contributions as nonces, cohort, phase}

pub add_nonce_contribution : Session → String → Bytes → Result SessionError Session
add_nonce_contribution s did nonce = do
  guard (same_phase s.phase awaiting_nonce_contributions) invalid_phase
  guard (includes did s.cohort.participants) unknown_participant
  guard (nat_beq (length nonce) 66) invalid_nonce_length
  guard (not (has did s.nonce_contributions)) duplicate_nonce
  ok (store_nonce s did nonce)

-- The end of `addPartialSignature`.
abbrev pub store_partial : Session → String → Bytes → Session
store_partial s did partial_sig = record s {
  partial_signatures = set did partial_sig partials;
  phase =
      if nat_beq (length (set did partial_sig partials)) (length cohort.participants)
      then partial_signatures_received
      else phase;
}
  where
    open s use {partial_signatures as partials, cohort, phase}

pub add_partial_signature : Session → String → Bytes → Result SessionError Session
add_partial_signature s did partial_sig = do
  guard (same_phase s.phase awaiting_partial_signatures) invalid_phase
  guard (includes did s.cohort.participants) unknown_participant
  guard (not (has did s.partial_signatures)) duplicate_partial_sig
  ok (store_partial s did partial_sig)

-- `array[index] = value` for an index in range.
unfoldable pub set_at : ℕ → Bytes → List (Option Bytes) → List (Option Bytes)
set_at i v [] = []
set_at zero v (x ∷ xs) = some v ∷ xs
set_at (suc i) v (x ∷ xs) = x ∷ set_at i v xs

-- The public nonces at the places of their signers.
unfoldable pub place_nonces :
    Cohort → Dict String Bytes → List (Option Bytes) → Result SessionError (List (Option Bytes))
place_nonces k [] placed = ok placed
place_nonces k ((did, nonce) ∷ rest) placed =
    or_throw (index_of_participant k did) unknown_participant_key >>= λ i.
    place_nonces k rest (set_at i nonce placed)

pub clear_secrets : Session → Session
clear_secrets s = record s { secret_nonce = none }

abbrev pub context_of : Session → Bytes → Bytes → Context
context_of s nonce message = record {
  nonce = nonce;
  keys = s.cohort.cohort_keys;
  message = message;
  tweak = s.cohort.tap_tweak;
}

module _ (musig : Musig) where
  unfoldable pub sig_hash : Session → Result SessionError Bytes
  sig_hash s = do
    guard
        (not (nat_beq (length s.prev_out_scripts) 0) && not (nat_beq (length s.prev_out_values) 0))
        sighash_error
    ok (musig.preimage_witness s.pending_tx s.prev_out_scripts s.prev_out_values)

  pub generate_aggregated_nonce : Session → Result SessionError (Session × Bytes)
  generate_aggregated_nonce s = do
    guard (same_phase s.phase nonce_contributions_received) invalid_phase
    nonce ← or_throw (musig.nonce_aggregate (map (λ x. x.1) s.nonce_contributions)) musig_error
    ok (record s { aggregated_nonce = some nonce; phase = awaiting_partial_signatures }, nonce)

  -- `new musig2.Session(...)` of this session.
  unfoldable pub open_session : Session → Bytes → Result SessionError Context
  open_session s nonce = do
    message ← sig_hash s
    guard (musig.opens (context_of s nonce message)) musig_error
    ok (context_of s nonce message)

  -- One turn of the loop that verifies the partial signatures, and the loop.
  unfoldable pub verify_partial :
      Context → Cohort → List (Option Bytes) → String → Bytes → Result SessionError (Unit {0})
  verify_partial ctx k nonces did partial_sig = do
    i ← or_throw (index_of_participant k did) unknown_participant_key
    valid ← or_throw (musig.partial_sig_verify ctx partial_sig nonces i) musig_error
    guard valid bad_partial_sig

  unfoldable pub verify_partials :
      Context → Cohort → List (Option Bytes) → Dict String Bytes → Result SessionError (Unit {0})
  verify_partials ctx k nonces [] = ok tt
  verify_partials ctx k nonces ((did, partial_sig) ∷ rest) =
      verify_partial ctx k nonces did partial_sig >>= λ _. verify_partials ctx k nonces rest

  unfoldable pub generate_final_signature : Session → Result SessionError (Session × Bytes)
  generate_final_signature s = do
    guard (same_phase s.phase partial_signatures_received) invalid_phase
    nonce ← or_throw s.aggregated_nonce missing_aggregated_nonce
    ctx ← open_session s nonce
    nonces ←
        place_nonces s.cohort s.nonce_contributions (replicate (length s.cohort.cohort_keys) none)
    verify_partials ctx s.cohort nonces s.partial_signatures
    signature ←
        or_throw (musig.partial_sig_agg ctx (map (λ x. x.1) s.partial_signatures)) musig_error
    ok (record s { signature = some signature; phase = complete }, signature)

  -- `nonce_gen` is keyAggregate, keyAggExport and nonceGen in one.
  unfoldable pub generate_nonce_contribution :
      Session → Bytes → Bytes → Result SessionError (Session × Bytes)
  generate_nonce_contribution s public_key secret_key = do
    nonces ← or_throw (musig.nonce_gen public_key secret_key s.cohort.cohort_keys) musig_error
    ok (record s { secret_nonce = some nonces.0 }, nonces.1)

  -- The `try ... finally`: the nonce is cleared whether `sign` returns or throws.
  unfoldable pub sign_once : Session → Context → Bytes → Bytes → Session × Result SessionError Bytes
  sign_once s ctx secret_nonce secret_key =
      (clear_secrets s, or_throw (musig.sign ctx secret_nonce secret_key) musig_error)

  unfoldable pub sign_in :
      Session → Bytes → Bytes → Result SessionError Context → Session × Result SessionError Bytes
  sign_in s secret_nonce secret_key (err e) = (s, err e)
  sign_in s secret_nonce secret_key (ok ctx) = sign_once s ctx secret_nonce secret_key

  -- `generatePartialSignature`, given the aggregated and the secret nonce.
  unfoldable pub sign_with :
      Session → Bytes → Option Bytes → Option Bytes → Session × Result SessionError Bytes
  sign_with s secret_key none secret = (s, err missing_aggregated_nonce)
  sign_with s secret_key (some nonce) none = (s, err missing_secret_nonce)
  sign_with s secret_key (some nonce) (some secret_nonce) =
      sign_in s secret_nonce secret_key (open_session s nonce)

  unfoldable pub generate_partial_signature : Session → Bytes → Session × Result SessionError Bytes
  generate_partial_signature s secret_key = sign_with s secret_key s.aggregated_nonce s.secret_nonce

pub is_complete : Session → Bool
is_complete s = same_phase s.phase complete

pub is_failed : Session → Bool
is_failed s = same_phase s.phase failed
