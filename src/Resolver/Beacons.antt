-- ===== src/Resolver/Beacons.antt =====
-- `processSignals` of the three beacons (packages/method/src/core/beacon/singleton-beacon.ts,
-- cas-beacon.ts, smt-beacon.ts) and `BeaconFactory.establish`. `hashToHex` of packages/smt writes the
-- same text as `encode_hex`.
use did_btcr2_js.Resolver.Types.{
  BeaconService, BeaconSignal, BlockMetadata, DataNeed, ResolveError, SidecarData, SignedUpdate,
  invalid_beacon, invalid_smt_proof, need_cas_announcement, need_signed_update, need_smt_proof, smt,
  Env,
}
use did_btcr2_js.Prelude.{
  arith, ◌≡◌, List, Option, [], if◌then◌else◌, nat_eq, none, some, string_eq, ◌==◌, ◌∷◌,
}
use did_btcr2_js.Smt.Hash.{Bytes, Error, base64url_to_hash, block_hash}
use did_btcr2_js.Prelude.Result.{Result, err, guard, ok, or_throw, ◌>>=◌, ◌>>◌}
use did_btcr2_js.Resolver.Apply.{decode_hash}
use did_btcr2_js.Smt.Proof.{SerializedSmtProof, did_to_index, verify_serialized_proof}
use did_btcr2_js.Prelude.Dict.{get}
use did_btcr2_js.Resolver.Updates.{Announced}
use Prim.Native.String.{String}
use did_btcr2_js.Common.Text.{first_part}
use did_btcr2_js.Smt.Tree.{proof}

-- updates and needs, in the order of the signals
pub record BeaconProcessResult : Type 0 where
  pub updates : List Announced
  pub needs : List DataNeed

abbrev no_result : BeaconProcessResult
no_result = record { updates = []; needs = [] }

-- What one signal adds: nothing, an update, or a need.
pub data Contribution : Type 0 where
  skipped : Contribution
  found : SignedUpdate → Contribution
  needed : DataNeed → Contribution

abbrev pub with_contribution :
    Contribution → BlockMetadata → BeaconProcessResult → BeaconProcessResult
with_contribution skipped b r = r
with_contribution (found u) b r = record r { updates = (u, b) ∷ rest }
  where
    open r use {updates as rest}
with_contribution (needed n) b r = record r { needs = n ∷ rest }
  where
    open r use {needs as rest}

-- The rest of the two aggregate beacons: the update of a hash, if the sidecar has it.
unfoldable pub lookup_update : SidecarData → String → String → Contribution
lookup_update sidecar service_id hash = elim (get hash sidecar.update_map) [
  | none ↦ needed (need_signed_update hash service_id)
  | some u ↦ found u
]

unfoldable pub singleton_signal : SidecarData → BeaconService → BeaconSignal → Contribution
unfolding lookup_update
singleton_signal sidecar service signal = lookup_update sidecar service.id signal.signal_bytes

module _ (env : Env) where
  unfoldable pub cas_signal :
      SidecarData → BeaconService → BeaconSignal → Result ResolveError Contribution
  unfolding lookup_update
  cas_signal sidecar service signal = elim (get signal.signal_bytes sidecar.cas_map) [
    | none ↦ ok (needed (need_cas_announcement signal.signal_bytes service.id))
    | some announcement ↦ elim (get (first_part b'#' service.id) announcement.entries) [
      | none ↦ ok skipped
      | some text ↦
          if text == ""
          then ok skipped
          else decode_hash env text >>= λ bytes.
              ok (lookup_update sidecar service.id (env.encode_hex bytes))
    ]
  ]

  pub lift_smt {ℓ} : {A : Type ℓ} → Result Error A → Result ResolveError A
  lift_smt (ok a) = ok a
  lift_smt (err e) = err (smt e)

  pub lift_smt-ok {ℓ} : {A : Type ℓ} (r : Result Error A) (a : A) → lift_smt r ≡ ok a → r ≡ ok a
  unfolding lift_smt
  lift_smt-ok (ok a) b h = ground (arith, h)
  lift_smt-ok (err e) b h = cc

  -- `candidateHash` of the SMT beacon, over the nonce's bytes.
  unfoldable pub candidate_hash : Bytes → Option String → Result Error Bytes
  candidate_hash nonce none = ok (block_hash env.crypto (block_hash env.crypto (nonce ∷ []) ∷ []))
  candidate_hash nonce (some update_id) = do
    update_hash ← base64url_to_hash env.crypto update_id
    ok (block_hash env.crypto (block_hash env.crypto (nonce ∷ []) ∷ update_hash ∷ []))

  -- The checks that an SMT proof has to pass for the beacon's DID.
  unfoldable pub check_smt_proof :
      BeaconService → SerializedSmtProof String → Result ResolveError (Unit {0})
  unfolding candidate_hash lift_smt
  check_smt_proof service proof = do
    nonce ← or_throw proof.nonce invalid_smt_proof
    index ← lift_smt (did_to_index env.crypto (first_part b'#' service.id))
    nonce_hash ← lift_smt (base64url_to_hash env.crypto nonce)
    candidate ← lift_smt (candidate_hash nonce_hash proof.update_id)
    valid ← lift_smt (verify_serialized_proof env.crypto proof index candidate)
    guard valid invalid_smt_proof

  unfoldable pub smt_signal :
      SidecarData → BeaconService → BeaconSignal → Result ResolveError Contribution
  unfolding lookup_update lift_smt
  smt_signal sidecar service signal = elim (get signal.signal_bytes sidecar.smt_map) [
    | none ↦ ok (needed (need_smt_proof signal.signal_bytes service.id))
    | some proof ↦ do
      check_smt_proof service proof
      elim proof.update_id [
        | none ↦ ok skipped
        | some update_id ↦ lift_smt (base64url_to_hash env.crypto update_id) >>= λ hash.
            ok (lookup_update sidecar service.id (env.encode_hex hash))
      ]
  ]

  -- `BeaconFactory.establish(service)` and one turn of `processSignals`.
  unfoldable pub beacon_signal :
      SidecarData → BeaconService → BeaconSignal → Result ResolveError Contribution
  beacon_signal sidecar service signal =
      if service.type_name == "SingletonBeacon"
      then ok (singleton_signal sidecar service signal)
      else if service.type_name == "CASBeacon"
      then cas_signal sidecar service signal
      else if service.type_name == "SMTBeacon"
      then smt_signal sidecar service signal
      else err invalid_beacon

  unfoldable pub process_signals :
      SidecarData → BeaconService → List BeaconSignal → Result ResolveError BeaconProcessResult
  process_signals sidecar service [] = ok no_result
  process_signals sidecar service (s ∷ rest) = do
    c ← beacon_signal sidecar service s
    r ← process_signals sidecar service rest
    ok (with_contribution c s.block_metadata r)
