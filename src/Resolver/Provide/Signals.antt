-- ===== src/Resolver/Provide/Signals.antt =====
-- What an on-chain signal commits to, for the three beacons.
use did_btcr2_js.Prelude.{
  Bool-cases, Option, if◌then◌else◌, inl, inr, nat_eq, none, refl, some, string_eq, sym, ◌==◌, ◌≡◌,
}
use did_btcr2_js.Resolver.Types.{
  BeaconService, BeaconSignal, CasAnnouncement, Env, ResolveError, SidecarData, SignedUpdate,
  need_cas_announcement, need_signed_update, need_smt_proof,
}
use did_btcr2_js.Resolver.Beacons.{
  Contribution, beacon_signal, cas_signal, check_smt_proof, found, lift_smt, lift_smt-ok,
  lookup_update, needed, singleton_signal, skipped, smt_signal,
}
use did_btcr2_js.Resolver.Provide.{hex_hash}
use did_btcr2_js.Prelude.Dict.{All-get, get}
use did_btcr2_js.Resolver.Provide.Commitments.{IsCommitted, IsIdOf}
use did_btcr2_js.Smt.Hash.{Bytes, base64url_to_hash}
use did_btcr2_js.Smt.Proof.{SerializedSmtProof}
use did_btcr2_js.Prelude.Result.{Holds, Holds->>=, Result, ok, ◌>>=◌}
use did_btcr2_js.Resolver.Apply.{decode_hash}
use did_btcr2_js.Common.Text.{first_part}
use Prim.Native.String.{String}
use did_btcr2_js.Smt.Tree.{proof}
use did_btcr2_js.Resolver.Provide.Verified.{IsVerified, check_smt_proof-IsVerified}

-- How a signal commits to an update: by its hash, by an announcement of that hash for the DID of the
-- beacon, or by a verified proof for that DID with the update's hash.
pub data IsAnnounced (env : Env) (service : BeaconService) (signal : BeaconSignal)
    (u : SignedUpdate) : Type 0 where
  by_hash : hex_hash env u.json ≡ signal.signal_bytes → IsAnnounced env service signal u
  by_announcement :
      (a : CasAnnouncement) (text : String)
      → hex_hash env a.json ≡ signal.signal_bytes
      → get (first_part b'#' service.id) a.entries ≡ some text
      → IsIdOf env (hex_hash env u.json) text
      → IsAnnounced env service signal u
  by_proof :
      (p : SerializedSmtProof String) (text : String) (b : Bytes)
      → IsIdOf env signal.signal_bytes p.id
      → IsVerified env service p b
      → p.update_id ≡ some text
      → base64url_to_hash env.crypto text ≡ ok b
      → hex_hash env u.json ≡ env.encode_hex b
      → IsAnnounced env service signal u

abbrev pub Found : (SignedUpdate → Type 0) → Contribution → Type 0
Found P skipped = Unit
Found P (found u) = P u
Found P (needed n) = Unit

module _ (env : Env) (sidecar : SidecarData) (c : IsCommitted env sidecar) (service : BeaconService)
    (signal : BeaconSignal) where
  lookup_update-Found :
      (hash : String)
      → Found (λ u. hex_hash env u.json ≡ hash) (lookup_update sidecar service.id hash)
  unfolding lookup_update
  lookup_update-Found hash = go (get hash sidecar.update_map) refl
    where
      go :
          (x : Option SignedUpdate)
          → get hash sidecar.update_map ≡ x
          → Found
              (λ u. hex_hash env u.json ≡ hash)
              (elim x as (λ _. Contribution) [
                | none ↦ needed (need_signed_update hash service.id)
                | some u ↦ found u
              ])
      go none e = tt
      go (some u) e =
          All-get (λ x. hex_hash env x.1.json ≡ x.0) hash u sidecar.update_map c.update_keys e

  Found-map :
      (P Q : SignedUpdate → Type 0) (x : Contribution)
      → ((u : SignedUpdate) → P u → Q u)
      → Found P x
      → Found Q x
  Found-map P Q skipped f h = tt
  Found-map P Q (found u) f h = f u h
  Found-map P Q (needed n) f h = tt

  abbrev Announces : Contribution → Type 0
  Announces = Found (IsAnnounced env service signal)

  singleton_signal-Announces : Announces (singleton_signal sidecar service signal)
  unfolding singleton_signal
  singleton_signal-Announces =
      Found-map _ (IsAnnounced env service signal) _ (λ u h. by_hash h)
        (lookup_update-Found signal.signal_bytes)

  entry_signal-Announces :
      (a : CasAnnouncement) (x : Option String)
      → hex_hash env a.json ≡ signal.signal_bytes
      → get (first_part b'#' service.id) a.entries ≡ x
      → Holds Announces (elim x as (λ _. Result ResolveError Contribution) [
        | none ↦ ok skipped
        | some text ↦
            if text == ""
            then ok skipped
            else decode_hash env text >>= λ bytes.
                ok (lookup_update sidecar service.id (env.encode_hex bytes))
      ])
  entry_signal-Announces a none k e = tt
  entry_signal-Announces a (some text) k e = elim (Bool-cases (text == "")) [
    | inl empty ↦ rw empty tt
    | inr other ↦ rw other (
        Holds->>= Announces (decode_hash env text) _ (λ bytes d.
          Found-map _ (IsAnnounced env service signal) _
            (λ u h. by_announcement a text k e (bytes, d, sym h))
            (lookup_update-Found (env.encode_hex bytes))))
  ]

  cas_signal-Announces : Holds Announces (cas_signal env sidecar service signal)
  unfolding cas_signal
  cas_signal-Announces = go (get signal.signal_bytes sidecar.cas_map) refl
    where
      go :
          (x : Option CasAnnouncement)
          → get signal.signal_bytes sidecar.cas_map ≡ x
          → Holds Announces (elim x as (λ _. Result ResolveError Contribution) [
            | none ↦ ok (needed (need_cas_announcement signal.signal_bytes service.id))
            | some announcement ↦ elim (get (first_part b'#' service.id) announcement.entries) [
              | none ↦ ok skipped
              | some text ↦
                  if text == ""
                  then ok skipped
                  else decode_hash env text >>= λ bytes.
                      ok (lookup_update sidecar service.id (env.encode_hex bytes))
            ]
          ])
      go none e = tt
      go (some a) e =
          entry_signal-Announces a (get (first_part b'#' service.id) a.entries)
            (All-get (λ x. hex_hash env x.1.json ≡ x.0) signal.signal_bytes a sidecar.cas_map
              c.cas_keys e)
            refl

  proof_signal-Announces :
      (p : SerializedSmtProof String) (x : Option String)
      → IsIdOf env signal.signal_bytes p.id
      → check_smt_proof env service p ≡ ok tt
      → p.update_id ≡ x
      → Holds Announces (elim x as (λ _. Result ResolveError Contribution) [
        | none ↦ ok skipped
        | some update_id ↦ lift_smt env (base64url_to_hash env.crypto update_id) >>= λ hash.
            ok (lookup_update sidecar service.id (env.encode_hex hash))
      ])
  proof_signal-Announces p none k v e = tt
  proof_signal-Announces p (some text) k v e =
      Holds->>= Announces (lift_smt env (base64url_to_hash env.crypto text)) _ (λ hash d.
        Found-map _ (IsAnnounced env service signal) _
          (λ u h.
            let decoded_id = lift_smt-ok env _ hash d in
            by_proof p text hash k
              (check_smt_proof-IsVerified env service p text hash e decoded_id v) e decoded_id h)
          (lookup_update-Found (env.encode_hex hash)))

  smt_signal-Announces : Holds Announces (smt_signal env sidecar service signal)
  unfolding smt_signal
  smt_signal-Announces = go (get signal.signal_bytes sidecar.smt_map) refl
    where
      go :
          (x : Option (SerializedSmtProof String))
          → get signal.signal_bytes sidecar.smt_map ≡ x
          → Holds Announces (elim x as (λ _. Result ResolveError Contribution) [
            | none ↦ ok (needed (need_smt_proof signal.signal_bytes service.id))
            | some proof ↦ check_smt_proof env service proof >>= λ checked. elim proof.update_id [
              | none ↦ ok skipped
              | some update_id ↦ lift_smt env (base64url_to_hash env.crypto update_id) >>= λ hash.
                  ok (lookup_update sidecar service.id (env.encode_hex hash))
            ]
          ])
      go none e = tt
      go (some p) e = Holds->>= Announces (check_smt_proof env service p) _ (λ t v.
          proof_signal-Announces p p.update_id
            (All-get (λ x. IsIdOf env x.0 x.1.id) signal.signal_bytes p sidecar.smt_map c.smt_keys
              e)
            v refl)

  -- With sidecar data that stands under its hashes, the update that a beacon of any type takes from a
  -- signal is one that the signal commits to: its hash is the signal's, or the hash that the announced
  -- CAS map holds for the beacon's DID, or the update id of an SMT proof with the signal's root, which
  -- `verifySerializedProof` accepts at the index of that DID for the leaf of its nonce and update id.
  pub beacon_signal-Announces :
      Holds (Found (IsAnnounced env service signal)) (beacon_signal env sidecar service signal)
  unfolding beacon_signal
  beacon_signal-Announces = elim (Bool-cases (service.type_name == "SingletonBeacon")) [
    | inl e ↦ rw e singleton_signal-Announces
    | inr e ↦ rw e (elim (Bool-cases (service.type_name == "CASBeacon")) [
      | inl f ↦ rw f cas_signal-Announces
      | inr f ↦ rw f (elim (Bool-cases (service.type_name == "SMTBeacon")) [
        | inl g ↦ rw g smt_signal-Announces
        | inr g ↦ rw g tt
      ])
    ])
  ]
