-- ===== src/Aggregation/Participant/Signal.antt =====
-- The data that a participant validates beside the signal that comes with it.
use did_btcr2_js.Prelude.{
  from_option, is_some, ◌||◌, ◌∙◌, ap, arith, beq_refl, subst, sym, Bool, false, not, refl, nat_eq,
  some, string_eq, true, ◌≡◌, none,
}
use did_btcr2_js.Aggregation.Participant.{
  non_included, ParticipantError, Client, MemberState, PendingValidation, awaiting_validation,
  is_at, update_submitted,
}
use did_btcr2_js.Prelude.Result.{Result, ok}
use did_btcr2_js.Prelude.Step.{call-ok, when-true, when_some-eq}
use did_btcr2_js.Prelude.Dict.{Dict, get}
use Prim.Native.String.{String}
use did_btcr2_js.Aggregation.Strategy.{
  cas_strategy, get_beacon_strategy, ViewResult, cas_view, same_text, built_in_strategies,
}
use did_btcr2_js.Aggregation.Messages.{truthy, Body, Message}
use did_btcr2_js.Aggregation.Participant.Messages.{
  store_validation_request, expected_hash_of, view_as, has_declined, view_of,
  handle_distribute_aggregated_data,
}
use did_btcr2_js.Common.Json.{Json}

-- A distribution of CAS data, with whatever text for the signal.
abbrev pub with_signal : String → Message → Message
with_signal signal m = record m { body = record body { signal_bytes_hex = some signal } }
  where
    open m use {body}

module _ (client : Client) (id : String) (m : Message) (s : MemberState) (update : Json)
    (announcement : Dict String String) where
  abbrev own_view : ViewResult
  own_view = record { matches = true; cas_announcement = some announcement; smt_proof = none }

  own_view_eq :
      (body : Body)
      → body.cas_announcement ≡ some announcement
      → get client.did announcement ≡ some (client.canonical.canonical_hash update)
      → cas_view (view_as client body false (some update)) body.cas_announcement ≡ own_view
  unfolding cas_view view_as expected_hash_of same_text
  own_view_eq body cas there =
      subst (λ o. cas_view (view_as client body false (some update)) o ≡ own_view) (sym cas)
        (rw (there, beq_refl (client.canonical.canonical_hash update)) refl)

  view_eq :
      (signal : String)
      → s.included ≡ some true
      → s.submitted_update ≡ some update
      → view_of client (with_signal signal m) s
        ≡ view_as client (with_signal signal m).body false (some update)
  unfolding view_of
  view_eq signal inc sub =
      let told : has_declined s ≡ false = ap (λ o. elim o [ none ↦ false | some b ↦ not b ]) inc in
      subst
        (λ b.
          view_as client (with_signal signal m).body b s.submitted_update
          ≡ view_as client (with_signal signal m).body false (some update))
        (sym told) (ap (view_as client (with_signal signal m).body false) sub)

  cas_found :
      client.strategies ≡ built_in_strategies client.canonical
      → get_beacon_strategy "CASBeacon" client.strategies ≡ some (cas_strategy client.canonical)
  unfolding get_beacon_strategy built_in_strategies get
  cas_found built_in = ap (get "CASBeacon") built_in

  -- The state that the handler leaves.
  abbrev stored : String → Result ParticipantError (Unit {0}) × MemberState
  stored signal =
      store_validation_request id "CASBeacon" (with_signal signal m)
        (view_of client (with_signal signal m) s) own_view s

  distributed :
      (signal : String)
      → client.strategies ≡ built_in_strategies client.canonical
      → is_at s.phase update_submitted ≡ true
      → s.included ≡ some true
      → s.submitted_update ≡ some update
      → m.body.beacon_type ≡ some "CASBeacon"
      → m.body.cas_announcement ≡ some announcement
      → get client.did announcement ≡ some (client.canonical.canonical_hash update)
      → handle_distribute_aggregated_data client id (with_signal signal m) s ≡ stored signal
  unfolding handle_distribute_aggregated_data view_of view_as
  distributed signal built_in at inc sub kind cas there =
      when-true _ s (ap (λ b. b || is_at s.phase non_included) at)
      ∙ when-true _ s (submitted (has_declined s) (ap is_some sub))
      ∙ when_some-eq _ s "CASBeacon" (ap truthy kind)
      ∙ when_some-eq _ s (cas_strategy client.canonical) (cas_found built_in)
      ∙ call-ok _ _ s own_view (
          unfold cas_strategy in
          ap ok (
            ap (λ v. cas_view v m.body.cas_announcement) (view_eq signal inc sub)
            ∙ own_view_eq (with_signal signal m).body cas there))
    where
      submitted : (b : Bool) {c : Bool} → c ≡ true → (b || c) ≡ true
      submitted b e = ground (arith, e)

  -- The participant takes the data for its own whatever signal comes with it: an announcement that holds
  -- the hash of the submitted update under its DID is stored as matching, together with any text at
  -- all as the signal, although the signal ought to be the hash of the announcement.
  pub any_signal_matches :
      (signal : String)
      → client.strategies ≡ built_in_strategies client.canonical
      → is_at s.phase update_submitted ≡ true
      → s.included ≡ some true
      → s.submitted_update ≡ some update
      → m.body.beacon_type ≡ some "CASBeacon"
      → m.body.cas_announcement ≡ some announcement
      → get client.did announcement ≡ some (client.canonical.canonical_hash update)
      → (v : PendingValidation) × (s' : MemberState) × (handle_distribute_aggregated_data client id
            (with_signal signal m)
            s
          ≡ (ok tt, s'))
        × (s'.phase ≡ awaiting_validation)
        × (s'.validation ≡ some v)
        × (v.matches ≡ true)
        × (v.signal_bytes_hex ≡ signal)
  unfolding store_validation_request
  any_signal_matches signal built_in at inc sub kind cas there = (
    record {
      cohort_id = id;
      beacon_type = "CASBeacon";
      signal_bytes_hex = signal;
      cas_announcement = some announcement;
      smt_proof = none;
      expected_hash = from_option "" (view_of client (with_signal signal m) s).expected_hash;
      matches = true;
      included = (view_of client (with_signal signal m) s).included;
    },
    (stored signal).1,
    distributed signal built_in at inc sub kind cas there,
    refl,
    refl,
    refl,
    refl,
  )
