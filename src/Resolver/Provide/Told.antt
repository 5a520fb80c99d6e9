-- ===== src/Resolver/Provide/Told.antt =====
-- The updates that the signals of a beacon give, each with the signal it was taken from.
use did_btcr2_js.Prelude.Result.{Holds, Holds->>=, Holds-eq}
use did_btcr2_js.Resolver.Beacons.{
  found, needed, skipped, BeaconProcessResult, Contribution, beacon_signal, process_signals,
  with_contribution,
}
use did_btcr2_js.Resolver.Types.{BeaconService, BeaconSignal, Env, SidecarData}
use did_btcr2_js.Prelude.{All, List, [], refl, ◌∷◌, ◌≡◌}
use did_btcr2_js.Resolver.Provide.Signals.{Found, IsAnnounced, beacon_signal-Announces}
use did_btcr2_js.Resolver.Provide.Commitments.{IsCommitted}
use did_btcr2_js.Resolver.Updates.{Announced}

-- A known update: announced by a signal that the caller has given for its beacon, with the block of
-- that signal.
abbrev pub IsTold : Env → (BeaconService → BeaconSignal → Type 0) → Announced → Type 0
IsTold env Told a =
    (service : BeaconService) × (signal : BeaconSignal) × Told service signal
    × IsAnnounced env service signal a.0
    × (a.1 ≡ signal.block_metadata)

module _ (env : Env) (Told : BeaconService → BeaconSignal → Type 0) (sidecar : SidecarData)
    (c : IsCommitted env sidecar) (service : BeaconService) where
  with_contribution-IsTold :
      (x : Contribution) (signal : BeaconSignal) (r : BeaconProcessResult)
      → Told service signal
      → Found (IsAnnounced env service signal) x
      → All (IsTold env Told) r.updates
      → All (IsTold env Told) (with_contribution x signal.block_metadata r).updates
  with_contribution-IsTold skipped signal r told f k = k
  with_contribution-IsTold (found u) signal r told f k = ((service, signal, told, f, refl), k)
  with_contribution-IsTold (needed n) signal r told f k = k

  -- Every update that `processSignals` returns is known through one of its signals.
  pub process_signals-IsTold :
      (signals : List BeaconSignal)
      → All (Told service) signals
      → Holds (λ r. All (IsTold env Told) r.updates) (process_signals env sidecar service signals)
  unfolding process_signals
  process_signals-IsTold [] told = tt
  process_signals-IsTold (s ∷ rest) told =
      Holds->>= {B = BeaconProcessResult} (λ r. All (IsTold env Told) r.updates)
        (beacon_signal env sidecar service s) _
        (λ x e1.
          Holds->>= {B = BeaconProcessResult} (λ r. All (IsTold env Told) r.updates)
            (process_signals env sidecar service rest) _
            (λ r e2.
              with_contribution-IsTold x s r told.0
                (Holds-eq (Found (IsAnnounced env service s)) (beacon_signal env sidecar service s)
                  x (beacon_signal-Announces env sidecar c service s) e1)
                (Holds-eq (λ q. All (IsTold env Told) q.updates)
                  (process_signals env sidecar service rest) r (process_signals-IsTold rest told.1)
                  e2)))
