-- ===== src/Aggregation/Service/Collection/Complete.antt =====
-- Once every member of a cohort has answered, the service has collected the round.
use did_btcr2_js.Prelude.{
  Bool, ◌||◌, All, All-map, All-zip, Bool-cases, List, [], ap, arith, false, inl, inr, length,
  nat_eq, refl, some, string_eq, subst, sym, true, ◌+◌, ◌<◌, ◌==◌, ◌∙◌, ◌∷◌, ◌≡◌,
}
use did_btcr2_js.Aggregation.Service.Collection.{
  IsResponse, Responded, receive_action-Responded, responded_state, responses,
}
use did_btcr2_js.Aggregation.Cohort.Answers.{has_responded}
use did_btcr2_js.Aggregation.Service.{
  collecting_updates, service_phase_number, CohortState, Host, Service, ServicePhase, cohort_set,
  is_in, run_found, updates_collected,
}
use did_btcr2_js.Aggregation.Service.Handlers.{
  is_collecting, phase_after_response, verify_method, verify_submitted_update, verify_with,
}
use did_btcr2_js.Prelude.Result.{ok}
use did_btcr2_js.Aggregation.Cohort.{Cohort, has_all_responses}
use did_btcr2_js.Prelude.Dict.{get, includes}
use did_btcr2_js.Aggregation.Messages.{Message, truthy}
use did_btcr2_js.Aggregation.Service.Receive.{receive, receive_action, receive_named}
use did_btcr2_js.Common.Number.{less}
use did_btcr2_js.Prelude.Sets.{get-set_self}
use Prim.Native.String.{String}
use did_btcr2_js.Aggregation.Cohort.Answers.{IsAnswered, IsExclusive}
use did_btcr2_js.Aggregation.Service.Collection.Senders.{
  DistinctSenders, IsFresh, members_covered, senders,
}

-- Messages that arrive one after the other.
pub deliver : Host → List Message → Service → Service
deliver host [] service = service
deliver host (m ∷ ms) service = deliver host ms (receive host m service).1

receive-get :
    (host : Host) (id : String) (m : Message) (x : Service) (s : CohortState)
    → truthy m.body.cohort_id ≡ some id
    → get id x ≡ some s
    → get id (receive host m x).1 ≡ some (receive_action host id m s).1
unfolding receive
receive-get host id m x s names at =
    subst (λ o. get id (receive_named host m x o).1 ≡ some (receive_action host id m s).1)
      (sym names)
      (unfold receive_named in
        subst
          (λ o.
            get id (run_found id (receive_action host id m) (ok tt) x o).1
            ≡ some (receive_action host id m s).1)
          (sym at) (unfold run_found in get-set_self id (receive_action host id m s).1 x))

later-IsResponse :
    (host : Host) (id : String) (s : CohortState) (k : Cohort) (d : String) (m : Message)
    → Responded d s.cohort k
    → IsResponse host id s m
    → IsResponse host id (responded_state s k) m
unfolding verify_submitted_update verify_method verify_with
later-IsResponse host id s k d m c r = record {
  speaks = r.speaks;
  names = r.names;
  member = subst (λ x. includes m.from x ≡ true) (sym c.members) r.member;
  answer = elim r.answer [
    | inl declines ↦ inl declines
    | inr (u, v) ↦ inr (
      u,
      record { submits = v.submits; carried = v.carried; small = v.small; verified = v.verified },
    )
  ];
}

later-IsFresh :
    (s : CohortState) (k : Cohort) (d : String) (n : Message)
    → Responded d s.cohort k
    → IsFresh s n
    → (d == n.from) ≡ false
    → IsFresh (responded_state s k) n
later-IsFresh s k d n c fresh differ = c.responded n.from ∙ rw (fresh, differ) refl

all_there :
    (p : ServicePhase) (k : Cohort)
    → responses k ≡ length k.participants
    → phase_after_response p k ≡ updates_collected
unfolding phase_after_response has_all_responses
all_there p k e = ground (arith, e)

still_open :
    (p : ServicePhase) (k : Cohort)
    → is_collecting p ≡ true
    → responses k < length k.participants
    → is_collecting (phase_after_response p k) ≡ true
unfolding phase_after_response has_all_responses
still_open p k h less =
    let missing : has_all_responses k ≡ false = ground (arith, less) in
    elim (Bool-cases (is_in p cohort_set)) [
      | inl first ↦
          let e : phase_after_response p k ≡ collecting_updates = rw (missing, first) refl in
          subst (λ q. is_collecting q ≡ true) (sym e) (unfold service_phase_number in refl)
      | inr later ↦
          let e : phase_after_response p k ≡ p = rw (missing, later) refl in
          subst (λ q. is_collecting q ≡ true) (sym e) h
    ]

-- What the service has collected when the messages have been delivered.
record IsCollected (host : Host) (id : String) (ms : List Message) (x : Service) (s : CohortState)
    : Type 0 where
  pub last : CohortState
  pub there : get id (deliver host ms x) ≡ some last
  pub moved : last.phase ≡ updates_collected
  pub counted : responses last.cohort ≡ length last.cohort.participants
  pub members : last.cohort.participants ≡ s.cohort.participants
  pub responded :
      (d : String)
      → has_responded d last.cohort ≡ (has_responded d s.cohort || includes d (senders ms))

or_assoc : (a b c : Bool) → ((a || b) || c) ≡ (a || (b || c))
or_assoc true b c = refl
or_assoc false b c = refl

deliver-IsCollected :
    (host : Host) (id : String) (m : Message) (ms : List Message) (x : Service) (s : CohortState)
    → get id x ≡ some s
    → is_collecting s.phase ≡ true
    → All (IsResponse host id s) (m ∷ ms)
    → All (IsFresh s) (m ∷ ms)
    → DistinctSenders (m ∷ ms)
    → responses s.cohort + length (m ∷ ms) ≡ length s.cohort.participants
    → IsCollected host id (m ∷ ms) x s
unfolding deliver
deliver-IsCollected host id m [] x s at open_ (r, _) (fresh, _) d count =
    let (k, c, e) = receive_action-Responded host id m s open_ r fresh in
    let full : responses k ≡ length k.participants =
      omega (arith, c.counted, ap length c.members, count) in
    record {
      last = responded_state s k;
      there = receive-get host id m x s r.names at ∙ ap some e;
      moved = all_there s.phase k full;
      counted = full;
      members = c.members;
      responded = λ did. c.responded did ∙ ground arith;
    }
deliver-IsCollected host id m (n ∷ ms) x s at open_ (r, rs) (fresh, fs) (d, ds) count =
    let (k, c, e) = receive_action-Responded host id m s open_ r fresh in
    let rest =
      deliver-IsCollected host id n ms (receive host m x).1 (responded_state s k)
        (receive-get host id m x s r.names at ∙ ap some e)
        (still_open s.phase k open_ (omega (arith, c.counted, ap length c.members, count)))
        (All-map (n ∷ ms) (λ y h. later-IsResponse host id s k m.from y c h) rs)
        (All-zip (n ∷ ms) (λ y h differ. later-IsFresh s k m.from y c h differ) fs d) ds
        (omega (arith, c.counted, ap length c.members, count)) in
    record {
      last = rest.last;
      there = rest.there;
      moved = rest.moved;
      counted = rest.counted;
      members = rest.members ∙ c.members;
      responded = λ did.
          rest.responded did
          ∙ ap (λ b. b || includes did (senders (n ∷ ms))) (c.responded did)
          ∙ or_assoc (has_responded did s.cohort) (m.from == did) (includes did (senders (n ∷ ms)));
    }

-- The answers so far are of members, one from each, and none has both submitted and declined. As many
-- members as are missing now answer in any order, each once, with a verified update or declining: then
-- every member has answered, and the cohort is in UpdatesCollected.
pub deliver-UpdatesCollected :
    (host : Host) (id : String) (m : Message) (ms : List Message) (x : Service) (s : CohortState)
    → get id x ≡ some s
    → is_collecting s.phase ≡ true
    → IsAnswered s.cohort
    → IsExclusive s.cohort
    → All (IsResponse host id s) (m ∷ ms)
    → All (IsFresh s) (m ∷ ms)
    → DistinctSenders (m ∷ ms)
    → responses s.cohort + length (m ∷ ms) ≡ length s.cohort.participants
    → (s' : CohortState) × (get id (deliver host (m ∷ ms) x) ≡ some s')
      × (s'.phase ≡ updates_collected)
      × (s'.cohort.participants ≡ s.cohort.participants)
      × (responses s'.cohort ≡ length s'.cohort.participants)
      × All (λ d. has_responded d s'.cohort ≡ true) s.cohort.participants
deliver-UpdatesCollected host id m ms x s at open_ a e r fresh d count =
    let h = deliver-IsCollected host id m ms x s at open_ r fresh d count in
    (
      h.last,
      h.there,
      h.moved,
      h.members,
      h.counted,
      All-map s.cohort.participants (λ did covered. h.responded did ∙ covered)
          (members_covered host id (m ∷ ms) s a e r fresh d count),
    )
