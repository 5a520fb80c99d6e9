-- ===== src/Resolver/Updates/Chain.antt =====
-- The chain of updates that a call of `Resolver.updates` applies.
use did_btcr2_js.Resolver.Types.{BlockMetadata, ResolveError, invalid_did_update, Env}
use did_btcr2_js.Resolver.Updates.{
  start_response, sort_updates, time_limit, update_loop, updates, version_limit, advance, reached,
  touch, update_turn, Announced, Progress, Turn, continues, next_document, over, returns, settle,
  throws,
}
use did_btcr2_js.Prelude.{
  All, All-self, In, ap, length, length-append, subst, ◌≤◌, Bool-cases, arith, inl, inr, leb,
  nat_beq, nat_beq_iff, refl, List, Option, [], false, some, true, ℕ, ◌*◌, ◌++◌, ◌+◌, ◌∷◌, ◌≡◌,
}
use did_btcr2_js.Resolver.Apply.{confirm_duplicate, apply_update, decode_hash, unsigned_deep}
use did_btcr2_js.Prelude.Result.{>>=-eq-ok, Result, err, guard, guard-eq-ok, ok}
use did_btcr2_js.Common.Json.{get_field, is_true, Json}
use did_btcr2_js.Smt.Hash.{Bytes}
use Prim.Native.String.{String}
use did_btcr2_js.Resolver.Updates.Sorting.{sort_updates-All}

module _ (env : Env) where
  -- One link: the update names the next version, its source hash is that of the document, its block
  -- is not past the time limit, and `applyUpdate` accepts it.
  pub record Applies (limit : Option ℕ) (d : Json) (v : ℕ) (a : Announced) (d' : Json)
      : Type 0 where
    pub next : a.0.target_version_id ≡ v + 1
    pub in_time : over env limit (a.1.time * 1000) ≡ false
    pub source :
        (h : Bytes) × (env.crypto.base64url_decode a.0.source_hash ≡ some h)
        × (env.crypto.equal_bytes h (env.hash_json d) ≡ true)
    pub accepted : apply_update env d a.0 ≡ ok d'

  -- The documents of the versions v to v', with the history of their unsigned updates: each link is one
  -- of the known updates, with the block that it is known to stand in.
  pub data Chain (Known : Announced → Type 0) (limit : Option ℕ) (d : Json) (v : ℕ) (h : List Bytes)
      : Json → ℕ → List Bytes → Type 0 where
    start : Chain Known limit d v h d v h
    link :
        {d' d'' : Json} {v' v'' : ℕ} {h' h'' : List Bytes}
        → Chain Known limit d v h d' v' h'
        → (a : Announced) → Known a
        → Applies limit d' v' a d''
        → v'' ≡ v' + 1
        → h'' ≡ h' ++ env.hash_json (unsigned_deep a.0) ∷ []
        → Chain Known limit d v h d'' v'' h''

  pub trans :
      {Known : Announced → Type 0} {limit : Option ℕ} {d : Json} {v : ℕ} {h : List Bytes}
      {d' : Json} {v' : ℕ} {h' : List Bytes} {d'' : Json} {v'' : ℕ} {h'' : List Bytes}
      → Chain Known limit d v h d' v' h'
      → Chain Known limit d' v' h' d'' v'' h''
      → Chain Known limit d v h d'' v'' h''
  trans c start = c
  trans c (link r a known x n e) = link (trans c r) a known x n e

  pub Chain-map :
      {Known Other : Announced → Type 0} {limit : Option ℕ} {d : Json} {v : ℕ} {h : List Bytes}
      {d' : Json} {v' : ℕ} {h' : List Bytes}
      → ((a : Announced) → Known a → Other a)
      → Chain Known limit d v h d' v' h'
      → Chain Other limit d v h d' v' h'
  Chain-map f start = start
  Chain-map f (link c a known x n e) = link (Chain-map f c) a (f a known) x n e

  abbrev pub ChainTo : (Announced → Type 0) → Option ℕ → Progress → Progress → Type 0
  ChainTo Known limit p q =
      Chain Known limit p.response.did_document p.version p.history q.response.did_document
        q.version q.history

  -- The document, version and history that a turn leaves.
  abbrev pub Reaches : (Announced → Type 0) → Option ℕ → Progress → Turn → Type 0
  Reaches Known limit p (continues q) = ChainTo Known limit p q
  Reaches Known limit p (returns q) = ChainTo Known limit p q
  Reaches Known limit p (throws h e) = Unit

  settle-Reaches :
      (Known : Announced → Type 0) (limit target : Option ℕ) (p q : Progress)
      → ChainTo Known limit p q
      → Reaches Known limit p (settle env target q)
  unfolding settle
  settle-Reaches Known limit target p q c = elim (Bool-cases (reached env target q.version)) [
    | inl e ↦ rw e c
    | inr e ↦ rw e (elim (Bool-cases (is_true (get_field "deactivated" q.response.did_document))) [
      | inl f ↦ rw f c
      | inr f ↦ rw f c
    ])
  ]

  next_document-Applies :
      (limit : Option ℕ) (p : Progress) (a : Announced) (d' : Json)
      → next_document env p a.0 ≡ ok d'
      → a.0.target_version_id ≡ p.version + 1
      → over env limit (a.1.time * 1000) ≡ false
      → Applies limit p.response.did_document p.version a d'
  unfolding next_document decode_hash
  next_document-Applies limit p a d' h n t =
      let (s, e, r) = >>=-eq-ok (decode_hash env a.0.source_hash) _ h in
      let (u, g, accepted) =
        >>=-eq-ok
          (guard (env.crypto.equal_bytes s (env.hash_json p.response.did_document))
            invalid_did_update)
          _ r in
      record {
        next = n;
        in_time = t;
        source = (s, ground (arith), guard-eq-ok _ invalid_did_update g);
        accepted = accepted;
      }

  touch-doc :
      (p : Progress) (b : BlockMetadata)
      → (touch env p b).response.did_document ≡ p.response.did_document
  unfolding touch
  touch-doc p b = refl

  update_turn-Reaches :
      (Known : Announced → Type 0) (limit target : Option ℕ) (p : Progress) (a : Announced)
      → Known a
      → Reaches Known limit p (update_turn env limit target p a)
  unfolding update_turn touch
  update_turn-Reaches Known limit target p (u, b) known =
      elim (Bool-cases (leb u.target_version_id p.version)) [
        | inl e ↦ rw e (dup (confirm_duplicate env u p.history))
        | inr e ↦ rw e (elim (Bool-cases (over env limit (b.time * 1000))) [
          | inl f ↦ rw f start
          | inr f ↦ rw f (elim (Bool-cases (nat_beq u.target_version_id (p.version + 1))) [
            | inl g ↦
                rw g (next f ((nat_beq_iff _ _).0 g) (next_document env (touch env p b) u) refl)
            | inr g ↦ rw g tt
          ])
        ])
      ]
    where
      dup :
          (r : Result ResolveError (Unit {0}))
          → Reaches Known limit p (elim r as (λ _. Turn) [
            | ok _ ↦ continues (touch env p b)
            | err e ↦ throws p.history e
          ])
      dup (ok t) = start
      dup (err e) = tt

      next :
          over env limit (b.time * 1000) ≡ false
          → u.target_version_id ≡ p.version + 1
          → (r : Result ResolveError Json) → next_document env (touch env p b) u ≡ r
          → Reaches Known limit p (elim r as (λ _. Turn) [
            | ok document ↦ settle env target (advance env (touch env p b) u document)
            | err e ↦ throws p.history e
          ])
      next t n (ok d') h = settle-Reaches Known limit target p _ (
          unfold advance in
          link start (u, b) known (next_document-Applies limit (touch env p b) (u, b) d' h n t) refl
            refl)
      next t n (err e) h = tt

  update_loop-Reaches :
      (Known : Announced → Type 0) (limit target : Option ℕ) (p : Progress) (xs : List Announced)
      → All Known xs
      → Reaches Known limit p (update_loop env limit target p xs)
  unfolding update_loop
  update_loop-Reaches Known limit target p [] k = start
  update_loop-Reaches Known limit target p (a ∷ rest) k =
      go (update_turn env limit target p a) (update_turn-Reaches Known limit target p a k.0)
        (λ q. update_loop-Reaches Known limit target q rest k.1)
    where
      go :
          (t : Turn)
          → Reaches Known limit p t
          → ((q : Progress) → Reaches Known limit q (update_loop env limit target q rest))
          → Reaches Known limit p (elim t as (λ _. Turn) [
            | continues q ↦ update_loop env limit target q rest
            | returns q ↦ returns q
            | throws history e ↦ throws history e
          ])
      go (continues q) c ih = after (update_loop env limit target q rest) c (ih q)
        where
          after :
              (t : Turn)
              → ChainTo Known limit p q
              → Reaches Known limit q t
              → Reaches Known limit p t
          after (continues r) c k = trans c k
          after (returns r) c k = trans c k
          after (throws h e) c k = tt
      go (returns q) c ih = c
      go (throws h e) c ih = tt

abbrev pub started : Env → Json → ℕ → List Bytes → Progress
started env d v h = record { version = v; history = h; response = start_response env d v }

pub updates-Reaches :
    (env : Env) (Known : Announced → Type 0) (d : Json) (unsorted : List Announced)
    (vt vi : Option String) (v : ℕ) (h : List Bytes)
    → All Known unsorted
    → Reaches env Known (time_limit env vt) (started env d v h) (updates env d unsorted vt vi v h)
unfolding updates
updates-Reaches env Known d unsorted vt vi v h k =
    update_loop-Reaches env Known (time_limit env vt) (version_limit env vi) _
      (sort_updates unsorted) (sort_updates-All Known unsorted k)

-- When `Resolver.updates` returns, the document it returns is reached from the given one by a chain of
-- the given updates, each with the block that was given with it: each names the next version, has the hash of the document before it as its source hash, was
-- mined no later than `versionTime`, and was accepted by `applyUpdate`; the version and the history
-- that are left are those of the chain.
pub updates-Chain :
    (env : Env) (d : Json) (unsorted : List Announced) (vt vi : Option String) (v : ℕ)
    (h : List Bytes) (q : Progress)
    → updates env d unsorted vt vi v h ≡ returns q
    → Chain env
        (λ a. In a unsorted)
        (time_limit env vt)
        d
        v
        h
        q.response.did_document
        q.version
        q.history
unfolding start_response
updates-Chain env d unsorted vt vi v h q e =
    subst (Reaches env (λ a. In a unsorted) (time_limit env vt) (started env d v h)) e
      (updates-Reaches env (λ a. In a unsorted) d unsorted vt vi v h (All-self unsorted))

-- A chain counts its versions: the history grows by one entry for each.
pub Chain-length :
    {env : Env} {Known : Announced → Type 0} {limit : Option ℕ} {d : Json} {v : ℕ} {h : List Bytes}
    {d' : Json} {v' : ℕ} {h' : List Bytes}
    → Chain env Known limit d v h d' v' h'
    → (v ≤ v') × (length h' + v ≡ length h + v')
Chain-length start = (omega arith, omega arith)
Chain-length (link {h' = g} c a known x n e) =
    let (le, same) = Chain-length c in
    (omega arith, omega (arith, ap length e, length-append g (_ ∷ [])))
