-- ===== src/Resolver/Updates/Duplicates.antt =====
-- Re-announced updates: `confirmDuplicate` against the history that the loop keeps.
use did_btcr2_js.Resolver.Types.{BlockMetadata, SignedUpdate, late_publishing, Env}
use did_btcr2_js.Prelude.{
  ◌↔◌, Bool, List, Option, [], ap, arith, false, get_elem?, leb, length, refl, some, true, ℕ, ◌++◌,
  ◌+◌, ◌-◌, ◌∷◌, ◌≡◌, ◌≢◌, ◌≤◌,
}
use did_btcr2_js.Resolver.Apply.{confirm_duplicate, unsigned_deep, unsigned_shallow}
use did_btcr2_js.Resolver.Updates.{Progress, advance, continues, throws, touch, update_turn}
use did_btcr2_js.Common.Json.Deletion.{NotNested, delete_keys-omit}
use did_btcr2_js.Prelude.Result.{err, guard, ok}
use did_btcr2_js.Common.Json.{Fields, Json, obj}
use did_btcr2_js.Smt.Hash.{Bytes}

-- The history holds one entry for each version after the first.
abbrev pub IsAligned : Progress → Type 0
IsAligned p = length p.history + 1 ≡ p.version

get_elem?-append :
    (h more : List Bytes) (x : Bytes) → get_elem? ((h ++ x ∷ []) ++ more) (length h) ≡ some x
get_elem?-append [] more x = refl
get_elem?-append (y ∷ h) more x = get_elem?-append h more x

module _ (env : Env) where
  confirm_duplicate_of :
      (u : SignedUpdate) (h : List Bytes) (b : Bytes) (t : Bool)
      → 2 ≤ u.target_version_id
      → get_elem? h (u.target_version_id - 2) ≡ some b
      → env.crypto.equal_bytes b (env.hash_json (unsigned_shallow u)) ≡ t
      → confirm_duplicate env u h ≡ guard t late_publishing
  unfolding confirm_duplicate
  confirm_duplicate_of u h b t low there e =
      let le : leb 2 u.target_version_id ≡ true = ground arith in rw (le, there, e)

  advance_entry :
      (p : Progress) (u : SignedUpdate) (d : Json) (more : List Bytes)
      → IsAligned p
      → u.target_version_id ≡ p.version + 1
      → get_elem? ((advance env p u d).history ++ more) (u.target_version_id - 2)
        ≡ some (env.hash_json (unsigned_deep u))
  unfolding advance
  advance_entry p u d more al next =
      let place : u.target_version_id - 2 ≡ length p.history = omega arith in
      rw place (get_elem?-append p.history more (env.hash_json (unsigned_deep u)))

  duplicate_turn :
      (limit target : Option ℕ) (q : Progress) (u : SignedUpdate) (b : BlockMetadata)
      → u.target_version_id ≤ q.version
      → confirm_duplicate env u q.history ≡ ok tt
      → update_turn env limit target q (u, b) ≡ continues (touch env q b)
  unfolding update_turn
  duplicate_turn limit target q u b le e =
      let past : leb u.target_version_id q.version ≡ true = ground arith in
      rw past (rw (e, update_turn))

  duplicate_turn_rejected :
      (limit target : Option ℕ) (q : Progress) (u : SignedUpdate) (b : BlockMetadata)
      → u.target_version_id ≤ q.version
      → confirm_duplicate env u q.history ≡ err late_publishing
      → update_turn env limit target q (u, b) ≡ throws q.history late_publishing
  unfolding update_turn
  duplicate_turn_rejected limit target q u b le e =
      let past : leb u.target_version_id q.version ≡ true = ground arith in
      rw past (rw (e, update_turn))

-- A later state of the loop: update u was applied at p, and the history went on from there.
pub record IsLater (env : Env) (p q : Progress) (u : SignedUpdate) (d : Json) : Type 0 where
  pub aligned : IsAligned p
  pub started_at : 1 ≤ p.version
  pub next : u.target_version_id ≡ p.version + 1
  pub version_le : u.target_version_id ≤ q.version
  pub more : List Bytes
  pub kept : q.history ≡ (advance env p u d).history ++ more

-- An update that was applied and is announced again is confirmed and skipped, whatever the limits and
-- its block: the loop goes on with the same document, version and history; only `updated` and
-- `confirmations` are those of the new block. The condition is that no field of the update but its own
-- `proof` holds a key `proof` inside.
pub duplicate_skipped :
    (env : Env)
    → ((a b : Bytes) → (env.crypto.equal_bytes a b ≡ true) ↔ (a ≡ b))
    → (limit target : Option ℕ) (p q : Progress) (u : SignedUpdate) (d : Json) (fs : Fields)
      (b : BlockMetadata)
    → IsLater env p q u d
    → u.json ≡ obj fs
    → NotNested "proof" fs
    → update_turn env limit target q (u, b) ≡ continues (touch env q b)
duplicate_skipped env equal_iff limit target p q u d fs b l shape flat =
    let same : unsigned_deep u ≡ unsigned_shallow u = rw shape (delete_keys-omit "proof" fs flat) in
    let entry = advance_entry env p u d l.more l.aligned l.next in
    let equal =
      (equal_iff (env.hash_json (unsigned_deep u)) (env.hash_json (unsigned_shallow u))).1
        (ap env.hash_json same) in
    duplicate_turn env limit target q u b l.version_le
      (confirm_duplicate_of env u q.history _ true (omega arith) (rw l.kept entry) equal)

-- But the history was hashed without `proof` at any depth and the check removes it at the top only: if
-- the two hashes differ, the same update announced again ends the resolution with a late-publishing
-- error.
pub duplicate_rejected :
    (env : Env)
    → ((a b : Bytes) → (env.crypto.equal_bytes a b ≡ true) ↔ (a ≡ b))
    → (limit target : Option ℕ) (p q : Progress) (u : SignedUpdate) (d : Json) (b : BlockMetadata)
    → IsLater env p q u d
    → env.hash_json (unsigned_deep u) ≢ env.hash_json (unsigned_shallow u)
    → update_turn env limit target q (u, b) ≡ throws q.history late_publishing
duplicate_rejected env equal_iff limit target p q u d b l differ =
    let entry = advance_entry env p u d l.more l.aligned l.next in
    duplicate_turn_rejected env limit target q u b l.version_le
      (confirm_duplicate_of env u q.history _ false (omega arith) (rw l.kept entry) unequal)
  where
    unequal :
        env.crypto.equal_bytes
          (env.hash_json (unsigned_deep u))
          (env.hash_json (unsigned_shallow u))
        ≡ false
    unequal =
        ground
          (arith, equal_iff (env.hash_json (unsigned_deep u)) (env.hash_json (unsigned_shallow u)))
