-- ===== src/Resolver/Updates.antt =====
-- `Resolver.updates` of packages/method/src/core/resolver.ts: the loop that applies the updates that
-- the beacon signals announced, in the order of their version and block.
-- The history is the resolver's own array, so what was pushed stays also when a later update throws.
pub mod Duplicates
pub mod Limits
pub mod Chain
pub mod Sorting
pub mod Applied
use did_btcr2_js.Resolver.Types.{
  BlockMetadata, ResolveError, Response, SignedUpdate, decimal, invalid_did_update, late_publishing,
  Env,
}
use did_btcr2_js.Prelude.{
  Bool, List, Option, [], false, from_option, if◌then◌else◌, leb, ltb, nat_beq, nat_eq, none, some,
  string_eq, true, ℕ, ◌*◌, ◌++◌, ◌+◌, ◌==◌, ◌∷◌,
}
use did_btcr2_js.Resolver.Apply.{apply_update, confirm_duplicate, decode_hash, unsigned_deep}
use did_btcr2_js.Smt.Hash.{Bytes}
use did_btcr2_js.Common.Json.{Json, get_field, is_true}
use did_btcr2_js.Prelude.Result.{Result, err, guard, ok, ◌>>=◌, ◌>>◌}
use Prim.Native.String.{String}

abbrev pub Announced : Type 0
Announced = SignedUpdate × BlockMetadata

-- The comparator: `targetVersionId` first, block height next.
pub sorts_before : Announced → Announced → Bool
sorts_before (u, b) (v, d) =
    if nat_beq u.target_version_id v.target_version_id
    then leb b.height d.height
    else leb u.target_version_id v.target_version_id

-- `Array.prototype.sort` is stable: an entry goes before those that are not smaller.
unfoldable pub insert_sorted : Announced → List Announced → List Announced
insert_sorted x [] = x ∷ []
insert_sorted x (y ∷ ys) = if sorts_before x y then x ∷ y ∷ ys else y ∷ insert_sorted x ys

unfoldable pub sort_updates : List Announced → List Announced
sort_updates [] = []
sort_updates (x ∷ xs) = insert_sorted x (sort_updates xs)

-- The loop's variables.
pub record Progress : Type 0 where
  pub version : ℕ
  pub history : List Bytes
  pub response : Response

pub data Turn : Type 0 where
  continues returns : Progress → Turn
  throws : List Bytes → ResolveError → Turn

module _ (env : Env) where
  -- The limits that the caller may set: `versionTime` in milliseconds, and `Number(versionId)`.
  unfoldable pub time_limit : Option String → Option ℕ
  time_limit none = none
  time_limit (some text) = if text == "" then none else some (from_option 0 (env.parse_date text))

  unfoldable pub version_limit : Option String → Option ℕ
  version_limit none = none
  version_limit (some text) = env.parse_number text

  abbrev pub over : Option ℕ → ℕ → Bool
  over none ms = false
  over (some limit) ms = ltb limit ms

  abbrev pub reached : Option ℕ → ℕ → Bool
  reached none version = false
  reached (some limit) version = leb limit version

  -- `response.metadata.updated` and `confirmations`, set before the update is looked at.
  unfoldable pub touch : Progress → BlockMetadata → Progress
  touch p b = record p {
    response = record response {
      updated = some (env.iso_text (b.time * 1000));
      confirmations = some b.confirmations;
    };
  }
    where
      open p use {response}

  -- The branch `targetVersionId === currentVersionId + 1`: check the source hash and apply.
  unfoldable pub next_document : Progress → SignedUpdate → Result ResolveError Json
  next_document p u = do
    source ← decode_hash env u.source_hash
    guard (env.crypto.equal_bytes source (env.hash_json p.response.did_document)) invalid_did_update
    apply_update env p.response.did_document u

  unfoldable pub advance : Progress → SignedUpdate → Json → Progress
  advance p u document = record {
    version = p.version + 1;
    history = p.history ++ env.hash_json (unsigned_deep u) ∷ [];
    response = record response { did_document = document; version_id = decimal (p.version + 1) };
  }
    where
      open p use {response}

  -- The two returns behind the increment.
  unfoldable pub settle : Option ℕ → Progress → Turn
  settle target p =
      if reached target p.version
      then returns p
      else if is_true (get_field "deactivated" p.response.did_document)
      then returns (record p { response = record response { deactivated = true } })
      else continues p
    where
      open p use {response}

  -- One turn of the loop.
  unfoldable pub update_turn : Option ℕ → Option ℕ → Progress → Announced → Turn
  update_turn limit target p (u, b) =
      let q = touch p b in
      if leb u.target_version_id p.version
      then elim (confirm_duplicate env u p.history) [
        | ok _ ↦ continues q
        | err e ↦ throws p.history e
      ]
      else if over limit (b.time * 1000)
      then returns q
      else if nat_beq u.target_version_id (p.version + 1)
      then elim (next_document q u) [
        | ok document ↦ settle target (advance q u document)
        | err e ↦ throws p.history e
      ]
      else throws p.history late_publishing

  unfoldable pub update_loop : Option ℕ → Option ℕ → Progress → List Announced → Turn
  update_loop limit target p [] = returns p
  update_loop limit target p (a ∷ rest) = elim (update_turn limit target p a) [
    | continues q ↦ update_loop limit target q rest
    | returns q ↦ returns q
    | throws history e ↦ throws history e
  ]

  unfoldable pub start_response : Json → ℕ → Response
  start_response document version = record {
    did_document = document;
    version_id = decimal version;
    confirmations = some 0;
    updated = some "";
    deactivated = is_true (get_field "deactivated" document);
  }

  -- `Resolver.updates(currentDocument, unsortedUpdates, versionTime, versionId, resolutionState)`
  unfoldable pub updates :
      Json → List Announced → Option String → Option String → ℕ → List Bytes → Turn
  updates document unsorted version_time version_id version history =
      update_loop (time_limit version_time) (version_limit version_id)
        (record {
          version = version;
          history = history;
          response = start_response document version;
        })
        (sort_updates unsorted)
