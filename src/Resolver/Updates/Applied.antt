-- ===== src/Resolver/Updates/Applied.antt =====
-- The turn of the loop for an update that can be applied.
use did_btcr2_js.Resolver.Updates.{
  Announced, Progress, advance, next_document, settle, touch, update_turn,
}
use did_btcr2_js.Prelude.{Option, arith, false, leb, nat_beq, true, ℕ, ◌+◌, ◌≡◌}
use did_btcr2_js.Common.Json.{Json}
use did_btcr2_js.Prelude.Result.{ok}
use did_btcr2_js.Resolver.Apply.{decode_hash}
use did_btcr2_js.Resolver.Updates.Chain.{Applies}
use did_btcr2_js.Resolver.Types.{Env}

module _ (env : Env) (limit target : Option ℕ) where
  next_document_of_Applies :
      (p : Progress) (a : Announced) (d' : Json)
      → Applies env limit p.response.did_document p.version a d'
      → next_document env p a.0 ≡ ok d'
  unfolding next_document decode_hash
  next_document_of_Applies p a d' x = rw (x.source.1, x.source.2) x.accepted

  -- An acceptable update is applied.
  pub update_turn_of_Applies :
      (p : Progress) (a : Announced) (d' : Json)
      → Applies env limit p.response.did_document p.version a d'
      → update_turn env limit target p a ≡ settle env target (advance env (touch env p a.1) a.0 d')
  unfolding update_turn
  update_turn_of_Applies p (u, b) d' x =
      let past : leb u.target_version_id p.version ≡ false = ground (arith, x.next) in
      let here : nat_beq u.target_version_id (p.version + 1) ≡ true = ground (arith, x.next) in
      let document = next_document_of_Applies (touch env p b) (u, b) d' touched in
      rw (past, x.in_time, here) (rw (document, update_turn))
    where
      touched :
          Applies env limit (touch env p b).response.did_document (touch env p b).version (u, b) d'
      touched = unfold touch in x
