-- ===== src/Aggregation/Participant/Anchored.antt =====
-- What a participant signs: transactions that embed the signal of the data it was sent.
use did_btcr2_js.Prelude.{
  inr, Bool, Bool-cases, In, List, Option, [], ap, arith, both_true, false, inl, length, nat_beq,
  nat_eq, not, refl, some, string_eq, subst, sym, true, ◌==◌, ◌∷◌, ◌≡◌, none,
}
use did_btcr2_js.Aggregation.Participant.{
  Client, FallbackRequest, MemberAction, MemberState, ParticipantError, PendingValidation,
  SigningRequest,
}
use Prim.Native.String.{String}
use did_btcr2_js.Aggregation.Cohort.{same_bytes, same_bytes_iff}
use did_btcr2_js.Aggregation.Recovery.{ScriptItem, bytes, number, opcode}
use did_btcr2_js.Prelude.Result.{Holds-eq, Holds, Result, err, ok}
use did_btcr2_js.Aggregation.Messages.{Message, truthy}
use did_btcr2_js.Prelude.Step.{need_ends, need_some_ends}
use did_btcr2_js.Smt.Hash.{Bytes}
use did_btcr2_js.Aggregation.Participant.Actions.Signing.{
  anchored, approve_fallback_action, approve_nonce_action, embeds, embeds_expected, is_return_of,
  read_transaction, signal_of, tx_embeds_signal,
}

-- The transaction embeds the stored signal: one of its outputs is `RETURN` with these bytes.
pub record IsAnchored (client : Client) (s : MemberState) (tx_hex : String) : Type 0 where
  pub tx : Bytes
  pub read : read_transaction client tx_hex ≡ some tx
  pub stored : PendingValidation
  pub validated : s.validation ≡ some stored
  pub payload : Bytes
  pub decoded : client.hex_to_bytes stored.signal_bytes_hex ≡ some payload
  pub script : Bytes
  pub output : In (some script) (client.output_scripts tx)
  pub returns : client.decode_script script ≡ some (opcode "RETURN" ∷ bytes payload ∷ [])

is_return_of-eq :
    (expected : Bytes) (items : List ScriptItem)
    → is_return_of expected items ≡ true
    → items ≡ opcode "RETURN" ∷ bytes expected ∷ []
unfolding is_return_of
is_return_of-eq expected [] e = cc
is_return_of-eq expected (number n ∷ rest) e = cc
is_return_of-eq expected (bytes b ∷ rest) e = cc
is_return_of-eq expected (opcode op ∷ []) e = cc
is_return_of-eq expected (opcode op ∷ number n ∷ rest) e = cc
is_return_of-eq expected (opcode op ∷ opcode o ∷ rest) e = cc
is_return_of-eq expected (opcode op ∷ bytes payload ∷ x ∷ rest) e = cc
is_return_of-eq expected (opcode op ∷ bytes payload ∷ []) e =
    let (a, b) = both_true (op == "RETURN") (same_bytes payload expected) e in
    let p : op ≡ "RETURN" = (string_eq.beq_iff op "RETURN").0 a in
    let q : payload ≡ expected = (same_bytes_iff payload expected).0 b in cc

module _ (client : Client) (expected : Bytes) where
  abbrev Output : List (Option Bytes) → Type 0
  Output scripts =
      (script : Bytes) × (In (some script) scripts)
      × (client.decode_script script ≡ some (opcode "RETURN" ∷ bytes expected ∷ []))

  abbrev decodes_to : Option (List ScriptItem) → Bool
  decodes_to none = false
  decodes_to (some items) = is_return_of expected items

  decodes_to-eq :
      (o : Option (List ScriptItem))
      → decodes_to o ≡ true
      → o ≡ some (opcode "RETURN" ∷ bytes expected ∷ [])
  decodes_to-eq none e = cc
  decodes_to-eq (some items) e = ap some (is_return_of-eq expected items e)

  embeds-Output :
      (scripts : List (Option Bytes)) → embeds client expected scripts ≡ true → Output scripts
  unfolding embeds
  embeds-Output [] e = cc
  embeds-Output (none ∷ rest) e = let (script, at, d) = embeds-Output rest e in (script, inr at, d)
  embeds-Output (some script ∷ rest) e =
      elim (Bool-cases (decodes_to (client.decode_script script))) [
        | inl yes_ ↦ (script, inl refl, decodes_to-eq (client.decode_script script) yes_)
        | inr no_ ↦
            let e' : embeds client expected rest ≡ true = ground (arith, e, no_) in
            let (other_script, at, d) = embeds-Output rest e' in (other_script, inr at, d)
      ]

module _ (client : Client) (s : MemberState) where
  const-Holds : {A : Type 0} (X : Type 0) → X → (r : Result ParticipantError A) → Holds (λ _. X) r
  const-Holds X x (ok a) = x
  const-Holds X x (err e) = tt

  truthy-eq : (text t : String) → truthy (some text) ≡ some t → text ≡ t
  truthy-eq text t e = elim (Bool-cases (text == "")) [
    | inl empty ↦ cc (rw empty at e)
    | inr there ↦ let e' : some text ≡ some t = rw there at e in cc
  ]

  signal_of-eq :
      (o : Option PendingValidation) (text : String)
      → elim o [ none ↦ none | some v ↦ truthy (some v.signal_bytes_hex) ] ≡ some text
      → (v : PendingValidation) × (o ≡ some v) × (v.signal_bytes_hex ≡ text)
  signal_of-eq none text e = cc
  signal_of-eq (some v) text e = (v, refl, truthy-eq v.signal_bytes_hex text e)

  anchored-IsAnchored :
      (tx_hex : String) (tx : Bytes) (X : Type 0)
      → (IsAnchored client s tx_hex → X)
      → read_transaction client tx_hex ≡ some tx
      → (step : MemberAction (List Message)) → Holds (λ _. X) (anchored client tx step s).0
  unfolding anchored tx_embeds_signal embeds_expected signal_of
  anchored-IsAnchored tx_hex tx X use_ was_read step =
      need_some_ends (λ r. Holds (λ _. X) r.0) _ _ _ s tt
        (λ text e1.
          need_ends (λ r. Holds (λ _. X) r.0) _ _ _ s tt
            (λ e2.
              let (v, at, same) = signal_of-eq s.validation text e1 in
              const-Holds X
                (use_ (
                  embedded v at (client.hex_to_bytes v.signal_bytes_hex) refl (
                    subst (λ t. embeds_expected client tx (client.hex_to_bytes t) ≡ true) (sym same)
                      e2)))
                (step s).0))
    where
      embedded :
          (v : PendingValidation)
          → s.validation ≡ some v
          → (o : Option Bytes) → client.hex_to_bytes v.signal_bytes_hex ≡ o
          → embeds_expected client tx o ≡ true
          → IsAnchored client s tx_hex
      embedded v at none d e = cc
      embedded v at (some expected) d e =
          let (a, b) =
            both_true (not (nat_beq (length expected) 0))
              (embeds client expected (client.output_scripts tx)) e in
          let (found_script, out, returned) =
            embeds-Output client expected (client.output_scripts tx) b in
          record {
            tx = tx;
            read = was_read;
            stored = v;
            validated = at;
            payload = expected;
            decoded = d;
            script = found_script;
            output = out;
            returns = returned;
          }

  abbrev pub NonceAnchored : Type 0
  NonceAnchored =
      (r : SigningRequest) × (s.signing_request ≡ some r) × IsAnchored client s r.pending_tx_hex

  abbrev pub FallbackAnchored : Type 0
  FallbackAnchored =
      (r : FallbackRequest) × (s.fallback_request ≡ some r)
      × IsAnchored client s r.request.pending_tx_hex

  approve_nonce-IsAnchored :
      (id : String) → Holds (λ _. NonceAnchored) (approve_nonce_action client id s).0
  unfolding approve_nonce_action
  approve_nonce-IsAnchored id =
      need_ends (λ r. Holds (λ _. NonceAnchored) r.0) _ _ _ s tt
        (λ e1.
          need_some_ends (λ r. Holds (λ _. NonceAnchored) r.0) _ _ _ s tt
            (λ request e2.
              need_some_ends (λ r. Holds (λ _. NonceAnchored) r.0) _ _ _ s tt
                (λ k e3.
                  need_some_ends (λ r. Holds (λ _. NonceAnchored) r.0) _ _ _ s tt
                    (λ tx e4.
                      anchored-IsAnchored request.pending_tx_hex tx NonceAnchored
                        (λ a. (request, e2, a)) e4 _))))

  approve_fallback-IsAnchored :
      (id : String) → Holds (λ _. FallbackAnchored) (approve_fallback_action client id s).0
  unfolding approve_fallback_action
  approve_fallback-IsAnchored id =
      need_ends (λ r. Holds (λ _. FallbackAnchored) r.0) _ _ _ s tt
        (λ e1.
          need_some_ends (λ r. Holds (λ _. FallbackAnchored) r.0) _ _ _ s tt
            (λ request e2.
              need_some_ends (λ r. Holds (λ _. FallbackAnchored) r.0) _ _ _ s tt
                (λ k e3.
                  need_some_ends (λ r. Holds (λ _. FallbackAnchored) r.0) _ _ _ s tt
                    (λ tx e4.
                      need_some_ends (λ r. Holds (λ _. FallbackAnchored) r.0) _ _ _ s tt
                        (λ script e5.
                          need_some_ends (λ r. Holds (λ _. FallbackAnchored) r.0) _ _ _ s tt
                            (λ value e6.
                              anchored-IsAnchored request.request.pending_tx_hex tx FallbackAnchored
                                (λ a. (request, e2, a)) e4 _))))))

-- When `approveNonce` returns messages in the cohort state s, and `approveFallback` in the cohort state
-- t, then the transaction of the request of each has an output `RETURN` with exactly the bytes of the
-- signal that this state holds with the aggregated data.
pub approvals-IsAnchored :
    (client : Client) (id : String) (s t : MemberState) (nonces signatures : List Message)
    → (approve_nonce_action client id s).0 ≡ ok nonces
    → (approve_fallback_action client id t).0 ≡ ok signatures
    → NonceAnchored client s × FallbackAnchored client t
approvals-IsAnchored client id s t nonces signatures e f = (
  Holds-eq (λ _. NonceAnchored client s) (approve_nonce_action client id s).0 nonces
      (approve_nonce-IsAnchored client s id) e,
  Holds-eq (λ _. FallbackAnchored client t) (approve_fallback_action client id t).0 signatures
      (approve_fallback-IsAnchored client t id) f,
)
