-- ===== src/Aggregation/Session/Placed.antt =====
-- The public nonces of a session, index by index.
use did_btcr2_js.Prelude.Result.{>>=-eq-ok, ok, or_throw, or_throw-eq-ok}
use did_btcr2_js.Prelude.{
  false, All, List, Option, [], ap, arith, get_elem?, if◌then◌else◌, length, nat_beq, none, refl,
  replicate, some, suc, sym, zero, ℕ, ◌<◌, ◌∙◌, ◌∷◌, ◌≡◌,
}
use did_btcr2_js.Smt.Hash.{Bytes}
use did_btcr2_js.Aggregation.Session.{place_nonces, set_at, unknown_participant_key}
use did_btcr2_js.Prelude.Dict.{Dict}
use did_btcr2_js.Aggregation.Cohort.{Cohort, index_of_participant}
use Prim.Native.String.{String}

-- The nonce of a contributor whose key stands at index j.
abbrev own_nonce : Cohort → String → Bytes → ℕ → Option Bytes
own_nonce k did nonce j = elim (index_of_participant k did) [
  | none ↦ none
  | some i ↦ if nat_beq i j then some nonce else none
]

-- The nonce for the key at index j: that of the last contributor who has this key.
pub nonce_at : Cohort → Dict String Bytes → ℕ → Option Bytes
nonce_at k [] j = none
nonce_at k ((did, nonce) ∷ rest) j =
    let later = nonce_at k rest j in elim later [ none ↦ own_nonce k did nonce j | some n ↦ some n ]

-- A value in place of what an array holds, where there is one.
abbrev pub replaced : Option Bytes → Option (Option Bytes) → Option (Option Bytes)
replaced none held = held
replaced (some n) none = none
replaced (some n) (some old) = some (some n)

replaced-none : (o : Option Bytes) → replaced o none ≡ none
replaced-none none = refl
replaced-none (some n) = refl

get_elem?-set_at :
    (i j : ℕ) (n : Bytes) (xs : List (Option Bytes))
    → get_elem? (set_at i n xs) j ≡ replaced (if nat_beq i j then some n else none) (get_elem? xs j)
unfolding set_at
get_elem?-set_at zero j n [] = sym (replaced-none (if nat_beq 0 j then some n else none))
get_elem?-set_at (suc i) j n [] = sym (replaced-none (if nat_beq (suc i) j then some n else none))
get_elem?-set_at zero zero n (x ∷ xs) = refl
get_elem?-set_at zero (suc j) n (x ∷ xs) =
    let e : nat_beq 0 (suc j) ≡ false = ground arith in rw e refl
get_elem?-set_at (suc i) zero n (x ∷ xs) =
    let e : nat_beq (suc i) 0 ≡ false = ground arith in rw e refl
get_elem?-set_at (suc i) (suc j) n (x ∷ xs) =
    let e : nat_beq (suc i) (suc j) ≡ nat_beq i j = ground arith in rw e (get_elem?-set_at i j n xs)

length-set_at : (i : ℕ) (n : Bytes) (xs : List (Option Bytes)) → length (set_at i n xs) ≡ length xs
unfolding set_at
length-set_at zero n [] = refl
length-set_at (suc i) n [] = refl
length-set_at zero n (x ∷ xs) = refl
length-set_at (suc i) n (x ∷ xs) = ap suc (length-set_at i n xs)

replaced-replaced :
    (later own : Option Bytes) (held : Option (Option Bytes))
    → replaced later (replaced own held)
      ≡ replaced (elim later as (λ _. Option Bytes) [ none ↦ own | some n ↦ some n ]) held
replaced-replaced none own held = refl
replaced-replaced (some n) none none = refl
replaced-replaced (some n) none (some x) = refl
replaced-replaced (some n) (some m) none = refl
replaced-replaced (some n) (some m) (some x) = refl

-- What the array of nonces holds, and that every contributor has a key of the cohort.
pub record IsPlaced (k : Cohort) (contributions : Dict String Bytes)
    (before nonces : List (Option Bytes)) : Type 0 where
  pub counted : length nonces ≡ length before
  pub signers : All (λ x. (i : ℕ) × (index_of_participant k x.0 ≡ some i)) contributions
  pub held :
      (j : ℕ) → get_elem? nonces j ≡ replaced (nonce_at k contributions j) (get_elem? before j)

own_nonce-at :
    (k : Cohort) (did : String) (n : Bytes) (i j : ℕ)
    → index_of_participant k did ≡ some i
    → own_nonce k did n j ≡ (if nat_beq i j then some n else none)
own_nonce-at k did n i j e = rw (own_nonce, e) refl

pub place_nonces-IsPlaced :
    (k : Cohort) (contributions : Dict String Bytes) (before nonces : List (Option Bytes))
    → place_nonces k contributions before ≡ ok nonces
    → IsPlaced k contributions before nonces
unfolding place_nonces nonce_at
place_nonces-IsPlaced k [] before nonces e =
    let same : before ≡ nonces = ground (arith, e) in
    record {
      counted = ap length (sym same);
      signers = tt;
      held = λ j. ap (λ xs. get_elem? xs j) (sym same);
    }
place_nonces-IsPlaced k ((did, n) ∷ rest) before nonces e =
    let (i, e1, e2) =
      >>=-eq-ok (or_throw (index_of_participant k did) unknown_participant_key) _ e in
    let own = or_throw-eq-ok (index_of_participant k did) unknown_participant_key i e1 in
    let h = place_nonces-IsPlaced k rest (set_at i n before) nonces e2 in
    record {
      counted = h.counted ∙ length-set_at i n before;
      signers = ((i, own), h.signers);
      held = λ j.
          h.held j
          ∙ ap (replaced (nonce_at k rest j)) (get_elem?-set_at i j n before)
          ∙ replaced-replaced (nonce_at k rest j) (if nat_beq i j then some n else none)
              (get_elem? before j)
          ∙ ap
              (λ o.
                replaced
                  (elim (nonce_at k rest j) as (λ _. Option Bytes) [ none ↦ o | some m ↦ some m ])
                  (get_elem? before j))
              (sym (own_nonce-at k did n i j own));
    }

abbrev pub no_nonce : Option Bytes
no_nonce = none

pub get_elem?-replicate : (n j : ℕ) → j < n → get_elem? (replicate n no_nonce) j ≡ some no_nonce
get_elem?-replicate zero j l = absurd (omega arith)
get_elem?-replicate (suc n) zero l = refl
get_elem?-replicate (suc n) (suc j) l = get_elem?-replicate n j (omega arith)

pub replaced-some : (o : Option Bytes) → replaced o (some none) ≡ some o
replaced-some none = refl
replaced-some (some n) = refl
