-- ===== src/BufferCache/Search.antt =====
-- `find` of BufferCache.cpp finds the first place where the key stands.
use files_event.Prelude.{
  ℕ, zero, suc, ◌+◌, ◌-◌, ◌≤◌, ◌<◌, ◌≡◌, refl, ap, sym, ◌∙◌, arith, List, [], ◌∷◌, length, drop,
  leb, ◌==◌, if◌then◌else◌, true, false, Option, none, some, returns, Bool-cases, inl, inr,
  Option-cases, length-drop,
}
use files_event.Proto.{starts_with}
use files_event.BufferCache.{memchr, one_further, find_loop, find}

-- The first place, counted from `at`, where the key begins.
unfoldable pub first_match : List ℕ → List ℕ → ℕ → Option ℕ
first_match key [] at = none
first_match key (b ∷ bs) at =
    let later = first_match key bs (at + 1) in if starts_with key (b ∷ bs) then some at else later

starts_with-length : (key text : List ℕ) → starts_with key text ≡ true → length key ≤ length text
unfolding starts_with
starts_with-length [] text h = omega arith
starts_with-length (c ∷ cs) [] h = cc
starts_with-length (c ∷ cs) (b ∷ bs) h = ground (arith, starts_with-length cs bs)

starts_with-head :
    (c : ℕ) (cs : List ℕ) (b : ℕ) (bs : List ℕ)
    → (c == b) ≡ false
    → starts_with (c ∷ cs) (b ∷ bs) ≡ false
unfolding starts_with
starts_with-head c cs b bs h = ground arith

-- A text that is shorter than the key.
short_no_match :
    (key text : List ℕ) (at : ℕ) → length text < length key → first_match key text at ≡ none
unfolding first_match
short_no_match key [] at h = refl
short_no_match key (b ∷ bs) at h = elim (Bool-cases (starts_with key (b ∷ bs))) [
  | inl yes_match ↦ absurd (omega (arith, starts_with-length key (b ∷ bs) yes_match))
  | inr no_match ↦ rw no_match (short_no_match key bs (at + 1) (omega arith))
]

flipped : (b c : ℕ) → (b == c) ≡ false → (c == b) ≡ false
flipped b c h = ground arith

none_further : (o : Option ℕ) → one_further o ≡ none → o ≡ none
none_further none e = refl
none_further (some i) e = cc

some_further :
    (o : Option ℕ) (i : ℕ) → one_further o ≡ some i → (k : ℕ) × (o ≡ some k) × (i ≡ suc k)
some_further none i e = cc
some_further (some k) i e = (k, refl, cc)

-- No first byte where the key could still fit.
none_no_match :
    (c : ℕ) (cs : List ℕ) (n : ℕ) (text : List ℕ) (at : ℕ)
    → memchr c n text ≡ none
    → length text < n + length (c ∷ cs)
    → first_match (c ∷ cs) text at ≡ none
unfolding memchr first_match
none_no_match c cs zero text at e h = short_no_match (c ∷ cs) text at (omega arith)
none_no_match c cs (suc n) [] at e h = refl
none_no_match c cs (suc n) (b ∷ bs) at e h = elim (Bool-cases (b == c)) [
  | inl same ↦ ground arith
  | inr other ↦ rw (starts_with-head c cs b bs (flipped b c other)) (
      none_no_match c cs n bs (at + 1) (none_further (memchr c n bs) (rw other at e)) (omega arith))
]

-- Up to the first byte that memchr finds there is no match.
some_skips :
    (c : ℕ) (cs : List ℕ) (n : ℕ) (text : List ℕ) (at i : ℕ)
    → memchr c n text ≡ some i
    → (first_match (c ∷ cs) text at ≡ first_match (c ∷ cs) (drop i text) (at + i))
      × (i < length text)
unfolding memchr first_match
some_skips c cs zero text at i e = cc
some_skips c cs (suc n) [] at i e = cc
some_skips c cs (suc n) (b ∷ bs) at i e = elim (Bool-cases (b == c)) [
  | inl same ↦ found (rw same at e)
  | inr other ↦
      go other (some_further (memchr c n bs) i (rw other at e))
        (λ k p. some_skips c cs n bs (at + 1) k p)
]
  where
    found :
        some 0 ≡ some i
        → (first_match (c ∷ cs) (b ∷ bs) at ≡ first_match (c ∷ cs) (drop i (b ∷ bs)) (at + i))
          × (i < length (b ∷ bs))
    found p =
        let z : i ≡ 0 = ground arith in
        rw z (ap (first_match (c ∷ cs) (b ∷ bs)) {y = at + 0} (omega arith), omega arith)

    go :
        (b == c) ≡ false
        → ((k : ℕ) × (memchr c n bs ≡ some k) × (i ≡ suc k))
        → ((k : ℕ)
            → memchr c n bs ≡ some k
            → (first_match (c ∷ cs) bs (at + 1) ≡ first_match (c ∷ cs) (drop k bs) (at + 1 + k))
              × (k < length bs))
        → (first_match (c ∷ cs) (b ∷ bs) at ≡ first_match (c ∷ cs) (drop i (b ∷ bs)) (at + i))
          × (i < length (b ∷ bs))
    go other (k, p, q) ih =
        let (e', l) = ih k p in
        rw (q, starts_with-head c cs b bs (flipped b c other))
          (e' ∙ ap (first_match (c ∷ cs) (drop k bs)) {y = at + suc k} (omega arith), omega arith)

match_here :
    (c : ℕ) (cs text : List ℕ) (at : ℕ)
    → starts_with (c ∷ cs) text ≡ true
    → first_match (c ∷ cs) text at ≡ some at
unfolding first_match starts_with
match_here c cs [] at h = cc
match_here c cs (b ∷ bs) at h = ground arith

step_over :
    (key text : List ℕ) (i at : ℕ)
    → i < length text
    → starts_with key (drop i text) ≡ false
    → first_match key (drop i text) at ≡ first_match key (drop (i + 1) text) (at + 1)
unfolding first_match
step_over key [] i at l h = absurd (omega arith)
step_over key (b ∷ bs) zero at l h = rw h refl
step_over key (b ∷ bs) (suc i) at l h =
    step_over key bs i at (omega arith) h
    ∙ ap (λ k. first_match key (drop k (b ∷ bs)) (at + 1)) {x = suc (i + 1)} {y = suc i + 1}
        (omega arith)

-- Enough fuel for the text.
loop-first_match :
    (fuel c : ℕ) (cs text : List ℕ) (at : ℕ)
    → length text < fuel
    → find_loop fuel c cs text at ≡ first_match (c ∷ cs) text at
unfolding find_loop
loop-first_match zero c cs text at h = absurd (omega arith)
loop-first_match (suc fuel) c cs text at h =
    elim (Bool-cases (leb (length (c ∷ cs)) (length text))) [
      | inr short ↦ rw short (sym (short_no_match (c ∷ cs) text at (ground arith)))
      | inl room ↦
          rw room (elim (Option-cases (memchr c (length text - length (c ∷ cs) + 1) text)) [
            | inl e ↦ rw e (sym (none_no_match c cs _ text at e (ground arith)))
            | inr (i, e) ↦
                let (skip, l) = some_skips c cs _ text at i e in
                rw e (elim (Bool-cases (starts_with (c ∷ cs) (drop i text))) [
                  | inl hit ↦ rw hit (sym (skip ∙ match_here c cs (drop i text) (at + i) hit))
                  | inr miss ↦ rw miss (
                      loop-first_match fuel c cs (drop (i + 1) text) (at + i + 1)
                        (omega (arith, length-drop (i + 1) text))
                      ∙ sym (skip ∙ step_over (c ∷ cs) text i (at + i) l miss))
                ])
          ])
    ]

-- `find` returns the first place where the key stands in the stored bytes, and nothing if there is none; its
-- jumps from one `memchr` to the next skip no match.
pub find-first_match :
    (c : ℕ) (cs text : List ℕ) → find (c ∷ cs) text ≡ returns (first_match (c ∷ cs) text 0)
unfolding find
find-first_match c cs text =
    ap returns (loop-first_match (suc (length text)) c cs text 0 (omega arith))
