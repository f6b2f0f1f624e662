-- ===== src/Proto/Searching.antt =====
-- What `strstr` finds in a text with a byte that the name does not have.
use files_event.Prelude.{ℕ, ◌∙◌, ◌≡◌, ◌≢◌, refl, arith, List, [], ◌∷◌, ◌++◌, ◌==◌, false}
use files_event.Proto.{starts_with, strstr}

-- The byte is not in the text.
abbrev pub Without : ℕ → List ℕ → Type 0
Without q [] = Unit {0}
Without q (c ∷ cs) = (c ≢ q) × Without q cs

-- The name stands nowhere in the text.
abbrev pub Lacks : List ℕ → List ℕ → Type 0
Lacks name [] = starts_with name [] ≡ false
Lacks name (c ∷ cs) = (starts_with name (c ∷ cs) ≡ false) × Lacks name cs

-- No match goes over a byte that the name does not have.
pub starts_with-append :
    (name text : List ℕ) (q : ℕ) (rest : List ℕ)
    → Without q name
    → starts_with name (text ++ (q ∷ rest)) ≡ starts_with name text
unfolding starts_with
starts_with-append [] text q rest w = refl
starts_with-append (c ∷ cs) [] q rest w = ground arith
starts_with-append (c ∷ cs) (d ∷ ds) q rest w = rw (starts_with-append cs ds q rest w.1) refl

-- Behind a text without the name and without a zero byte, the search goes on.
pub strstr-append :
    (name text : List ℕ) (q : ℕ) (rest : List ℕ)
    → Without q name
    → Lacks name text
    → Without 0 text
    → strstr name (text ++ (q ∷ rest)) ≡ strstr name (q ∷ rest)
unfolding strstr
strstr-append name [] q rest w l z = refl
strstr-append name (c ∷ cs) q rest w l z =
    let no_match : starts_with name (c ∷ (cs ++ (q ∷ rest))) ≡ false =
      starts_with-append name (c ∷ cs) q rest w ∙ l.0 in
    let not_end : (c == 0) ≡ false = ground arith in
    rw (no_match, not_end) (strstr-append name cs q rest w l.1 z.1)
