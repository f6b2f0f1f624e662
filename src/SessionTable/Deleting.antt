-- ===== src/SessionTable/Deleting.antt =====
-- What the destructor of SessionManager deletes: how often a session stands in its list.
use files_event.Prelude.{
  subst, ℕ, zero, suc, ◌+◌, ◌*◌, ◌^◌, ◌<◌, ◌≡◌, ◌≢◌, arith, refl, ap, sym, ◌∙◌, List, [], ◌∷◌, ◌++◌,
  ◌==◌, if◌then◌else◌, Option, none, some, Bool-cases, inl, inr,
}
use files_event.SessionTable.{
  Row, Table, row_of, column_of, get, get_in, sessions_in, sessions_of, destroy,
}

unfoldable pub times : ℕ → List ℕ → ℕ
times p [] = 0
times p (x ∷ xs) = (if x == p then 1 else 0) + times p xs

times-append : (p : ℕ) (a b : List ℕ) → times p (a ++ b) ≡ times p a + times p b
unfolding times
times-append p [] b = omega arith
times-append p (x ∷ a) b = omega (arith, times-append p a b)

-- Lists for the numbers below `n`, one behind the other.
abbrev joined : (ℕ → List ℕ) → ℕ → List ℕ
joined f zero = []
joined f (suc n) = joined f n ++ f n

joined_none :
    (p : ℕ) (f : ℕ → List ℕ) (n : ℕ)
    → ((j : ℕ) → j < n → times p (f j) ≡ 0)
    → times p (joined f n) ≡ 0
unfolding times
joined_none p f zero h = refl
joined_none p f (suc n) h = omega (
  arith,
  times-append p (joined f n) (f n),
  h n (omega arith),
  joined_none p f n (λ j low. h j (omega arith)),
)

joined_once :
    (p : ℕ) (f : ℕ → List ℕ) (n c : ℕ)
    → c < n
    → times p (f c) ≡ 1
    → ((j : ℕ) → j < n → j ≢ c → times p (f j) ≡ 0)
    → times p (joined f n) ≡ 1
joined_once p f zero c low one h = absurd (omega arith)
joined_once p f (suc n) c low one h = elim (Bool-cases (n == c)) [
  | inl e ↦
      let same : n ≡ c = ground arith in
      omega (
        arith,
        times-append p (joined f n) (f n),
        ap (λ k. times p (f k)) same,
        joined_none p f n (λ j under. h j (omega arith) (λ q. omega (arith, q))),
      )
  | inr e ↦
      let other : n ≢ c = λ q. ground (arith, e, q) in
      omega (
        arith,
        times-append p (joined f n) (f n),
        h n (omega arith) other,
        joined_once p f n c (omega (arith, other)) one (λ j under ne. h j (omega arith) ne),
      )
]

-- What one entry adds to the list.
abbrev cell : Option ℕ → List ℕ
cell none = []
cell (some s) = s ∷ []

cell_one : (p : ℕ) (o : Option ℕ) → o ≡ some p → times p (cell o) ≡ 1
unfolding times
cell_one p none h = cc
cell_one p (some s) h = ground arith

cell_none : (p : ℕ) (o : Option ℕ) → o ≢ some p → times p (cell o) ≡ 0
unfolding times
cell_none p none h = refl
cell_none p (some s) h = elim (Bool-cases (s == p)) [
  | inl e ↦ let same : s ≡ p = ground arith in absurd (h (ap some same))
  | inr e ↦ rw e refl
]

sessions_in-joined : (r : Row) (n : ℕ) → sessions_in (some r) n ≡ joined (λ j. cell (r j).session) n
sessions_in-joined r zero = refl
sessions_in-joined r (suc n) =
    elim ((r n).session)
      as (λ o.
        sessions_in (some r) n ++ (elim o [ none ↦ [] | some s ↦ s ∷ [] ])
        ≡ joined (λ j. cell (r j).session) n ++ cell o) [
          | none ↦ ap (λ l. l ++ []) (sessions_in-joined r n)
          | some s ↦ ap (λ l. l ++ (s ∷ [])) (sessions_in-joined r n)
        ]

sessions_of-joined :
    (rows : ℕ → Option Row) (n : ℕ) → sessions_of rows n ≡ joined (λ i. sessions_in (rows i) 1024) n
sessions_of-joined rows zero = refl
sessions_of-joined rows (suc n) =
    ap (λ l. l ++ sessions_in (rows n) 1024) (sessions_of-joined rows n)

-- A row in which no entry holds the session, and one in which just one does.
row_none :
    (p : ℕ) (o : Option Row)
    → ((j : ℕ) → j < 1024 → (get_in j o).0 ≢ some p)
    → times p (sessions_in o 1024) ≡ 0
unfolding times
row_none p none h = refl
row_none p (some r) h =
    ap (times p) (sessions_in-joined r 1024)
    ∙ joined_none p (λ j. cell (r j).session) 1024
        (λ j low. cell_none p (r j).session (λ e. h j low (rw (column j low) e)))
  where
    column : (j : ℕ) → j < 1024 → column_of j ≡ j
    column j low = omega arith

row_once :
    (p c : ℕ) (o : Option Row)
    → c < 1024
    → (get_in c o).0 ≡ some p
    → ((j : ℕ) → j < 1024 → j ≢ c → (get_in j o).0 ≢ some p)
    → times p (sessions_in o 1024) ≡ 1
row_once p c none low here h = cc
row_once p c (some r) low here h =
    ap (times p) (sessions_in-joined r 1024)
    ∙ joined_once p (λ j. cell (r j).session) 1024 c low
        (cell_one p (r c).session (subst (λ k. (r k).session ≡ some p) (column c low) here))
        (λ j under ne.
          cell_none p (r j).session
            (λ e. h j under ne (subst (λ k. (r k).session ≡ some p) (sym (column j under)) e)))
  where
    column : (j : ℕ) → j < 1024 → column_of j ≡ j
    column j under = omega arith

same_column :
    (a b : ℕ) (o : Option Row) → column_of a ≡ column_of b → (get_in a o).0 ≡ (get_in b o).0
same_column a b none e = refl
same_column a b (some r) e = ap (λ k. (r k).session) e

-- The entry in a row and a column is that of their number.
at_cell : (t : Table) (i j : ℕ) → j < 1024 → (get (i * 1024 + j) t).0 ≡ (get_in j (t.rows i)).0
unfolding get
at_cell t i j low =
    let row : row_of (i * 1024 + j) ≡ i = omega arith in
    let column : column_of (i * 1024 + j) ≡ column_of j = omega arith in
    same_column (i * 1024 + j) j (t.rows (row_of (i * 1024 + j))) column
    ∙ ap (λ k. (get_in j (t.rows k)).0) row

-- A session that the table holds under no number is not deleted with it.
pub destroy-none :
    (p : ℕ) (t : Table)
    → ((sid : ℕ) → sid < 2 ^ 16 → (get sid t).0 ≢ some p)
    → times p (destroy t).0 ≡ 0
unfolding destroy
destroy-none p t h =
    ap (times p) (sessions_of-joined t.rows 64)
    ∙ joined_none p (λ i. sessions_in (t.rows i) 1024) 64
        (λ i below.
          row_none p (t.rows i) (λ j low e. h (i * 1024 + j) (omega arith) (at_cell t i j low ∙ e)))

-- One that it holds under just one number is deleted once.
pub destroy-once :
    (p sid : ℕ) (t : Table)
    → sid < 2 ^ 16
    → (get sid t).0 ≡ some p
    → ((other : ℕ) → other < 2 ^ 16 → (get other t).0 ≡ some p → other ≡ sid)
    → times p (destroy t).0 ≡ 1
unfolding destroy
destroy-once p sid t below here only =
    ap (times p) (sessions_of-joined t.rows 64)
    ∙ joined_once p (λ i. sessions_in (t.rows i) 1024) 64 (row_of sid) (omega arith)
        (row_once p (column_of sid) (t.rows (row_of sid)) (omega arith) found (λ j low ne e.
          let same =
            only (row_of sid * 1024 + j) (omega arith) (at_cell t (row_of sid) j low ∙ e) in
          ne (omega (arith, same))))
        (λ i low ne. row_none p (t.rows i) (λ j under e.
          let same = only (i * 1024 + j) (omega arith) (at_cell t i j under ∙ e) in
          ne (omega (arith, same))))
  where
    number : row_of sid * 1024 + column_of sid ≡ sid
    number = omega arith

    found : (get_in (column_of sid) (t.rows (row_of sid))).0 ≡ some p
    found =
        sym (at_cell t (row_of sid) (column_of sid) (omega arith))
        ∙ ap (λ n. (get n t).0) number
        ∙ here

joined_some :
    (p : ℕ) (f : ℕ → List ℕ) (n c : ℕ) → c < n → 0 < times p (f c) → 0 < times p (joined f n)
joined_some p f zero c low more = absurd (omega arith)
joined_some p f (suc n) c low more = elim (Bool-cases (n == c)) [
  | inl e ↦
      let same : n ≡ c = ground arith in
      omega (arith, times-append p (joined f n) (f n), ap (λ k. times p (f k)) same)
  | inr e ↦
      let other : n ≢ c = λ q. ground (arith, e, q) in
      omega
        (arith, times-append p (joined f n) (f n), joined_some p f n c (omega (arith, other)) more)
]

row_some :
    (p c : ℕ) (o : Option Row)
    → c < 1024
    → (get_in c o).0 ≡ some p
    → 0 < times p (sessions_in o 1024)
row_some p c none low here = cc
row_some p c (some r) low here =
    let column : column_of c ≡ c = omega arith in
    omega (
      arith,
      ap (times p) (sessions_in-joined r 1024),
      joined_some p (λ j. cell (r j).session) 1024 c low
          (omega
            (arith, cell_one p (r c).session (subst (λ k. (r k).session ≡ some p) column here))),
    )

-- One that it holds under some number is deleted.
pub destroy-some :
    (p sid : ℕ) (t : Table) → sid < 2 ^ 16 → (get sid t).0 ≡ some p → 0 < times p (destroy t).0
unfolding destroy
destroy-some p sid t below here =
    let number : row_of sid * 1024 + column_of sid ≡ sid = omega arith in
    let found : (get_in (column_of sid) (t.rows (row_of sid))).0 ≡ some p =
      sym (at_cell t (row_of sid) (column_of sid) (omega arith))
      ∙ ap (λ n. (get n t).0) number
      ∙ here in
    omega (
      arith,
      ap (times p) (sessions_of-joined t.rows 64),
      joined_some p (λ i. sessions_in (t.rows i) 1024) 64 (row_of sid) (omega arith)
          (row_some p (column_of sid) (t.rows (row_of sid)) (omega arith) found),
    )
