-- ===== src/SessionTable/Lookup.antt =====
-- The two-level array of `SessionManager` as a map from socket numbers.
use files_event.Prelude.{
  ℕ, ◌+◌, ◌%◌, ◌^◌, ◌<◌, ◌≡◌, refl, ap, sym, ◌∙◌, arith, ◌==◌, if◌then◌else◌, Bool, true, false,
  Option, none, some, ℤ, pos, ◌+ℤ◌, ◌-ℤ◌, ◌⊎◌, inl, inr, Bool-cases,
}
use files_event.SessionTable.{
  Entry, blank, Row, Table, row_of, column_of, update, put, get, get_and_remove, or_blank,
  remove_in, get_in,
}

-- The abstract view: the entry of each socket number.
abbrev pub entry_in : ℕ → Option Row → Entry
entry_in sid none = blank
entry_in sid (some r) = r (column_of sid)

pub entry_of : Table → ℕ → Entry
entry_of t sid = entry_in sid (t.rows (row_of sid))

-- A `uint16_t` lies in one of the 64 rows, and row and column give it back.
pub row_of-lt : (sid : ℕ) → sid < 2 ^ 16 → (row_of sid < 64) × (column_of sid < 1024)
row_of-lt sid h = omega arith

same_cell : (a b : ℕ) → row_of a ≡ row_of b → column_of a ≡ column_of b → a ≡ b
same_cell a b r c = omega arith

-- `get` reads the entry.
pub get-entry_of :
    (sid : ℕ) (t : Table) → get sid t ≡ ((entry_of t sid).session, (entry_of t sid).sequence)
unfolding get entry_of
get-entry_of sid t = go (t.rows (row_of sid))
  where
    go :
        (o : Option Row)
        → (elim o as (λ _. Option ℕ × ℕ) [
          | none ↦ (none, 0)
          | some r ↦ ((r (column_of sid)).session, (r (column_of sid)).sequence)
        ])
          ≡ ((entry_in sid o).session, (entry_in sid o).sequence)
    go none = refl
    go (some r) = refl

entry_in-or_blank : (sid : ℕ) (o : Option Row) → entry_in sid o ≡ or_blank o (column_of sid)
entry_in-or_blank sid none = refl
entry_in-or_blank sid (some r) = refl

-- A cell that is written is read back, and no other cell changes, of whatever row.
write_cell :
    (rows : ℕ → Option Row) (sid j : ℕ) (e : Entry)
    → entry_in j (
        update rows
          (row_of sid)
          (some (update (or_blank (rows (row_of sid))) (column_of sid) e))
          (row_of j))
      ≡ (if j == sid then e else entry_in j (rows (row_of j)))
write_cell rows sid j e = elim (Bool-cases (row_of j == row_of sid)) [
  | inr other ↦ rw (other, is_false (j == sid) (λ z. ground (arith, z, other))) refl
  | inl same ↦ rw same (elim (Bool-cases (column_of j == column_of sid)) [
    | inr apart ↦
        rw (apart, is_false (j == sid) (λ z. ground (arith, z, apart)))
          (sym (
            entry_in-or_blank j (rows (row_of j))
            ∙ ap (λ k. or_blank (rows k) (column_of j)) {y = row_of sid} (ground arith)))
    | inl here ↦ rw (here, is_true j sid (same_cell j sid (ground arith) (ground arith))) refl
  ])
]
  where
    is_false : (b : Bool) → (b ≡ true → ⊥) → b ≡ false
    is_false true h = absurd (h refl)
    is_false false h = refl

    is_true : (a b : ℕ) → a ≡ b → (a == b) ≡ true
    is_true a b h = ground arith

abbrev pair : Entry → Option ℕ × ℕ
pair e = (e.session, e.sequence)

pair_if : (b : Bool) (e e' : Entry) → pair (if b then e else e') ≡ (if b then pair e else pair e')
pair_if true e e' = refl
pair_if false e e' = refl

-- What `get` finds behind a write of one entry.
get_written :
    (t : Table) (n : ℤ) (sid j : ℕ) (row : Row) (e : Entry)
    → row ≡ or_blank (t.rows (row_of sid))
    → get j (record {
      count = n;
      rows = update t.rows (row_of sid) (some (update row (column_of sid) e));
    })
      ≡ (if j == sid then pair e else get j t)
unfolding entry_of
get_written t n sid j row e h = rw h (
    get-entry_of j _
    ∙ ap pair (write_cell t.rows sid j e)
    ∙ pair_if (j == sid) e (entry_in j (t.rows (row_of j)))
    ∙ ap (λ (x : Option ℕ × ℕ). if j == sid then pair e else x) (sym (get-entry_of j t)))

-- `put` stores the session under its number, keeps the number's sequence, reports it, counts one
-- more, and leaves every other number as it was.
pub put_lem :
    (sid session j : ℕ) (t : Table)
    → let (sequence, t') = put sid session t in
      (sequence ≡ (get sid t).1)
      × (get j t' ≡ (if j == sid then (some session, (get sid t).1) else get j t))
      × (t'.count ≡ t.count +ℤ pos 1)
unfolding put entry_of
put_lem sid session j t =
    let kept : (or_blank (t.rows (row_of sid)) (column_of sid)).sequence ≡ (get sid t).1 = sym (
      ap (λ (x : Option ℕ × ℕ). x.1) (get-entry_of sid t)
      ∙ ap (λ (e : Entry). e.sequence) (entry_in-or_blank sid (t.rows (row_of sid)))) in
    (
      kept,
      get_written t (t.count +ℤ pos 1) sid j (or_blank (t.rows (row_of sid))) _ refl
          ∙ ap (λ (q : ℕ). if j == sid then (some session, q) else get j t) kept,
      refl,
    )

-- `getAndRemove` hands the session out, clears the number and moves its sequence on by one, as a
-- `uint16_t`; every other number stays, and the count goes down by one. Or nothing changes at all:
-- then no session of the number's row was ever put, and none is handed out.
pub get_and_remove_lem :
    (sid j : ℕ) (t : Table)
    → let (session, t') = get_and_remove sid t in
      (session ≡ (get sid t).0)
      × (((get j t' ≡ (if j == sid then (none, ((get sid t).1 + 1) % 2 ^ 16) else get j t))
            × (t'.count ≡ t.count -ℤ pos 1))
          ⊎ ((t' ≡ t) × (t.rows (row_of sid) ≡ none) × (session ≡ none)))
unfolding get_and_remove get
get_and_remove_lem sid j t = go (t.rows (row_of sid)) refl
  where
    go :
        (o : Option Row)
        → t.rows (row_of sid) ≡ o
        → let (session, t') = remove_in sid t o in
          (session ≡ (get_in sid o).0)
          × (((get j t' ≡ (if j == sid then (none, ((get_in sid o).1 + 1) % 2 ^ 16) else get j t))
                × (t'.count ≡ t.count -ℤ pos 1))
              ⊎ ((t' ≡ t) × (o ≡ none) × (session ≡ none)))
    go none e = (refl, inr (refl, refl, refl))
    go (some r) e =
        (refl, inl (get_written t (t.count -ℤ pos 1) sid j r _ (sym (ap or_blank e)), refl))

eq_self : (a : ℕ) → (a == a) ≡ true
eq_self a = ground arith

-- Removing a number twice counts down twice, although only the first call hands a session out.
pub remove_twice :
    (sid session : ℕ) (t : Table)
    → let t₁ = (put sid session t).1 in
      let (first, t₂) = get_and_remove sid t₁ in
      let (second, t₃) = get_and_remove sid t₂ in
      (first ≡ some session) × (second ≡ none) × (t₃.count ≡ t.count +ℤ pos 1 -ℤ pos 1 -ℤ pos 1)
unfolding put get_and_remove
remove_twice sid session t = (
  simp (eq_self (row_of sid), eq_self (column_of sid)),
  simp (eq_self (row_of sid), eq_self (column_of sid)),
  simp (eq_self (row_of sid), eq_self (column_of sid)),
)
