-- ===== src/SessionTable.antt =====
-- `SessionManager` of Session.cpp: the sessions by socket number, in 64 rows of 1024 entries that are
-- allocated when they are first used. A session is a number that stands for its pointer.
pub mod Lookup
pub mod Deleting
use files_event.Prelude.{
  ℕ, ◌+◌, ◌*◌, ◌/◌, ◌%◌, ◌^◌, ltb, ◌==◌, if◌then◌else◌, Bool, Option, none, some, ℤ, pos, ◌+ℤ◌,
  ◌-ℤ◌, List, [], ◌∷◌, ◌++◌, zero, suc,
}

-- `SessionEntry_t`; `sequence` is a `uint16_t`.
pub record Entry : Type 0 where
  pub sequence : ℕ
  pub session : Option ℕ

-- What `calloc` leaves in an entry.
abbrev pub blank : Entry
blank = record { sequence = 0; session = none }

abbrev pub Row : Type 0
Row = ℕ → Entry

-- `rows` is `mArray`: a row that was not allocated is `none`.
pub record Table : Type 0 where
  pub count : ℤ
  pub rows : ℕ → Option Row

abbrev pub row_of : ℕ → ℕ
row_of sid = sid / 1024

abbrev pub column_of : ℕ → ℕ
column_of sid = sid % 1024

abbrev pub update {ℓ} : {A : Type ℓ} → (ℕ → A) → ℕ → A → ℕ → A
update f k a i = if i == k then a else f i

-- The constructor.
unfoldable pub empty : Table
empty = record { count = pos 0; rows = λ _. none }

unfoldable pub get_count : Table → ℤ
get_count t = t.count

abbrev pub or_blank : Option Row → Row
or_blank none = λ _. blank
or_blank (some r) = r

-- The result is `*seq`.
unfoldable pub put : ℕ → ℕ → Table → ℕ × Table
put sid session t =
    let row = or_blank (t.rows (row_of sid)) in
    let entry = row (column_of sid) in
    (
      entry.sequence,
      record {
        count = t.count +ℤ pos 1;
        rows =
            update t.rows (row_of sid)
              (some (update row (column_of sid) (record entry { session = some session })));
      },
    )

abbrev pub get_in : ℕ → Option Row → Option ℕ × ℕ
get_in sid none = (none, 0)
get_in sid (some r) = ((r (column_of sid)).session, (r (column_of sid)).sequence)

-- The session and `*seq`.
unfoldable pub get : ℕ → Table → Option ℕ × ℕ
get sid t = get_in sid (t.rows (row_of sid))

-- The entry's session is taken out, and its sequence number goes up, as a `uint16_t`; the count goes
-- down, also if the entry held no session.
abbrev remove_in : ℕ → Table → Option Row → Option ℕ × Table
remove_in sid t none = (none, t)
remove_in sid t (some r) =
    let entry = r (column_of sid) in
    (
      entry.session,
      record {
        count = t.count -ℤ pos 1;
        rows = update t.rows (row_of sid) (
            some (
              update r (column_of sid)
                (record { sequence = (entry.sequence + 1) % 2 ^ 16; session = none })));
      },
    )

unfoldable pub get_and_remove : ℕ → Table → Option ℕ × Table
get_and_remove sid t = remove_in sid t (t.rows (row_of sid))

-- The destructor: the sessions that it deletes, row by row.
abbrev pub sessions_in : Option Row → ℕ → List ℕ
sessions_in none n = []
sessions_in (some r) zero = []
sessions_in (some r) (suc n) =
    sessions_in (some r) n ++ (elim ((r n).session) [ none ↦ [] | some s ↦ s ∷ [] ])

abbrev pub sessions_of : (ℕ → Option Row) → ℕ → List ℕ
sessions_of rows zero = []
sessions_of rows (suc n) = sessions_of rows n ++ sessions_in (rows n) 1024

unfoldable pub destroy : Table → List ℕ × Table
destroy t = (sessions_of t.rows 64, record t { rows = λ _. none })
