-- ===== src/Tests/Caches.antt =====
-- Runs of the byte cache (BufferCache.cpp), over an `evbuffer` that is a list of bytes in an allocation.
use files_event.Prelude.{
  ℕ, ◌==◌, ◌∷◌, Option, none, some, if◌then◌else◌, ◌+◌, ◌≤◌, ◌<◌, ◌≡◌, refl, ◌⊎◌, List, [], ◌++◌,
  length, take, drop, true, pos, returns, fault, codes, arith,
}
use files_event.BufferCache.{EvBuffer, append_cache, get_line, find}
use files_event.BufferCache.Search.{first_match, find-first_match}
use files_event.BufferCache.Queueing.{append_cache_lem}

-- The bytes, and the size of the allocation, which holds one byte more at first.
abbrev Stored : Type 0
Stored = List ℕ × ℕ

-- The bytes before the first newline and those behind it.
abbrev split_line : List ℕ → Option (List ℕ) × List ℕ
split_line [] = (none, [])
split_line (b ∷ bs) =
    let (line, rest) = split_line bs in
    if b == 10
    then (some [], bs)
    else elim line [ none ↦ (none, b ∷ bs) | some cs ↦ (some (b ∷ cs), rest) ]

abbrev listed : EvBuffer
listed = record {
  Buf = Stored;
  empty = ([], 0);
  bytes = λ (b : Stored). b.0;
  room = λ (b : Stored). b.1;
  has_data = λ (b : Stored). true;
  add = λ (b : Stored) xs. (pos 0, (b.0 ++ xs, length (b.0 ++ xs) + 1));
  drain = λ (b : Stored) n. (drop n b.0, b.1);
  remove = λ (b : Stored) n. (take n b.0, (drop n b.0, b.1));
  readline = λ (b : Stored). ((split_line b.0).0, ((split_line b.0).1, b.1));
  bytes-empty = refl;
  bytes-add = λ b xs h. refl;
  bytes-drain = λ b n. refl;
  remove-bytes = λ b n. refl;
  bytes-remove = λ b n. refl;
}

find-first_match_example :
    find (codes "lo") (codes "hello, lo") ≡ returns (first_match (codes "lo") (codes "hello, lo") 0)
find-first_match_example = find-first_match 108 (codes "o") (codes "hello, lo")

abbrev full : Stored
full = (codes "abc", 3)

append_cache_lem_example :
    ((3 < 3)
      × ((b' : Stored) × (append_cache listed full ([], 0) ≡ returns (pos 0, b'))
          × (listed.bytes b' ≡ [] ++ codes "abc")))
    ⊎ ((3 ≤ 3) × (append_cache listed full ([], 0) ≡ fault))
append_cache_lem_example = append_cache_lem listed full ([], 0) (omega arith) refl refl

-- Two lines, of which the first is read.
reads_a_line :
    get_line listed (codes "ab" ++ (10 ∷ codes "c"), 9) ≡ (some (codes "ab"), (codes "c", 9))
unfolding get_line
reads_a_line = refl
