-- ===== src/BufferCache.antt =====
-- BufferCache.cpp and BufferCache.h: a growing buffer over an `evbuffer` of libevent.
pub mod Search
pub mod Queueing
use files_event.Prelude.{
  ℕ, ◌+◌, ◌-◌, ◌^◌, ◌≤◌, ◌<◌, ◌≡◌, List, [], ◌∷◌, ◌++◌, length, take, drop, ltb, leb, ◌==◌,
  if◌then◌else◌, Bool, true, false, Option, none, some, ℤ, pos, negsuc, ltb_ℤ, pos_part, zero, suc,
  Run, returns, fault, in_bounds, ◌>>=◌, ◌>>◌,
}
use files_event.Proto.{starts_with, c_string}

-- What the class uses of an `evbuffer`, with what libevent documents of it. `bytes` is what is stored and
-- not yet drained, `room` the size of the allocation behind EVBUFFER_DATA.
pub record EvBuffer : Type 1 where
  pub Buf : Type 0
  pub empty : Buf
  pub bytes : Buf → List ℕ
  pub room : Buf → ℕ
  pub has_data : Buf → Bool
  pub add : Buf → List ℕ → ℤ × Buf
  pub drain : Buf → ℕ → Buf
  pub remove : Buf → ℕ → List ℕ × Buf
  pub readline : Buf → Option (List ℕ) × Buf
  pub bytes-empty : bytes empty ≡ []
  pub bytes-add :
      (b : Buf) (xs : List ℕ) → (add b xs).0 ≡ pos 0 → bytes (add b xs).1 ≡ bytes b ++ xs
  pub bytes-drain : (b : Buf) (n : ℕ) → bytes (drain b n) ≡ drop n (bytes b)
  pub remove-bytes : (b : Buf) (n : ℕ) → (remove b n).0 ≡ take n (bytes b)
  pub bytes-remove : (b : Buf) (n : ℕ) → bytes (remove b n).1 ≡ drop n (bytes b)

abbrev pub one_further : Option ℕ → Option ℕ
one_further none = none
one_further (some i) = some (suc i)

-- `memchr`: where the byte first stands among the first `n`.
unfoldable pub memchr : ℕ → ℕ → List ℕ → Option ℕ
memchr c zero text = none
memchr c (suc n) [] = none
memchr c (suc n) (b ∷ bs) =
    let later = memchr c n bs in if b == c then some 0 else one_further later

-- The loop of `find`, with `text` the bytes from `search` on and `at` the place of `search`. `what` is `c`
-- and the bytes behind it.
unfoldable pub find_loop : ℕ → ℕ → List ℕ → List ℕ → ℕ → Option ℕ
unfolding memchr starts_with
find_loop zero c cs text at = none
find_loop (suc fuel) c cs text at =
    if leb (length (c ∷ cs)) (length text)
    then elim (memchr c (length text - length (c ∷ cs) + 1) text) [
      | none ↦ none
      | some i ↦
          let rest = find_loop fuel c cs (drop (i + 1) text) (at + i + 1) in
          if starts_with (c ∷ cs) (drop i text) then some (at + i) else rest
    ]
    else none

-- `find`: the place of the match. Of an empty key the byte behind it is read.
unfoldable pub find : List ℕ → List ℕ → Run (Option ℕ)
unfolding find_loop
find [] text = fault
find (c ∷ cs) text = returns (find_loop (suc (length text)) c cs text 0)

module _ (E : EvBuffer) where
  -- `append` of a text with `len` bytes of it, or up to its first zero byte.
  unfoldable pub append : List ℕ → ℤ → E.Buf → ℤ × E.Buf
  unfolding c_string
  append text len b =
      if ltb_ℤ (pos 0) len then E.add b (take (pos_part len) text) else E.add b (c_string text)

  unfoldable pub get_size : E.Buf → ℕ
  get_size b = length (E.bytes b)

  -- A zero byte is put behind the stored bytes.
  unfoldable pub get_buffer : E.Buf → Run (List ℕ)
  get_buffer b =
      if E.has_data b
      then (do in_bounds (ltb (length (E.bytes b)) (E.room b)); returns (E.bytes b))
      else returns []

  -- `append` of another cache.
  unfoldable pub append_cache : E.Buf → E.Buf → Run (ℤ × E.Buf)
  unfolding get_buffer append get_size
  append_cache other b =
      if ltb 0 (get_size other)
      then (do text ← get_buffer other; returns (append text (pos (get_size other)) b))
      else returns (pos 0, b)

  unfoldable pub erase : ℕ → E.Buf → E.Buf
  erase len b = E.drain b len

  unfoldable pub reset : E.Buf → E.Buf
  unfolding erase get_size
  reset b = erase (get_size b) b

  -- A line is taken out by libevent, or there is none.
  unfoldable pub get_line : E.Buf → Option (List ℕ) × E.Buf
  get_line b = E.readline b

  -- `take` into an array of `len` bytes: `len - 1` is made a `size_t`.
  unfoldable pub take_bytes : ℕ → E.Buf → ℕ × List ℕ × E.Buf
  take_bytes len b =
      let (bytes, b') = E.remove b (if len == 0 then 2 ^ 64 - 1 else len - 1) in
      (length bytes, bytes ++ (0 ∷ []), b')

  -- `take` of all: the new cache, and what stays here.
  unfoldable pub take_all : E.Buf → E.Buf × E.Buf
  take_all b = (b, E.empty)
