-- ===== src/BufferCache/Queueing.antt =====
-- `append` and `take` of BufferCache.cpp, over any `evbuffer` that does what libevent documents.
use files_event.Prelude.{
  ℕ, ◌+◌, ◌-◌, ◌≤◌, ◌<◌, ◌≡◌, refl, ap, sym, ◌∙◌, arith, List, [], ◌∷◌, ◌++◌, length,
  take-length-append, drop-length-append, take, drop, ltb, ◌==◌, true, false, ℤ, pos, ltb_ℤ,
  returns, fault, Bool-cases, inl, inr, take_all, ◌⊎◌,
}
use files_event.BufferCache.{EvBuffer, append, get_size, get_buffer, append_cache, take_bytes}

module _ (E : EvBuffer) where
  -- A text of at least one byte is appended whole.
  append_bytes :
      (xs : List ℕ) (b : E.Buf) → 0 < length xs → (append E xs (pos (length xs)) b ≡ E.add b xs)
  unfolding append
  append_bytes xs b some_bytes =
      let positive : ltb_ℤ (pos 0) (pos (length xs)) ≡ true = ground arith in
      rw positive (ap (E.add b) (take_all (length xs) xs (omega arith)))

  bytes-append :
      (xs : List ℕ) (b : E.Buf)
      → 0 < length xs
      → (append E xs (pos (length xs)) b).0 ≡ pos 0
      → E.bytes (append E xs (pos (length xs)) b).1 ≡ E.bytes b ++ xs
  bytes-append xs b n e =
      let same : append E xs (pos (length xs)) b ≡ E.add b xs = append_bytes xs b n in
      ap (λ (r : ℤ × E.Buf). E.bytes r.1) same
      ∙ E.bytes-add b xs (ap (λ (r : ℤ × E.Buf). r.0) (sym same) ∙ e)

  taken :
      (xs ys : List ℕ) (b : E.Buf)
      → E.bytes b ≡ xs ++ ys
      → let (len, bytes, b') = take_bytes E (length xs + 1) b in
        (len ≡ length xs) × (bytes ≡ xs ++ (0 ∷ [])) × (E.bytes b' ≡ ys)
  unfolding take_bytes
  taken xs ys b e =
      let not_zero : (length xs + 1 == 0) ≡ false = ground arith in
      let less : length xs + 1 - 1 ≡ length xs = omega arith in
      let got : (E.remove b (length xs)).0 ≡ xs =
        E.remove-bytes b (length xs) ∙ ap (take (length xs)) e ∙ take-length-append xs ys in
      rw (not_zero, less)
        (
          ap length got,
          ap (λ r. r ++ (0 ∷ [])) got,
          E.bytes-remove b (length xs) ∙ ap (drop (length xs)) e ∙ drop-length-append xs ys,
        )

  -- What is appended first is taken first: of two texts that the buffer takes in, `take` into an array
  -- with room for the first and a zero byte gives just the first, and leaves the second.
  pub take-append :
      (xs ys : List ℕ)
      → 0 < length xs
      → 0 < length ys
      → (append E xs (pos (length xs)) E.empty).0 ≡ pos 0
      → (append E ys (pos (length ys)) (append E xs (pos (length xs)) E.empty).1).0 ≡ pos 0
      → let b = (append E ys (pos (length ys)) (append E xs (pos (length xs)) E.empty).1).1 in
        let (len, bytes, b') = take_bytes E (length xs + 1) b in
        (len ≡ length xs) × (bytes ≡ xs ++ (0 ∷ [])) × (E.bytes b' ≡ ys)
  take-append xs ys n m e f = taken xs ys _ (
      bytes-append ys _ m f
      ∙ ap (λ r. r ++ ys) (bytes-append xs E.empty n e ∙ ap (λ r. r ++ xs) E.bytes-empty))

  -- Of another cache that holds something, and whose allocation has a byte to spare for the zero byte that
  -- `getBuffer` writes, all is appended if the buffer takes it in; without that byte to spare the write is
  -- out of bounds.
  pub append_cache_lem :
      (other b : E.Buf)
      → 0 < length (E.bytes other)
      → E.has_data other ≡ true
      → (E.add b (E.bytes other)).0 ≡ pos 0
      → ((length (E.bytes other) < E.room other)
          × ((b' : E.Buf) × (append_cache E other b ≡ returns (pos 0, b'))
              × (E.bytes b' ≡ E.bytes b ++ E.bytes other)))
        ⊎ ((E.room other ≤ length (E.bytes other)) × (append_cache E other b ≡ fault))
  unfolding append_cache get_size get_buffer
  append_cache_lem other b n d e =
      let some_bytes : ltb 0 (length (E.bytes other)) ≡ true = ground arith in
      elim (Bool-cases (ltb (length (E.bytes other)) (E.room other))) [
        | inl spare ↦ inl (
          ground arith,
          (
            (E.add b (E.bytes other)).1,
            rw (some_bytes, d, spare)
                (ap returns (
                  append_bytes (E.bytes other) b n
                  ∙ ap (λ (r : ℤ). (r, (E.add b (E.bytes other)).1)) e)),
            E.bytes-add b (E.bytes other) e,
          ),
        )
        | inr full ↦ inr (ground arith, rw (some_bytes, d, full) refl)
      ]
