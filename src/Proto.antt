-- ===== src/Proto.antt =====
-- BaseUtils.cpp: `PROTO_GetValueByName`, which finds `name="value"` in the text behind a packet's
-- head. The text is the memory from `lpData` to the end of the buffer; a scan that leaves it faults.
pub mod Values
pub mod Searching
use files_event.Prelude.{
  ℕ, ◌-◌, ◌+◌, List, [], ◌∷◌, leb, ◌==◌, if◌then◌else◌, Bool, true, false, Option, none, some,
  length, drop, ◌&&◌, ℤ, pos, sub_ℕ, Run, returns, fault, ◌>>=◌, ◌>>◌, in_bounds,
}

-- What the call leaves in `*pValueOut` and `*pValueLen`, and returns.
pub record Value : Type 0 where
  pub ret : ℕ
  pub value : List ℕ
  pub value_len : ℤ

abbrev pub not_found : Value
not_found = record { ret = 0; value = []; value_len = pos 0 }

unfoldable pub starts_with : List ℕ → List ℕ → Bool
starts_with [] text = true
starts_with (c ∷ cs) [] = false
starts_with (c ∷ cs) (d ∷ ds) = (c == d) && starts_with cs ds

-- `strstr` on a text that a zero byte ends: what stands from the first match on.
unfoldable pub strstr : List ℕ → List ℕ → Run (Option (List ℕ))
unfolding starts_with
strstr name [] = fault
strstr name (c ∷ cs) =
    if starts_with name (c ∷ cs)
    then returns (some (c ∷ cs))
    else if c == 0
    then returns none
    else strstr name cs

-- `while(*(p + i) != '"') i++`: the bytes passed over.
unfoldable pub until_quote : List ℕ → Run (List ℕ)
until_quote [] = fault
until_quote (c ∷ cs) =
    let rest = until_quote cs in
    if c == b'"' then returns [] else rest >>= λ value. returns (c ∷ value)

-- What follows the name must be `="`; the quote itself is not looked at. `*pValueLen` is set to
-- one less than the number of bytes copied. `room` is the size of the array at `pValueOut`.
unfoldable pub value_at : ℕ → List ℕ → Run Value
unfolding until_quote
value_at room [] = fault
value_at room (c ∷ cs) =
    if c == b'='
    then (do
      value ← until_quote (drop 1 cs)
      in_bounds (leb (length value) room)
      returns (record { ret = 1; value = value; value_len = sub_ℕ (length value) 1 }))
    else returns not_found

unfoldable pub value_of_match : ℕ → List ℕ → Option (List ℕ) → Run Value
unfolding value_at
value_of_match room name none = returns not_found
value_of_match room name (some p) = value_at room (drop (length name) p)

unfoldable pub get_value_by_name : ℕ → List ℕ → List ℕ → Run Value
unfolding strstr value_of_match
get_value_by_name room name text = strstr name text >>= value_of_match room name

-- The text that a zeroed array holds behind such a call, up to its first zero byte.
unfoldable pub c_string : List ℕ → List ℕ
c_string [] = []
c_string (c ∷ cs) = if c == 0 then [] else c ∷ c_string cs
