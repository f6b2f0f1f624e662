-- ===== src/Proto/Values.antt =====
-- What `PROTO_GetValueByName` finds.
use files_event.Prelude.{
  ℕ, ◌≤◌, ◌≡◌, ◌≢◌, refl, List, [], ◌∷◌, ◌++◌, leb, true, some, length, drop-length-append, sub_ℕ,
  returns, arith,
}
use files_event.Proto.{strstr, until_quote, get_value_by_name}

-- No byte of the text is a quote.
abbrev pub Unquoted : List ℕ → Type 0
Unquoted [] = Unit {0}
Unquoted (c ∷ cs) = (c ≢ b'"') × Unquoted cs

pub until_quote-append :
    (value rest : List ℕ) → Unquoted value → until_quote (value ++ (b'"' ∷ rest)) ≡ returns value
unfolding until_quote
until_quote-append [] rest u = refl
until_quote-append (c ∷ cs) rest u = ground (arith, until_quote-append cs rest u.1)

pub in_room : (n room : ℕ) → n ≤ room → leb n room ≡ true
in_room n room h = ground arith

-- Where the first match of the name is followed by `="`, a value without quotes that fits the array
-- and a closing quote, that value is copied and 1 returned, and the length set is one less than the
-- value's.
pub get_value_by_name-found :
    (room : ℕ) (name value rest text : List ℕ)
    → strstr name text ≡ returns (some (name ++ (b'=' ∷ b'"' ∷ (value ++ (b'"' ∷ rest)))))
    → Unquoted value
    → length value ≤ room
    → get_value_by_name room name text
      ≡ returns (record { ret = 1; value = value; value_len = sub_ℕ (length value) 1 })
unfolding get_value_by_name
get_value_by_name-found room name value rest text found u fits = rw (
  found,
  drop-length-append name (b'=' ∷ b'"' ∷ (value ++ (b'"' ∷ rest))),
  until_quote-append value rest u,
  in_room (length value) room fits,
)
