-- ===== src/Session/Asking.antt =====
-- The request that the client makes (TaskFileRecv.cpp), as the server's session reads it (Session.cpp).
use files_event.Prelude.{
  ℕ, ◌+◌, ◌<◌, ◌≡◌, refl, ap, ◌∙◌, arith, List, [], ◌∷◌, ◌++◌, append_assoc, append-nil, length,
  length-append, drop_all, codes, ltb_ℤ, pos, sub_ℕ, true, false, none, returns, ◌==◌,
}
use files_event.Proto.{Value, not_found, strstr, get_value_by_name, c_string}
use files_event.Proto.Values.{Unquoted, get_value_by_name-found}
use files_event.Proto.Searching.{Without, Lacks, strstr-append}
use files_event.FileRecv.{get_request}
use files_event.Session.Requests.{get_path, request_of}

-- A path that a request can name: at least two bytes and fewer than 256, no quote and no zero byte in it,
-- and not the words `play path`.
pub record Nameable (path : List ℕ) : Type 0 where
  pub unquoted : Unquoted path
  pub no_end : Without 0 path
  pub not_play : Lacks (codes "play path") path
  pub some_bytes : 1 < length path
  pub room : length path < 256

pub c_string_lem : (path : List ℕ) → Without 0 path → c_string path ≡ path
unfolding c_string
c_string_lem [] w = refl
c_string_lem (c ∷ cs) w =
    let not_end : (c == 0) ≡ false = ground arith in rw (not_end, c_string_lem cs w.1) refl

pub length-request : (path : List ℕ) → length (get_request path) ≡ 14 + length path
length-request path = omega (arith, length-append path (codes "\"/>"))

-- The request, and what stands behind it.
abbrev asked : List ℕ → List ℕ → List ℕ
asked path tail = codes "<get path=\"" ++ (path ++ (b'"' ∷ b'/' ∷ b'>' ∷ tail))

asked_text : (path tail : List ℕ) → get_request path ++ tail ≡ asked path tail
asked_text path tail = ap (λ r. codes "<get path=\"" ++ r) (append_assoc path (codes "\"/>") tail)

not_playing :
    (path tail : List ℕ)
    → Nameable path
    → get_value_by_name 256 (codes "play path") (asked path (0 ∷ tail)) ≡ returns not_found
unfolding get_value_by_name strstr files_event.Proto.starts_with files_event.Proto.value_of_match
not_playing path tail n =
    let nothing : strstr (codes "play path") (asked path (0 ∷ tail)) ≡ returns none =
      strstr-append (codes "play path") path b'"' (b'/' ∷ b'>' ∷ 0 ∷ tail) (ground arith) n.not_play
        n.no_end in
    rw nothing refl

got_path :
    (path tail : List ℕ)
    → Nameable path
    → get_value_by_name 256 (codes "get path") (asked path tail)
      ≡ returns (record { ret = 1; value = path; value_len = sub_ℕ (length path) 1 })
unfolding strstr files_event.Proto.starts_with
got_path path tail n =
    get_value_by_name-found 256 (codes "get path") path (b'/' ∷ b'>' ∷ tail) (asked path tail) refl
      n.unquoted (omega (arith, n.room))

positive : (len : ℕ) → 1 < len → ltb_ℤ (pos 0) (sub_ℕ len 1) ≡ true
positive len h = ground arith

-- The request that the client makes for such a path is read by the session as one for just that path,
-- whatever stands behind the zero byte that ends it.
pub request_of-get_request :
    (path tail : List ℕ)
    → Nameable path
    → (request_of (get_request path ++ (0 ∷ tail)) ≡ returns (get_path, path))
      × (c_string path ≡ path)
unfolding request_of
request_of-get_request path tail n = (
  ap request_of (asked_text path (0 ∷ tail))
      ∙ rw
          (not_playing path tail n, got_path path (0 ∷ tail) n, positive (length path) n.some_bytes)
          (ap (λ r. returns (get_path, path ++ r)) (drop_all (length path) [] (omega arith))
            ∙ ap (λ p. returns (get_path, p)) (append-nil path)),
  c_string_lem path n.no_end,
)
