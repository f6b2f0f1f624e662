-- ===== src/FileSend/Starting.antt =====
-- The command with which the client starts the transfer (TaskFileRecv.cpp), as the sending task reads it
-- (TaskFileSend.cpp).
pub mod Arrival
use files_event.Prelude.{
  ℕ, zero, suc, ◌+◌, ◌-◌, ◌*◌, ◌/◌, ◌%◌, ◌^◌, ◌≤◌, ◌<◌, ◌≡◌, ◌≢◌, refl, ap, ap₂, sym, ◌∙◌, arith,
  List, [], ◌∷◌, ◌++◌, append_assoc, append-nil, length, length-append, ltb, if◌then◌else◌, Bool,
  true, false, some, returns, codes, sub_ℕ, Bool-cases, inl, inr, drop,
}
use files_event.Memory.{Memory, load, load-add, length-load, store}
use files_event.Transport.{decimal, decimal_fuel}
use files_event.Transport.Waiting.{length-decimal-le}
use files_event.Proto.{strstr, get_value_by_name, c_string, starts_with}
use files_event.Proto.Values.{Unquoted, get_value_by_name-found}
use files_event.FileRecv.{start_request}
use files_event.FileSend.{Task}
use files_event.FileSend.Reading.{control, text_of, is_text}

Unquoted-append : (a b : List ℕ) → Unquoted a → Unquoted b → Unquoted (a ++ b)
Unquoted-append [] b u v = v
Unquoted-append (c ∷ cs) b u v = (u.0, Unquoted-append cs b u.1 v)

decimal_fuel-Unquoted : (f n : ℕ) → Unquoted (decimal_fuel f n)
unfolding decimal_fuel
decimal_fuel-Unquoted zero n = tt
decimal_fuel-Unquoted (suc f) n = elim (Bool-cases (ltb n 10)) [
  | inl e ↦ rw e (omega arith, tt)
  | inr e ↦ rw e (
      Unquoted-append (decimal_fuel f (n / 10)) ((48 + n % 10) ∷ [])
        (decimal_fuel-Unquoted f (n / 10)) (omega arith, tt))
]

decimal-Unquoted : (v : ℕ) → Unquoted (decimal v)
unfolding decimal
decimal-Unquoted v = elim (Bool-cases (ltb v (2 ^ 31))) [
  | inl e ↦ rw e (decimal_fuel-Unquoted 10 v)
  | inr e ↦ rw e (omega arith, decimal_fuel-Unquoted 10 (2 ^ 32 - v))
]

-- The command, and what stands behind it.
abbrev command : ℕ → List ℕ → List ℕ
command total rest =
    codes "<control name=\"start\" tmstart=\"0\" tmend=\""
    ++ (decimal total ++ (b'"' ∷ b' ' ∷ b'/' ∷ b'>' ∷ 0 ∷ rest))

command_text : (total : ℕ) (rest : List ℕ) → start_request total ++ rest ≡ command total rest
command_text total rest =
    ap (λ r. codes "<control name=\"start\" tmstart=\"0\" tmend=\"" ++ r)
      (append_assoc (decimal total) (codes "\" />" ++ (0 ∷ [])) rest)

named :
    (total : ℕ) (rest : List ℕ)
    → get_value_by_name 256 (codes "name") (command total rest)
      ≡ returns (record { ret = 1; value = codes "start"; value_len = sub_ℕ 5 1 })
unfolding strstr starts_with
named total rest =
    get_value_by_name-found 256 (codes "name") (codes "start")
      (codes " tmstart=\"0\" tmend=\"" ++ (decimal total ++ (b'"' ∷ b' ' ∷ b'/' ∷ b'>' ∷ 0 ∷ rest)))
      (command total rest) refl (omega arith) (omega arith)

begins :
    (total : ℕ) (rest : List ℕ)
    → get_value_by_name 256 (codes "tmstart") (command total rest)
      ≡ returns (record { ret = 1; value = codes "0"; value_len = sub_ℕ 1 1 })
unfolding strstr starts_with
begins total rest =
    get_value_by_name-found 256 (codes "tmstart") (codes "0")
      (codes " tmend=\"" ++ (decimal total ++ (b'"' ∷ b' ' ∷ b'/' ∷ b'>' ∷ 0 ∷ rest)))
      (command total rest) refl (omega arith) (omega arith)

stops :
    (total : ℕ) (rest : List ℕ)
    → get_value_by_name 256 (codes "tmend") (command total rest)
      ≡ returns
          (record { ret = 1; value = decimal total; value_len = sub_ℕ (length (decimal total)) 1 })
unfolding strstr starts_with
stops total rest =
    get_value_by_name-found 256 (codes "tmend") (decimal total) (b' ' ∷ b'/' ∷ b'>' ∷ 0 ∷ rest)
      (command total rest) refl (decimal-Unquoted total) (omega (arith, length-decimal-le total))

-- The command of the client, whatever stands behind it in the buffer, starts the sending: the write event is
-- asked for.
pub control-start :
    (m : Memory) (t : Task) (total : ℕ) (rest : List ℕ)
    → text_of m ≡ start_request total ++ rest
    → control m t ≡ returns (t, true)
unfolding control c_string is_text starts_with
control-start m t total rest e =
    let text : text_of m ≡ command total rest = e ∙ command_text total rest in
    rw (text, named total rest, begins total rest, stops total rest) refl
