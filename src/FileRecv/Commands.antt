-- ===== src/FileRecv/Commands.antt =====
-- `SendCmd` of TaskFileRecv.cpp: the packet that the client sends, and what it leaves alone.
use files_event.Prelude.{
  ℕ, ◌≡◌, refl, ap, sym, ◌∙◌, ◌⊎◌, inl, inr, List, ◌++◌, append_assoc, append-nil, arith, length,
  length-eq-zero, ltb_ℤ, ◌==◌, if◌then◌else◌, ℤ, pos, negsuc, Run, returns, fault, blocked, ◌>>=◌,
  Bool-cases, false,
}
use files_event.Posix.{Net}
use files_event.Wire.{head_bytes, net_flag}
use files_event.Transport.{send_ex}
use files_event.Transport.Sending.{SentOver, send_ex-SentOver}
use files_event.FileRecv.{send_cmd}

-- The packet for a command.
abbrev pub packet_of : ℕ → ℕ → List ℕ → List ℕ
packet_of cmd index payload =
    head_bytes (record { flag = net_flag; cmd = cmd; index = index; length = length payload })
    ++ payload

-- Nothing is read, and what goes out is the packet, or a prefix of it if -1 is returned.
abbrev pub Commands : List ℕ → Net → Run (ℤ × Net) → Type 0
Commands bytes net (returns (ret, net')) =
    (net'.inbox ≡ net.inbox)
    × (net'.peer_open ≡ net.peer_open)
    × ((net'.wire ≡ net.wire ++ bytes)
        ⊎ ((ret ≡ negsuc 0) × (unsent : List ℕ) × (net'.wire ++ unsent ≡ net.wire ++ bytes)))
Commands bytes net fault = ⊥
Commands bytes net blocked = Unit {0}

payload_sent :
    (head payload : List ℕ) (net net' : Net) (r : Run (ℤ × Net))
    → net'.inbox ≡ net.inbox
    → net'.peer_open ≡ net.peer_open
    → net'.wire ≡ net.wire ++ head
    → SentOver payload net' r
    → Commands (head ++ payload) net r
payload_sent head payload net net' (returns (ret, net'')) i o w (i', o', inl (_, e)) =
    (i' ∙ i, o' ∙ o, inl (e ∙ ap (λ v. v ++ payload) w ∙ append_assoc net.wire head payload))
payload_sent head payload net net' (returns (ret, net'')) i o w (i', o', inr (m, u, e)) =
    (i' ∙ i, o' ∙ o, inr (m, u, e ∙ ap (λ v. v ++ payload) w ∙ append_assoc net.wire head payload))
payload_sent head payload net net' fault i o w h = h
payload_sent head payload net net' blocked i o w h = tt

abbrev rest_of : List ℕ → ℤ × Net → Run (ℤ × Net)
rest_of payload (ret, net') =
    if ltb_ℤ ret (pos 0)
    then returns (ret, net')
    else if length payload == 0
    then returns (pos 0, net')
    else send_ex payload net'

pos_not_neg : (n : ℕ) → ltb_ℤ (pos n) (pos 0) ≡ false
pos_not_neg n = ground arith

head_sent :
    (head payload : List ℕ) (net : Net) (r : Run (ℤ × Net))
    → SentOver head net r
    → Commands (head ++ payload) net (r >>= rest_of payload)
head_sent head payload net (returns (ret, net')) (i, o, inl (e, w)) =
    rw (e, pos_not_neg (length head))
      (elim (Bool-cases (length payload == 0)) [
        | inl none_left ↦
            rw (none_left, length-eq-zero payload (ground arith))
              (i, o, inl (w ∙ ap (◌++◌ net.wire) (sym (append-nil head))))
        | inr some_left ↦ rw some_left (
            payload_sent head payload net net' (send_ex payload net') i o w
              (send_ex-SentOver payload net'))
      ])
head_sent head payload net (returns (ret, net')) (i, o, inr (e, u, w)) = rw e (
  i,
  o,
  inr (
    refl,
    u ++ payload,
    sym (append_assoc net'.wire u payload)
        ∙ ap (λ v. v ++ payload) w
        ∙ append_assoc net.wire head payload,
  ),
)
head_sent head payload net fault h = h
head_sent head payload net blocked h = tt

-- `SendCmd` sends the head with the command, the index and the length of the data, and then the
-- data: all of it in that order, or a prefix of it if it returns -1. It reads nothing from the
-- connection and never touches foreign memory.
pub send_cmd-Commands :
    (cmd index : ℕ) (payload : List ℕ) (net : Net)
    → Commands (packet_of cmd index payload) net (send_cmd cmd index payload net)
unfolding send_cmd
send_cmd-Commands cmd index payload net =
    head_sent
      (head_bytes (record { flag = net_flag; cmd = cmd; index = index; length = length payload }))
      payload net
      (send_ex
        (head_bytes (record { flag = net_flag; cmd = cmd; index = index; length = length payload }))
        net)
      (send_ex-SentOver
        (head_bytes (record { flag = net_flag; cmd = cmd; index = index; length = length payload }))
        net)
