-- ===== src/FileRecv/Waiting.antt =====
-- When a read event of a `TaskFileRecv` is not kept waiting for ever.
use files_event.Prelude.{
  ℕ, ◌+◌, ◌≤◌, ◌≡◌, refl, List, ◌++◌, arith, length, length-append, ltb_ℤ, leb, ◌==◌, if◌then◌else◌,
  true, false, Bool, ℤ, pos, Run, returns, fault, blocked, ◌>>=◌, Bool-cases, inl, inr, Option,
  none, some, deref,
}
use files_event.Memory.{Memory, get_u32, load}
use files_event.Posix.{Net}
use files_event.Wire.{NetHead, head_bytes, net_flag, code_of, control_play}
use files_event.Buffers.{reset}
use files_event.Transport.{send_ex, size_of_int, decimal, add_int}
use files_event.Transport.Waiting.{chances, SpendsNet, send_ex-Spends, length-decimal-le}
use files_event.FileRecv.{Task, send_cmd, start_request, files_packet, loginret_packet}

-- Two pieces go out for a command: its head, then its data.
rest_spends :
    (payload : List ℕ) (net : Net) (r : Run (ℤ × Net))
    → length payload ≤ 1500
    → 2 ≤ chances net.answers
    → SpendsNet 1 net r
    → SpendsNet 2 net (
        r >>= λ (ret, net').
        if ltb_ℤ ret (pos 0)
        then returns (ret, net')
        else if length payload == 0
        then returns (pos 0, net')
        else send_ex payload net')
rest_spends payload net (returns (ret, net')) h c s = elim (Bool-cases (ltb_ℤ ret (pos 0))) [
  | inl e ↦ rw e (omega arith)
  | inr e ↦ rw e (elim (Bool-cases (length payload == 0)) [
    | inl z ↦ rw z (omega arith)
    | inr z ↦ rw z (go (send_ex payload net') (send_ex-Spends payload net' h (omega arith)))
  ])
]
  where
    go : (q : Run (ℤ × Net)) → SpendsNet 1 net' q → SpendsNet 2 net q
    go (returns (ret', net'')) t = omega arith
    go fault t = t
    go blocked t = t
rest_spends payload net fault h c s = s
rest_spends payload net blocked h c s = s

length-head : (h : NetHead) → length (head_bytes h) ≡ 16
unfolding head_bytes
length-head h = refl

pub send_cmd-Spends :
    (cmd index : ℕ) (payload : List ℕ) (net : Net)
    → length payload ≤ 1500
    → 2 ≤ chances net.answers
    → SpendsNet 2 net (send_cmd cmd index payload net)
unfolding send_cmd
send_cmd-Spends cmd index payload net h c = rest_spends payload net _ h c (
    send_ex-Spends
      (head_bytes (record { flag = net_flag; cmd = cmd; index = index; length = length payload }))
      net
      (omega (
        arith,
        length-head (record { flag = net_flag; cmd = cmd; index = index; length = length payload }),
      ))
      (omega arith))

length-start_request : (total : ℕ) → length (start_request total) ≤ 1500
length-start_request total = omega (arith, length-append (decimal total) _, length-decimal-le total)

-- The event does not wait for ever, and uses up two chances at most.
abbrev pub Ends {ℓ} : {A : Type ℓ} → Net → Run (A × Net) → Type 0
Ends net (returns (a, net')) = chances net.answers ≤ chances net'.answers + 2
Ends net fault = Unit {0}
Ends net blocked = ⊥

-- The same of a result with an `int`.
abbrev pub EndsTask : Net → Run (ℤ × Task × Net) → Type 0
EndsTask net (returns (ret, t, net')) = chances net.answers ≤ chances net'.answers + 2
EndsTask net fault = Unit {0}
EndsTask net blocked = ⊥

pub reset-Ends :
    (ret : ℤ) (net : Net) (r : Run (Task × Net))
    → Ends net r
    → EndsTask net (r >>= λ (t', net'). returns (ret, record t' { buf = reset t'.buf }, net'))
reset-Ends ret net (returns (t', net')) h = h
reset-Ends ret net fault h = h
reset-Ends ret net blocked h = h

pub Ends-if :
    (b : Bool) (net : Net) (x y : Run (Task × Net))
    → Ends net x
    → Ends net y
    → Ends net (if b then x else y)
Ends-if true net x y h k = h
Ends-if false net x y h k = k

pub ends_either :
    (b : Bool) (net : Net) (x y : Run (ℤ × Task × Net))
    → EndsTask net x
    → EndsTask net y
    → EndsTask net (if b then x else y)
ends_either true net x y h k = h
ends_either false net x y h k = k

pub files-Ends : (m : Memory) (t : Task) (net : Net) → Ends net (files_packet m t net)
unfolding files_packet
files-Ends m t net = go t.file (leb (24 + size_of_int (get_u32 m 20)) t.buf.mem_len)
  where
    go :
        (o : Option (List ℕ)) (b : Bool)
        → Ends net (
            deref o >>= λ content.
            (if b then returns (load m 24 (size_of_int (get_u32 m 20))) else fault) >>= λ bytes.
            returns (
              record t {
                file = some (content ++ bytes);
                recv_data_len = add_int t.recv_data_len (get_u32 m 20);
              },
              net,
            ))
    go none b = tt
    go (some content) true = omega arith
    go (some content) false = tt

pub loginret-Ends :
    (m : Memory) (t : Task) (net : Net)
    → 2 ≤ chances net.answers
    → Ends net (loginret_packet m t net)
unfolding loginret_packet
loginret-Ends m t net c = go _ (
    send_cmd-Spends (code_of control_play) 0 (start_request (get_u32 m 28)) net
      (length-start_request (get_u32 m 28)) c)
  where
    go :
        (r : Run (ℤ × Net))
        → SpendsNet 2 net r
        → Ends net (r >>= λ (ret, net'). returns (record t { total_len = get_u32 m 28 }, net'))
    go (returns (ret, net')) h = h
    go fault h = absurd h
    go blocked h = h
