-- ===== src/FileSend/Bounds.antt =====
-- Write events of a `TaskFileSend` stay within its buffers, whatever the kernel answers.
use files_event.Prelude.{
  ℕ, ◌+◌, ◌-◌, ◌≤◌, ◌<◌, ◌≡◌, refl, ap, sym, subst, ◌∙◌, ◌⊎◌, inl, inr, List, [], ◌∷◌, ltb, ◌==◌,
  true, false, some, none, length, drop, arith, ℤ, pos, negsuc, Run, returns, fault, blocked, ◌>>=◌,
  length-take, Bool-cases,
}
use files_event.Memory.{Memory, load, length-load}
use files_event.Posix.{Net}
use files_event.Wire.{code_of, dataend}
use files_event.Transport.{send_ex}
use files_event.Transport.Sending.{SentOver, send_ex-SentOver}
use files_event.FileSend.{
  Task, File, put_cmd, tcp_send_data, cmd_sent, data_sent, frame_len, fread, signal_bytes,
  send_queued, write_buffer, take_new, prepare_frame, push_send_cmd, send_varied_cmd, own_sock_exit,
}
use files_event.FileSend.Events.{true-leb, prepare_frame_lem, prepared, moved_on, frame_len_mono}
use files_event.FileSend.Valid.{HasSource, IsValid, Stays, cmd_sent-Stays, data_sent-Stays}

-- The bytes sent are as many as were loaded.
sent_of :
    (m : Memory) (off n : ℕ) (net net' : Net) (ret : ℤ)
    → SentOver (load m off n) net (returns (ret, net'))
    → (ret ≡ pos n) ⊎ (ret ≡ negsuc 0)
sent_of m off n net net' ret (i, o, inl (e, w)) = inl (e ∙ ap pos (length-load m off n))
sent_of m off n net net' ret (i, o, inr (e, u, w)) = inr e

cmd-Stays :
    (t : Task) (net : Net)
    → IsValid t
    → t.send.proc_cmmd ≡ true
    → t.send.total_len ≤ 1500
    → Stays (tcp_send_data t net)
unfolding tcp_send_data
cmd-Stays t net v now small =
    subst Stays (sym calls) (go (send_ex bytes net) (send_ex-SentOver bytes net))
  where
    bytes : List ℕ
    bytes = load t.send.cmmd t.send.has_proc_len (t.send.total_len - t.send.has_proc_len)

    calls : tcp_send_data t net ≡ (send_ex bytes net >>= λ (ret, net'). cmd_sent ret t net')
    calls = simp (
      now,
      true-leb t.send.has_proc_len t.send.total_len v.0.within,
      true-leb (t.send.has_proc_len + (t.send.total_len - t.send.has_proc_len)) 1500
          (omega (arith, v.0.within)),
    )

    go :
        (r : Run (ℤ × Net))
        → SentOver bytes net r
        → Stays (r >>= λ (ret, net'). cmd_sent ret t net')
    go (returns (ret, net')) h = cmd_sent-Stays t net' ret v (sent_of _ _ _ net net' ret h)
    go fault h = h
    go blocked h = tt

data-Stays :
    (t : Task) (net : Net) (m : Memory)
    → IsValid t
    → t.send.proc_cmmd ≡ false
    → t.send.block ≡ some m
    → t.send.total_len ≤ t.send.mem_len
    → Stays (tcp_send_data t net)
unfolding tcp_send_data
data-Stays t net m v now here small =
    subst Stays (sym calls) (go (send_ex bytes net) (send_ex-SentOver bytes net))
  where
    bytes : List ℕ
    bytes = load m t.send.has_proc_len (t.send.total_len - t.send.has_proc_len)

    calls : tcp_send_data t net ≡ (send_ex bytes net >>= λ (ret, net'). data_sent ret t net')
    calls = simp (
      now,
      here,
      true-leb t.send.has_proc_len t.send.total_len v.0.within,
      true-leb (t.send.has_proc_len + (t.send.total_len - t.send.has_proc_len)) t.send.mem_len
          (omega (arith, v.0.within)),
    )

    go :
        (r : Run (ℤ × Net))
        → SentOver bytes net r
        → Stays (r >>= λ (ret, net'). data_sent ret t net')
    go (returns (ret, net')) h = data_sent-Stays t net' ret v (sent_of _ _ _ net net' ret h)
    go fault h = h
    go blocked h = tt

-- What is under way goes on.
more-Stays : (t : Task) (net : Net) → IsValid t → 0 < t.send.total_len → Stays (tcp_send_data t net)
more-Stays t net v some_left = go v.0.phase v.0.room
  where
    go :
        ((t.send.proc_cmmd ≡ true) × (t.send.total_len ≤ 1500))
          ⊎ ((t.send.proc_cmmd ≡ false) × (t.send.total_len ≡ t.send.data_len))
        → ((t.send.block ≡ none) × (t.send.data_len ≡ 0))
          ⊎ ((m : Memory) × (t.send.block ≡ some m)
              × (frame_len t ≤ t.send.mem_len)
              × (t.send.data_len ≤ t.send.mem_len))
        → Stays (tcp_send_data t net)
    go (inl (now, small)) r = cmd-Stays t net v now small
    go (inr (now, e)) (inl (gone, z)) = absurd (omega arith)
    go (inr (now, e)) (inr (m, here, a, b)) = data-Stays t net m v now here (omega arith)

-- A command without data is put over whatever was under way at its start.
pub put-Stays :
    (bytes : List ℕ) (total : ℕ) (t : Task) (net : Net)
    → IsValid t
    → t.send.has_proc_len ≤ total
    → total ≤ 1500
    → Stays (tcp_send_data (put_cmd bytes total t) net)
unfolding frame_len
put-Stays bytes total t net v h small =
    cmd-Stays (put_cmd bytes total t) net
      (record { within = h; phase = inl (refl, small); room = v.0.room }, v.1) refl small

prepared-Stays :
    (junk : Memory) (t : Task) (f : File) (net : Net)
    → IsValid t
    → t.file ≡ some f
    → t.send.has_proc_len ≡ 0
    → Stays (prepare_frame junk t >>= λ t'. tcp_send_data t' net)
prepared-Stays junk t f net v opened idle =
    let chunk : List ℕ = fread (frame_len t) f in
    let (m, len, enough, e) = prepare_frame_lem junk t f opened (room v.0.room) in
    let t' : Task = prepared m len t f chunk in
    let less : length chunk ≤ frame_len t =
      omega (arith, length-take (frame_len t) (drop f.position f.content)) in
    let next : frame_len t' ≤ frame_len t = frame_len_mono t t' (length chunk) refl refl in
    rw e (
      cmd-Stays t' net
        (
          record {
            within = omega arith;
            phase = inl (refl, omega arith);
            room = inr (_, refl, omega arith, omega arith);
          },
          inr (moved_on f chunk, refl),
        )
        refl (omega arith))
  where
    room :
        ((t.send.block ≡ none) × (t.send.data_len ≡ 0))
          ⊎ ((m : Memory) × (t.send.block ≡ some m)
              × (frame_len t ≤ t.send.mem_len)
              × (t.send.data_len ≤ t.send.mem_len))
        → (t.send.block ≡ none)
          ⊎ ((m : Memory) × (t.send.block ≡ some m) × (frame_len t ≤ t.send.mem_len))
    room (inl (e, _)) = inl e
    room (inr (m, e, h, _)) = inr (m, e, h)

queued-Stays :
    (t : Task) (net : Net) (q : List ℕ)
    → IsValid t
    → t.send.has_proc_len ≡ 0
    → Stays (send_queued t net q)
unfolding send_varied_cmd frame_len
queued-Stays t net [] v idle = v
queued-Stays t net (val ∷ rest) v idle =
    put-Stays (signal_bytes val 0) 16 (record t { queue = rest }) net v (omega arith) (omega arith)

ended-Stays :
    (t : Task) (net : Net)
    → IsValid t
    → t.send.has_proc_len ≡ 0
    → Stays (
        push_send_cmd (code_of dataend) 0 t net >>= λ (ret, t', net').
        returns (own_sock_exit, t', net'))
unfolding push_send_cmd
ended-Stays t net v idle =
    go (tcp_send_data (put_cmd (signal_bytes (code_of dataend) 0) 16 t) net)
      (put-Stays (signal_bytes (code_of dataend) 0) 16 t net v (omega arith) (omega arith))
  where
    go :
        (r : Run (ℤ × Task × Net))
        → Stays r
        → Stays (r >>= λ (ret, t', net'). returns (own_sock_exit, t', net'))
    go (returns (ret, t', net')) h = h
    go fault h = h
    go blocked h = tt

take_new-Stays :
    (junk : Memory) (t : Task) (net : Net)
    → IsValid t
    → t.send.has_proc_len ≡ 0
    → Stays (take_new junk t net)
unfolding take_new
take_new-Stays junk t net v idle = elim (Bool-cases (ltb t.has_read_len t.file_len)) [
  | inr done ↦ subst Stays (sym (simp done)) (ended-Stays t net v idle)
  | inl more ↦ elim (Bool-cases (ltb 0 (length t.queue))) [
    | inl waiting ↦ subst Stays (sym (simp (more, waiting))) (queued-Stays t net t.queue v idle)
    | inr none_waits ↦ elim (Bool-cases t.sending_data) [
      | inr paused ↦
          subst Stays {x = returns (pos 0, t, net)} (sym (simp (more, none_waits, paused))) v
      | inl on ↦ subst Stays (sym (simp (more, none_waits, on))) (from v.1 (ground arith))
    ]
  ]
]
  where
    from :
        HasSource t.file t.file_len t.has_read_len
        → t.has_read_len < t.file_len
        → Stays (prepare_frame junk t >>= λ t'. tcp_send_data t' net)
    from (inl h) more = absurd (omega arith)
    from (inr (f, e)) more = prepared-Stays junk t f net v e idle

-- A write event, in any state that keeps the invariant and whatever the kernel answers, reads and writes only
-- inside the command buffer and the data block, never through a null pointer, and keeps the
-- invariant.
pub write_buffer-IsValid :
    (junk : Memory) (t : Task) (net : Net) → IsValid t → Stays (write_buffer junk t net)
unfolding write_buffer
write_buffer-IsValid junk t net v = elim (Bool-cases (t.send.total_len == 0)) [
  | inl none_left ↦
      rw none_left (take_new-Stays junk t net v (omega (arith, is_zero none_left, v.0.within)))
  | inr some_left ↦ rw some_left (more-Stays t net v (ground arith))
]
  where
    is_zero : (t.send.total_len == 0) ≡ true → t.send.total_len ≡ 0
    is_zero h = ground arith
