-- ===== src/FileSend/Ends.antt =====
-- The first and the last thing that a `TaskFileSend` sends: the reply to a request, and the end signal.
use files_event.Prelude.{
  ℕ, ◌%◌, ◌^◌, ◌≤◌, ◌≡◌, refl, sym, ◌∙◌, inl, List, [], ◌++◌, true, some, none, Option, length,
  arith, ℤ, pos, returns,
}
use mathlib.Core.Option
use files_event.Memory.{Memory, load-store}
use files_event.Posix.{Net, Answer}
use files_event.Wire.{code_of, dataend}
use files_event.Buffers.{set_to_video}
use files_event.Transport.Sending.{Willing}
use files_event.FileSend.{
  Task, File, put_cmd, tcp_send_data, loginret_bytes, signal_bytes, write_buffer, take_new,
  push_send_cmd, set_fetch_file, own_sock_exit,
}
use files_event.FileSend.Frames.{cmd_goes_out, length-loginret_bytes, length-head_bytes}
use files_event.FileSend.Events.{false-ltb, write_buffer_new, Idle}

push_end :
    (t : Task) (net : Net)
    → push_send_cmd (code_of dataend) 0 t net
      ≡ tcp_send_data (put_cmd (signal_bytes (code_of dataend) 0) 16 t) net
unfolding push_send_cmd
push_end t net = refl

take_new_end :
    (junk : Memory) (t : Task) (net net' : Net) (t' : Task) (ret : ℤ)
    → t.file_len ≤ t.has_read_len
    → push_send_cmd (code_of dataend) 0 t net ≡ returns (ret, t', net')
    → take_new junk t net ≡ returns (own_sock_exit, t', net')
unfolding take_new
take_new_end junk t net net' t' ret done e = simp (false-ltb t.has_read_len t.file_len done, e)

-- The last write event: when nothing is under way, the whole file has been read and the kernel takes
-- 16 bytes, the end signal goes out, and the event returns OWN_SOCK_EXIT.
pub end_event :
    (junk : Memory) (t : Task) (f : File) (net : Net)
    → Idle t f
    → t.file_len ≤ t.has_read_len
    → Willing net.answers 16
    → (later : List Answer) × (t' : Task) × (write_buffer junk t net
        ≡ returns (
          own_sock_exit,
          t',
          record net { answers = later; wire = net.wire ++ signal_bytes (code_of dataend) 0 },
        ))
end_event junk t f net i done w =
    let bytes : List ℕ = signal_bytes (code_of dataend) 0 in
    let t₁ : Task = put_cmd bytes 16 t in
    let sized : length bytes ≡ 16 = length-head_bytes _ in
    let (later, out) =
      cmd_goes_out bytes t₁ net refl i.at_start (sym sized) (omega (arith, sized))
        (omega (arith, sized)) (load-store t.send.cmmd 0 bytes) (rw sized w) in
    (
      later,
      record t₁ { send = set_to_video t₁.send },
      write_buffer_new junk t net i.empty
          ∙ take_new_end junk t net _ _ _ done (push_end t net ∙ out),
    )

-- The task behind its reply, whether the file opened or not.
abbrev pub asked : Option (List ℕ) → ℕ → Task → Task
asked opened st_size t = put_cmd (loginret_bytes (st_size % 2 ^ 32)) 1048 (record t {
  file = Option.map (λ content. record { content = content; position = 0 }) opened;
  file_len = st_size % 2 ^ 32;
})

pub reply_out :
    (opened : Option (List ℕ)) (st_size : ℕ) (t : Task) (net : Net)
    → t.file ≡ none
    → t.send.has_proc_len ≡ 0
    → Willing net.answers 1048
    → (later : List Answer) × (set_fetch_file opened st_size t net
        ≡ returns (
          pos 0,
          record (asked opened st_size t) { send = set_to_video (asked opened st_size t).send },
          record net { answers = later; wire = net.wire ++ loginret_bytes (st_size % 2 ^ 32) },
        ))
unfolding set_fetch_file
reply_out opened st_size t net closed has w =
    let bytes : List ℕ = loginret_bytes (st_size % 2 ^ 32) in
    let sized : length bytes ≡ 1048 = length-loginret_bytes (st_size % 2 ^ 32) in
    let (later, out) =
      cmd_goes_out bytes (asked opened st_size t) net refl has (sym sized) (omega (arith, sized))
        (omega (arith, sized)) (load-store t.send.cmmd 0 bytes) (rw sized w) in
    (later, simp (closed, out))

-- The reply to a request, on a task that has no file, no data block, no queued command and nothing
-- under way, and with a kernel that takes its 1048 bytes: it tells the file's length modulo 2 ^ 32,
-- `setFetchFile` returns 0, and the task is ready for the first frame.
pub reply_event :
    (content : List ℕ) (st_size : ℕ) (t : Task) (net : Net)
    → t.file ≡ none
    → t.send.has_proc_len ≡ 0
    → t.send.data_len ≡ 0
    → t.send.block ≡ none
    → t.queue ≡ []
    → t.sending_data ≡ true
    → Willing net.answers 1048
    → (later : List Answer) × (t' : Task) × (set_fetch_file (some content) st_size t net
        ≡ returns (
          pos 0,
          t',
          record net { answers = later; wire = net.wire ++ loginret_bytes (st_size % 2 ^ 32) },
        ))
      × Idle t' (record { content = content; position = 0 })
      × (t'.file_len ≡ st_size % 2 ^ 32)
      × (t'.has_read_len ≡ t.has_read_len)
unfolding set_to_video
reply_event content st_size t net closed has no_data no_block quiet sending w =
    let (later, out) = reply_out (some content) st_size t net closed has w in
    (
      later,
      record (asked (some content) st_size t) {
        send = set_to_video (asked (some content) st_size t).send;
      },
      out,
      record {
        empty = no_data;
        at_start = refl;
        no_data = no_data;
        opened = refl;
        quiet = quiet;
        sending = sending;
        room = inl no_block;
      },
      refl,
      refl,
    )
