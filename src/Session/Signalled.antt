-- ===== src/Session/Signalled.antt =====
-- `onRead` of Session.cpp behind a packet without data, with TaskFileRecv.cpp as the session's task.
use files_event.Prelude.{
  ℕ, ◌+◌, ◌≡◌, refl, ap, arith, List, [], length, leb, ltb, ◌==◌, true, false, some, pos, returns,
  ◌>>=◌,
}
use files_event.Memory.{Memory, store, get_u32}
use files_event.Posix.{Net, Segment, got, recv}
use files_event.Transport.{recv_len}
use files_event.FileRecv.{Task, read_buffer, head_received, head_end, recv_mem_len}
use files_event.FileRecv.Head.{recv_pack_data_signalled}
use files_event.SessionTable.{Table}
use files_event.Session.{Session, receiving, Effect, ev_read, set_reading}
use files_event.Session.Requests.{Files}
use files_event.Session.Callbacks.{on_read, after_read, hang_up}

-- A client that waits for a head, and gets its last bytes in one piece, where the head announces no data: it
-- takes them and reports their number. But whatever the connection holds then, and also if the peer has not
-- closed, the next read event of a session with this task reads nothing and hangs up.
pub on_read_signalled :
    (t : Task) (m : Memory) (net : Net) (bs : List ℕ) (inbox : List Segment) (files : Files)
    (junk : Memory) (junk_len fd : ℕ) (s : Session) (table : Table) (next : Net)
    → t.buf.block ≡ some m
    → t.buf.mem_len ≡ recv_mem_len
    → t.buf.proc_cmmd ≡ true
    → recv (recv_len 16 t.buf.has_proc_len) net ≡ (got bs, inbox)
    → t.buf.has_proc_len + length bs ≡ 16
    → get_u32 (store m t.buf.has_proc_len bs) 12 ≡ 0
    → (t' : Task) × (read_buffer t net
        ≡ returns (pos (length bs), t', record net { inbox = inbox }))
      × (on_read files junk junk_len fd ev_read (record s { task = receiving t' }) table next ≡ (
          hang_up fd (set_reading false (record s { task = receiving t' })) table
          >>= λ (left, table', effects). returns (left, table', next, effects)))
unfolding read_buffer head_received head_end on_read after_read
    files_event.Session.Requests.read_buffer
on_read_signalled t m net bs inbox files junk junk_len fd s table next block size head_now here
      whole signal =
    let room : leb (t.buf.has_proc_len + length bs) t.buf.mem_len ≡ true = ground arith in
    let is_whole : (t.buf.has_proc_len + length bs == 16) ≡ true = ground arith in
    let no_data : ltb 0 (get_u32 (store m t.buf.has_proc_len bs) 12) ≡ false = ground arith in
    let filled : Memory = store m t.buf.has_proc_len bs in
    let t' : Task = record t {
      buf = record (t.buf) {
        has_proc_len = 0;
        total_len = get_u32 filled 12;
        proc_cmmd = false;
        block = some filled;
      };
    } in
    (
      t',
      rw (head_now, here, block, room, is_whole, no_data) refl,
      ap
          (λ r.
            r
            >>= (λ (ret, t', net').
                returns (ret, record s { task = receiving t'; reading = false }, net', []))
            >>= after_read fd table)
          (recv_pack_data_signalled t' next signal refl),
    )
