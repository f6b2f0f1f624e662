-- ===== src/FileRecv/Ending.antt =====
-- A read event of `TaskFileRecv` ends.
use files_event.Prelude.{
  ◌+◌, ◌≤◌, List, arith, length, ltb, leb, ◌==◌, if◌then◌else◌, true, false, Bool, ℤ, pos, returns,
  fault, ◌>>=◌, Option, none, some, deref,
}
use files_event.Memory.{Memory, get_u32, store}
use files_event.Posix.{Net, Segment, Received, got, closed, failed, recv}
use files_event.Wire.{code_of, files, loginret}
use files_event.Transport.{recv_len}
use files_event.Transport.Waiting.{chances}
use files_event.FileRecv.{
  Task, packet_end, body_received, recv_pack_data, head_end, head_received, read_buffer,
}
use files_event.FileRecv.Waiting.{
  reset-Ends, Ends-if, ends_either, files-Ends, loginret-Ends, EndsTask,
}

packet_end_ends :
    (m : Memory) (ret : ℤ) (t : Task) (net : Net)
    → 2 ≤ chances net.answers
    → EndsTask net (packet_end m ret t net)
unfolding packet_end
packet_end_ends m ret t net c = reset-Ends ret net _ (
    Ends-if (get_u32 m 4 == code_of files) net _ _ (files-Ends m t net)
      (Ends-if (get_u32 m 4 == code_of loginret) net _ _ (loginret-Ends m t net c) (omega arith)))

body_ends :
    (t : Task) (net : Net) (r : Received × List Segment)
    → 2 ≤ chances net.answers
    → EndsTask net (body_received t net r)
unfolding body_received
body_ends t net (got bs, inbox) c =
    go t.buf.block (leb (16 + t.buf.has_proc_len + length bs) t.buf.mem_len)
  where
    behind : Memory → Task
    behind m = record t {
      buf = record (t.buf) {
        has_proc_len = t.buf.has_proc_len + length bs;
        block = some (store m (16 + t.buf.has_proc_len) bs);
      };
    }

    go :
        (o : Option Memory) (b : Bool)
        → EndsTask net (
            deref o >>= λ m.
            (if b then returns (store m (16 + t.buf.has_proc_len) bs) else fault) >>= λ m'.
            (if t.buf.has_proc_len + length bs == t.buf.total_len
              then packet_end m'
                  (pos (length bs))
                  (record t {
                    buf = record (t.buf) {
                      has_proc_len = t.buf.has_proc_len + length bs;
                      block = some m';
                    };
                  })
                  (record net { inbox = inbox })
              else returns (
                pos (length bs),
                record t {
                  buf = record (t.buf) {
                    has_proc_len = t.buf.has_proc_len + length bs;
                    block = some m';
                  };
                },
                record net { inbox = inbox },
              )))
    go none b = tt
    go (some m) true =
        ends_either (t.buf.has_proc_len + length bs == t.buf.total_len) net _ _
          (packet_end_ends (store m (16 + t.buf.has_proc_len) bs) (pos (length bs)) (behind m)
            (record net { inbox = inbox }) c)
          (omega arith)
    go (some m) false = tt
body_ends t net (closed, inbox) c = omega arith
body_ends t net (failed, inbox) c = omega arith

recv_pack_data_ends :
    (t : Task) (net : Net) → 2 ≤ chances net.answers → EndsTask net (recv_pack_data t net)
unfolding recv_pack_data
recv_pack_data_ends t net c =
    body_ends t net (recv (recv_len t.buf.total_len t.buf.has_proc_len) net) c

head_end_ends :
    (m : Memory) (ret : ℤ) (t : Task) (net : Net)
    → 2 ≤ chances net.answers
    → EndsTask net (head_end m ret t net)
unfolding head_end
head_end_ends m ret t net c =
    ends_either (ltb 0 (get_u32 m 12)) net _ _ (recv_pack_data_ends _ net c) (omega arith)

head_ends :
    (t : Task) (net : Net) (r : Received × List Segment)
    → 2 ≤ chances net.answers
    → EndsTask net (head_received t net r)
unfolding head_received
head_ends t net (got bs, inbox) c =
    go t.buf.block (leb (t.buf.has_proc_len + length bs) t.buf.mem_len)
  where
    behind : Memory → Task
    behind m = record t {
      buf = record (t.buf) {
        has_proc_len = t.buf.has_proc_len + length bs;
        block = some (store m t.buf.has_proc_len bs);
      };
    }

    go :
        (o : Option Memory) (b : Bool)
        → EndsTask net (
            deref o >>= λ m.
            (if b then returns (store m t.buf.has_proc_len bs) else fault) >>= λ m'.
            (if t.buf.has_proc_len + length bs == 16
              then head_end m'
                  (pos (length bs))
                  (record t {
                    buf = record (t.buf) {
                      has_proc_len = t.buf.has_proc_len + length bs;
                      block = some m';
                    };
                  })
                  (record net { inbox = inbox })
              else returns (
                pos (length bs),
                record t {
                  buf = record (t.buf) {
                    has_proc_len = t.buf.has_proc_len + length bs;
                    block = some m';
                  };
                },
                record net { inbox = inbox },
              )))
    go none b = tt
    go (some m) true =
        ends_either (t.buf.has_proc_len + length bs == 16) net _ _
          (head_end_ends (store m t.buf.has_proc_len bs) (pos (length bs)) (behind m)
            (record net { inbox = inbox }) c)
          (omega arith)
    go (some m) false = tt
head_ends t net (closed, inbox) c = omega arith
head_ends t net (failed, inbox) c = omega arith

-- With two chances left for what it may send, a read event does not wait for ever, and uses up two
-- at most.
pub read_buffer-EndsTask :
    (t : Task) (net : Net) → 2 ≤ chances net.answers → EndsTask net (read_buffer t net)
unfolding read_buffer
read_buffer-EndsTask t net c =
    ends_either t.buf.proc_cmmd net _ _
      (head_ends t net (recv (recv_len 16 t.buf.has_proc_len) net) c) (recv_pack_data_ends t net c)
