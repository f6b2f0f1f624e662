-- ===== src/FileSend/Frames.antt =====
-- What the write events of a `TaskFileSend` put on the wire.
use files_event.Prelude.{
  ℕ, ◌+◌, ◌-◌, ◌≤◌, ◌<◌, ◌≡◌, refl, ap₂, ◌∙◌, List, ◌++◌, leb, ◌==◌, true, false, some, length,
  arith, pos, returns, ltb_ℤ,
}
use files_event.Memory.{Memory, load, u32_bytes}
use files_event.Posix.{Net, Answer}
use files_event.Wire.{NetHead, head_bytes}
use files_event.Buffers.{reset, set_to_video}
use files_event.Transport.Sending.{Willing, send_ex-completes}
use files_event.FileSend.{Task, tcp_send_data, frame_head, loginret_bytes}

pub length-head_bytes : (h : NetHead) → length (head_bytes h) ≡ 16
unfolding head_bytes
length-head_bytes h = refl

pub length-frame_head : (position count : ℕ) → length (frame_head position count) ≡ 24
unfolding frame_head head_bytes u32_bytes
length-frame_head position count = refl

pub length-loginret_bytes : (len : ℕ) → length (loginret_bytes len) ≡ 1048
unfolding loginret_bytes head_bytes u32_bytes
length-loginret_bytes len = refl

leb-true : (a b : ℕ) → a ≤ b → leb a b ≡ true
leb-true a b h = ground arith

eq_true : (a b : ℕ) → a ≡ b → (a == b) ≡ true
eq_true a b h = ground arith

positive : (n : ℕ) → 0 < n → ltb_ℤ (pos 0) (pos n) ≡ true
positive n h = ground arith

-- A command of `n` bytes that stands at the start of the send buffer goes out whole, and the data
-- block is next.
pub cmd_goes_out :
    (bytes : List ℕ) (t : Task) (net : Net)
    → t.send.proc_cmmd ≡ true
    → t.send.has_proc_len ≡ 0
    → t.send.total_len ≡ length bytes
    → 0 < length bytes
    → length bytes ≤ 1500
    → load t.send.cmmd 0 (length bytes) ≡ bytes
    → Willing net.answers (length bytes)
    → (later : List Answer) × (tcp_send_data t net
        ≡ returns (
          pos (length bytes),
          record t { send = set_to_video t.send },
          record net { answers = later; wire = net.wire ++ bytes },
        ))
unfolding tcp_send_data set_to_video
cmd_goes_out bytes t net proc has total some_bytes fits holds w =
    let (later, e) = send_ex-completes bytes net w in
    (
      later,
      simp (
        proc,
        leb-true t.send.has_proc_len t.send.total_len (omega arith),
        leb-true (t.send.has_proc_len + (t.send.total_len - t.send.has_proc_len)) 1500
            (omega arith),
        ap₂ (load t.send.cmmd) has (rest_len t has total) ∙ holds,
        e,
        positive (length bytes) some_bytes,
        eq_true (t.send.has_proc_len + length bytes) t.send.total_len (omega arith),
      ),
    )
  where
    rest_len :
        (t : Task)
        → t.send.has_proc_len ≡ 0
        → t.send.total_len ≡ length bytes
        → t.send.total_len - t.send.has_proc_len ≡ length bytes
    rest_len t has total = omega arith

-- The data block goes out whole, and the buffer is empty.
pub data_goes_out :
    (m : Memory) (bytes : List ℕ) (t : Task) (net : Net)
    → t.send.proc_cmmd ≡ false
    → t.send.has_proc_len ≡ 0
    → t.send.total_len ≡ length bytes
    → 0 < length bytes
    → length bytes ≤ t.send.mem_len
    → t.send.block ≡ some m
    → load m 0 (length bytes) ≡ bytes
    → Willing net.answers (length bytes)
    → (later : List Answer) × (tcp_send_data t net
        ≡ returns (
          pos (length bytes),
          record t { send = reset t.send },
          record net { answers = later; wire = net.wire ++ bytes },
        ))
unfolding tcp_send_data reset
data_goes_out m bytes t net proc has total some_bytes fits block holds w =
    let (later, e) = send_ex-completes bytes net w in
    (
      later,
      simp (
        proc,
        block,
        leb-true t.send.has_proc_len t.send.total_len (omega arith),
        leb-true (t.send.has_proc_len + (t.send.total_len - t.send.has_proc_len)) t.send.mem_len
            (omega arith),
        ap₂ (load m) has (rest_len t has total) ∙ holds,
        e,
        positive (length bytes) some_bytes,
        eq_true (t.send.has_proc_len + length bytes) t.send.total_len (omega arith),
      ),
    )
  where
    rest_len :
        (t : Task)
        → t.send.has_proc_len ≡ 0
        → t.send.total_len ≡ length bytes
        → t.send.total_len - t.send.has_proc_len ≡ length bytes
    rest_len t has total = omega arith
