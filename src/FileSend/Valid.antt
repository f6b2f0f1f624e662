-- ===== src/FileSend/Valid.antt =====
-- The invariant of a `TaskFileSend` under which its write events stay within its buffers.
use files_event.Prelude.{
  ℕ, ◌-◌, ◌≤◌, ◌≡◌, refl, ◌⊎◌, inl, inr, ◌==◌, if◌then◌else◌, Bool, true, false, some, none, Option,
  arith, ℤ, pos, negsuc, Run, returns, fault, blocked,
}
use files_event.Memory.{Memory}
use files_event.Posix.{Net}
use files_event.Buffers.{FileProcBuffer, reset, set_to_video}
use files_event.FileSend.{Task, File, advance, cmd_sent, data_sent, frame_len}

-- What is under way lies in its buffer, and so do the data that come behind a command. A block that
-- is there has room for the next frame, of `next` bytes.
pub record Fits (b : FileProcBuffer) (next : ℕ) : Type 0 where
  pub within : b.has_proc_len ≤ b.total_len
  pub phase :
      ((b.proc_cmmd ≡ true) × (b.total_len ≤ 1500))
      ⊎ ((b.proc_cmmd ≡ false) × (b.total_len ≡ b.data_len))
  pub room :
      ((b.block ≡ none) × (b.data_len ≡ 0))
      ⊎ ((m : Memory) × (b.block ≡ some m) × (next ≤ b.mem_len) × (b.data_len ≤ b.mem_len))

-- As long as not all of the file's length was read, the file is open.
abbrev pub HasSource : Option File → ℕ → ℕ → Type 0
HasSource file len read = (len ≤ read) ⊎ ((f : File) × (file ≡ some f))

abbrev pub IsValid : Task → Type 0
IsValid t = Fits t.send (frame_len t) × HasSource t.file t.file_len t.has_read_len

-- The call stays within its buffers; it may still wait for the kernel.
abbrev pub Stays : Run (ℤ × Task × Net) → Type 0
Stays (returns (ret, t, net)) = IsValid t
Stays fault = ⊥
Stays blocked = Unit {0}

set_to_video-Fits : (b : FileProcBuffer) (next : ℕ) → Fits b next → Fits (set_to_video b) next
unfolding set_to_video
set_to_video-Fits b next k = record {
  within = omega arith;
  phase = inr (refl, refl);
  room = k.room;
}

reset-Fits : (b : FileProcBuffer) (next : ℕ) → Fits b next → Fits (reset b) next
unfolding reset
reset-Fits b next k = record {
  within = omega arith;
  phase = inl (refl, omega arith);
  room = room k.room;
}
  where
    room :
        ((b.block ≡ none) × (b.data_len ≡ 0))
          ⊎ ((m : Memory) × (b.block ≡ some m) × (next ≤ b.mem_len) × (b.data_len ≤ b.mem_len))
        → ((b.block ≡ none) × (◌≡◌ {A = ℕ} 0 0))
          ⊎ ((m : Memory) × (b.block ≡ some m) × (next ≤ b.mem_len) × (0 ≤ b.mem_len))
    room (inl (e, _)) = inl (e, refl)
    room (inr (m, e, h, _)) = inr (m, e, h, omega arith)

advanced-Fits :
    (b : FileProcBuffer) (next has : ℕ)
    → Fits b next
    → has ≤ b.total_len
    → Fits (record b { has_proc_len = has }) next
advanced-Fits b next has k h = record { within = h; phase = k.phase; room = k.room }

if-Fits :
    (c : Bool) (a b : FileProcBuffer) (next : ℕ)
    → Fits a next
    → Fits b next
    → Fits (if c then a else b) next
if-Fits true a b next k l = k
if-Fits false a b next k l = l

advance-le :
    (ret : ℤ) (has total : ℕ)
    → has ≤ total
    → (ret ≡ pos (total - has)) ⊎ (ret ≡ negsuc 0)
    → advance ret has ≤ total
advance-le ret has total h (inl e) = rw e (ground arith)
advance-le ret has total h (inr e) = rw e (ground arith)

pub cmd_sent-Stays :
    (t : Task) (net : Net) (ret : ℤ)
    → IsValid t
    → (ret ≡ pos (t.send.total_len - t.send.has_proc_len)) ⊎ (ret ≡ negsuc 0)
    → Stays (cmd_sent ret t net)
unfolding cmd_sent frame_len
cmd_sent-Stays t net ret (k, src) sent =
    let b : FileProcBuffer = record (t.send) { has_proc_len = advance ret t.send.has_proc_len } in
    let l : Fits b (frame_len t) =
      advanced-Fits t.send (frame_len t) (advance ret t.send.has_proc_len) k
        (advance-le ret t.send.has_proc_len t.send.total_len k.within sent) in
    (
      if-Fits (b.has_proc_len == b.total_len) (set_to_video b) b (frame_len t)
          (set_to_video-Fits b (frame_len t) l) l,
      src,
    )

pub data_sent-Stays :
    (t : Task) (net : Net) (ret : ℤ)
    → IsValid t
    → (ret ≡ pos (t.send.total_len - t.send.has_proc_len)) ⊎ (ret ≡ negsuc 0)
    → Stays (data_sent ret t net)
unfolding data_sent frame_len
data_sent-Stays t net ret (k, src) sent =
    let b : FileProcBuffer = record (t.send) { has_proc_len = advance ret t.send.has_proc_len } in
    let l : Fits b (frame_len t) =
      advanced-Fits t.send (frame_len t) (advance ret t.send.has_proc_len) k
        (advance-le ret t.send.has_proc_len t.send.total_len k.within sent) in
    (
      if-Fits (b.has_proc_len == b.total_len) (reset b) b (frame_len t)
          (reset-Fits b (frame_len t) l) l,
      src,
    )
