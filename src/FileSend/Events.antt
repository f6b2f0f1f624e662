-- ===== src/FileSend/Events.antt =====
-- Write events of a `TaskFileSend`: the two events of a frame.
use files_event.Prelude.{
  ℕ, ◌+◌, ◌-◌, ◌≤◌, ◌<◌, ◌≡◌, refl, ap, sym, ◌∙◌, ◌⊎◌, inl, inr, List, [], ◌++◌, ltb, leb, true,
  false, some, none, length, drop, arith, pos, returns, length-take, replicate,
}
use files_event.Memory.{Memory, store, load, load-store}
use files_event.Posix.{Net, Answer}
use files_event.Buffers.{FileProcBuffer, reset, set_to_video, create_mem}
use files_event.Transport.Sending.{Willing}
use files_event.FileSend.{
  Task, File, tcp_send_data, frame_head, frame_len, fread, write_buffer, take_new, prepare_frame,
}
use files_event.FileSend.Frames.{cmd_goes_out, data_goes_out, length-frame_head}

-- Nothing is under way: the next write event takes a frame from `f`, for which there is room.
pub record Idle (t : Task) (f : File) : Type 0 where
  pub empty : t.send.total_len ≡ 0
  pub at_start : t.send.has_proc_len ≡ 0
  pub no_data : t.send.data_len ≡ 0
  pub opened : t.file ≡ some f
  pub quiet : t.queue ≡ []
  pub sending : t.sending_data ≡ true
  pub room :
      (t.send.block ≡ none)
      ⊎ ((m : Memory) × (t.send.block ≡ some m) × (frame_len t ≤ t.send.mem_len))

-- The head of the frame of `chunk` is out, and `chunk` is in the data block.
pub record Loaded (t : Task) (f : File) (chunk : List ℕ) : Type 0 where
  pub block_bytes : Memory
  pub length_now : t.send.total_len ≡ length chunk
  pub data_now : t.send.data_len ≡ length chunk
  pub proc_data : t.send.proc_cmmd ≡ false
  pub at_start : t.send.has_proc_len ≡ 0
  pub block : t.send.block ≡ some block_bytes
  pub holds : load block_bytes 0 (length chunk) ≡ chunk
  pub fits : length chunk ≤ t.send.mem_len
  pub opened : t.file ≡ some f
  pub quiet : t.queue ≡ []
  pub sending : t.sending_data ≡ true
  pub block_room : frame_len t ≤ t.send.mem_len

abbrev pub moved_on : File → List ℕ → File
moved_on f chunk = record f { position = f.position + length chunk }

-- What `prepareFrame` leaves, with `m` the block before and `len` its size.
abbrev pub prepared : Memory → ℕ → Task → File → List ℕ → Task
prepared m len t f chunk = record t {
  send = record (t.send) {
    cmmd = store t.send.cmmd 0 (frame_head f.position (length chunk));
    total_len = 24;
    proc_cmmd = true;
    data_len = length chunk;
    block = some (store (store m 0 (replicate (frame_len t) 0)) 0 chunk);
    mem_len = len;
  };
  file = some (moved_on f chunk);
  has_read_len = t.has_read_len + length chunk;
  frame_count = t.frame_count + 1;
}

pub true-leb : (a b : ℕ) → a ≤ b → leb a b ≡ true
true-leb a b h = ground arith

true-ltb : (a b : ℕ) → a < b → ltb a b ≡ true
true-ltb a b h = ground arith

pub false-ltb : (a b : ℕ) → b ≤ a → ltb a b ≡ false
false-ltb a b h = ground arith

pub create_mem-none :
    (len : ℕ) (junk : Memory) (b : FileProcBuffer)
    → b.block ≡ none
    → create_mem len junk b ≡ record b { block = some junk; mem_len = len }
unfolding create_mem
create_mem-none len junk b e = ground arith

pub create_mem-some :
    (len : ℕ) (junk m : Memory) (b : FileProcBuffer) → b.block ≡ some m → create_mem len junk b ≡ b
unfolding create_mem
create_mem-some len junk m b e = ground arith

pub prepare_frame_lem :
    (junk : Memory) (t : Task) (f : File)
    → t.file ≡ some f
    → (t.send.block ≡ none)
      ⊎ ((m : Memory) × (t.send.block ≡ some m) × (frame_len t ≤ t.send.mem_len))
    → (m : Memory) × (len : ℕ) × (frame_len t ≤ len)
      × (prepare_frame junk t ≡ returns (prepared m len t f (fread (frame_len t) f)))
unfolding prepare_frame
prepare_frame_lem junk t f opened (inl e) = (
  junk,
  frame_len t,
  omega arith,
  simp (
    opened,
    create_mem-none (frame_len t) junk t.send e,
    true-leb (frame_len t) (frame_len t) (omega arith),
  ),
)
prepare_frame_lem junk t f opened (inr (m, e, h)) = (
  m,
  t.send.mem_len,
  h,
  simp (
    opened,
    create_mem-some (frame_len t) junk m t.send e,
    e,
    true-leb (frame_len t) t.send.mem_len h,
  ),
)

take_new_frame :
    (junk : Memory) (t : Task) (f : File) (net : Net) (t' : Task)
    → Idle t f
    → t.has_read_len < t.file_len
    → prepare_frame junk t ≡ returns t'
    → take_new junk t net ≡ tcp_send_data t' net
unfolding take_new
take_new_frame junk t f net t' i more e =
    simp (true-ltb t.has_read_len t.file_len more, i.quiet, i.sending, e)

pub write_buffer_new :
    (junk : Memory) (t : Task) (net : Net)
    → t.send.total_len ≡ 0
    → write_buffer junk t net ≡ take_new junk t net
unfolding write_buffer
write_buffer_new junk t net e = simp e

write_buffer_more :
    (junk : Memory) (t : Task) (net : Net)
    → 0 < t.send.total_len
    → write_buffer junk t net ≡ tcp_send_data t net
unfolding write_buffer
write_buffer_more junk t net h = ground arith

frame_len-le : (t : Task) → frame_len t ≤ t.file_len - t.has_read_len
unfolding frame_len
frame_len-le t = ground arith

pub frame_len_mono :
    (t t' : Task) (n : ℕ)
    → t'.file_len ≡ t.file_len
    → t'.has_read_len ≡ t.has_read_len + n
    → frame_len t' ≤ frame_len t
unfolding frame_len
frame_len_mono t t' n e h = ground arith

-- The first write event for a frame: when nothing is under way, the file has more and the kernel
-- takes 24 bytes, exactly the frame's head goes out, for the next `frame_len` bytes of the file or
-- what there is of them; those bytes are in the data block, and the file has moved on behind them.
pub frame_event :
    (junk : Memory) (t : Task) (f : File) (net : Net)
    → Idle t f
    → t.has_read_len < t.file_len
    → Willing net.answers 24
    → let chunk = fread (frame_len t) f in
      (later : List Answer) × (t' : Task) × (write_buffer junk t net
        ≡ returns (
          pos 24,
          t',
          record net { answers = later; wire = net.wire ++ frame_head f.position (length chunk) },
        ))
      × Loaded t' (moved_on f chunk) chunk
      × (t'.file_len ≡ t.file_len)
      × (t'.has_read_len ≡ t.has_read_len + length chunk)
unfolding set_to_video
frame_event junk t f net i more w =
    let chunk : List ℕ = fread (frame_len t) f in
    let (m, len, roomy, e) = prepare_frame_lem junk t f i.opened i.room in
    let t' : Task = prepared m len t f chunk in
    let head : List ℕ = frame_head f.position (length chunk) in
    let sized : length head ≡ 24 = length-frame_head f.position (length chunk) in
    let (later, out) =
      cmd_goes_out head t' net refl i.at_start (sym sized) (omega (arith, sized))
        (omega (arith, sized)) (load-store t.send.cmmd 0 head) (rw sized w) in
    (
      later,
      record t' { send = set_to_video t'.send },
      write_buffer_new junk t net i.empty
          ∙ take_new_frame junk t f net t' i more e
          ∙ out
          ∙ ap
              (λ n. returns (
                pos n,
                record t' { send = set_to_video t'.send },
                record net { answers = later; wire = net.wire ++ head },
              ))
              sized,
      record {
        block_bytes = store (store m 0 (replicate (frame_len t) 0)) 0 chunk;
        length_now = refl;
        data_now = refl;
        proc_data = refl;
        at_start = refl;
        block = refl;
        holds = load-store (store m 0 (replicate (frame_len t) 0)) 0 chunk;
        fits = omega (arith, length-take (frame_len t) (drop f.position f.content));
        opened = refl;
        quiet = i.quiet;
        sending = i.sending;
        block_room = omega (
          arith,
          frame_len_mono t (record t' { send = set_to_video t'.send }) (length chunk) refl refl,
        );
      },
      refl,
      refl,
    )

-- The second one: when the frame's bytes are in the data block and the kernel takes them, exactly
-- they go out, and nothing is under way again.
pub data_event :
    (junk : Memory) (t : Task) (f : File) (chunk : List ℕ) (net : Net)
    → Loaded t f chunk
    → 0 < length chunk
    → Willing net.answers (length chunk)
    → (later : List Answer) × (t' : Task) × (write_buffer junk t net
        ≡ returns
            (pos (length chunk), t', record net { answers = later; wire = net.wire ++ chunk }))
      × Idle t' f
      × (t'.file_len ≡ t.file_len)
      × (t'.has_read_len ≡ t.has_read_len)
unfolding reset
data_event junk t f chunk net l some_bytes w =
    let (later, out) =
      data_goes_out l.block_bytes chunk t net l.proc_data l.at_start l.length_now some_bytes l.fits
        l.block l.holds w in
    (
      later,
      record t { send = reset t.send },
      write_buffer_more junk t net (omega (arith, l.length_now)) ∙ out,
      record {
        empty = refl;
        at_start = refl;
        no_data = refl;
        opened = l.opened;
        quiet = l.quiet;
        sending = l.sending;
        room = inr (
          l.block_bytes,
          l.block,
          omega (
            arith,
            l.block_room,
            frame_len_mono t (record t { send = reset t.send }) 0 refl (omega arith),
          ),
        );
      },
      refl,
      refl,
    )
