-- ===== src/FileSend/Failing.antt =====
-- What TaskFileSend.cpp does with a file that it cannot open, and with one that is shorter than `stat` said.
use files_event.Prelude.{
  ℕ, zero, suc, ◌+◌, ◌%◌, ◌^◌, ◌<◌, ◌≡◌, refl, ap, sym, subst, ◌∙◌, append_assoc, append-nil,
  take_all, inr, List, [], ◌∷◌, ◌++◌, arith, length, drop, take, true, some, none, ltb, pos, Run,
  returns, fault, ◌>>=◌,
}
use files_event.Memory.{Memory}
use files_event.Posix.{Net, Answer}
use files_event.Buffers.{set_to_video}
use files_event.Transport.Sending.{Willing}
use files_event.FileSend.{
  Task, File, new, set_fetch_file, loginret_bytes, write_buffer, take_new, prepare_frame,
  frame_head, frame_len, fread,
}
use files_event.FileSend.Events.{Idle, Loaded, moved_on, frame_event}
use files_event.FileSend.Ends.{reply_out}

-- A file that exists but cannot be opened, and whose length is not 0: the reply tells its length, and
-- then the next write event asks for the position in a file that is null.
pub unopened_faults :
    (st_size : ℕ) (junk : Memory) (junk_len : ℕ) (net : Net)
    → 0 < st_size % 2 ^ 32
    → Willing net.answers 1048
    → (later : List Answer) × (t : Task) × (set_fetch_file none st_size (new junk junk_len) net
        ≡ returns (
          pos 0,
          t,
          record net { answers = later; wire = net.wire ++ loginret_bytes (st_size % 2 ^ 32) },
        ))
      × ((net' : Net) → write_buffer junk t net' ≡ fault)
unfolding new set_to_video write_buffer take_new prepare_frame
unopened_faults st_size junk junk_len net some_bytes w =
    let (later, out) = reply_out none st_size (new junk junk_len) net refl refl w in
    let more : ltb 0 (st_size % 2 ^ 32) ≡ true = ground arith in
    (later, _, out, λ net'. rw more refl)

-- One write event for each list of answers.
unfoldable pub write_events : Memory → List (List Answer) → Task → Net → Run (Task × Net)
write_events junk [] t net = returns (t, net)
write_events junk (a ∷ more) t net = do
  (_, t', net') ← write_buffer junk t (record net { answers = a })
  write_events junk more t' net'

-- Heads of frames without data.
unfoldable pub empty_frames : ℕ → ℕ → List ℕ
empty_frames zero position = []
empty_frames (suc n) position = frame_head position 0 ++ empty_frames n position

abbrev pub AllWilling : List (List Answer) → ℕ → Type 0
AllWilling [] n = Unit {0}
AllWilling (a ∷ more) n = Willing a n × AllWilling more n

-- A frame without data is out: nothing is under way again.
Loaded-Idle : (t : Task) (f : File) → Loaded t (moved_on f []) [] → Idle t f
Loaded-Idle t f l = record {
  empty = l.length_now;
  at_start = l.at_start;
  no_data = l.data_now;
  opened =
      l.opened
      ∙ ap (λ p. some (record f { position = p })) {x = f.position + 0} {y = f.position}
          (omega arith);
  quiet = l.quiet;
  sending = l.sending;
  room = inr (l.block_bytes, l.block, l.block_room);
}

empty_event :
    (junk : Memory) (t : Task) (f : File) (net : Net)
    → Idle t f
    → t.has_read_len < t.file_len
    → drop f.position f.content ≡ []
    → Willing net.answers 24
    → (later : List Answer) × (t' : Task) × (write_buffer junk t net
        ≡ returns (
          pos 24,
          t',
          record net { answers = later; wire = net.wire ++ frame_head f.position 0 },
        ))
      × Idle t' f
      × (t'.file_len ≡ t.file_len)
      × (t'.has_read_len ≡ t.has_read_len)
empty_event junk t f net i more gone w =
    let nothing : fread (frame_len t) f ≡ [] =
      ap (take (frame_len t)) gone ∙ take_all (frame_len t) [] (omega arith) in
    let (later, t', e, l, n, r) = frame_event junk t f net i more w in
    (
      later,
      t',
      e
          ∙ ap
              (λ (c : List ℕ). returns (
                pos 24,
                t',
                record net { answers = later; wire = net.wire ++ frame_head f.position (length c) },
              ))
              nothing,
      Loaded-Idle t' f (subst (λ c. Loaded t' (moved_on f c) c) nothing l),
      n,
      r ∙ omega (arith, ap length nothing),
    )

-- A file that has become shorter than `stat` said: when its last byte was sent and its told length is
-- not reached, then every further write event sends the head of a frame without data, as long as the kernel
-- takes it, and however many events come the task never gets to the end signal.
pub shrunk_file_lem :
    (answers : List (List Answer)) (junk : Memory) (t : Task) (f : File) (net : Net)
    → Idle t f
    → t.has_read_len < t.file_len
    → drop f.position f.content ≡ []
    → AllWilling answers 24
    → (t' : Task) × (net' : Net) × (write_events junk answers t net ≡ returns (t', net'))
      × (net'.wire ≡ net.wire ++ empty_frames (length answers) f.position)
      × (t'.has_read_len < t'.file_len)
unfolding write_events empty_frames
shrunk_file_lem [] junk t f net i more gone w = (t, net, refl, sym (append-nil net.wire), more)
shrunk_file_lem (a ∷ answers) junk t f net i more gone (w, ws) =
    let (later, t₁, e, idle, n, r) =
      empty_event junk t f (record net { answers = a }) i more gone w in
    let (t₂, net₂, e₂, wire, still) =
      shrunk_file_lem answers junk t₁ f
        (record net { answers = later; wire = net.wire ++ frame_head f.position 0 }) idle
        (omega arith) gone ws in
    (t₂, net₂, rw (e, e₂) refl, wire ∙ append_assoc net.wire (frame_head f.position 0) _, still)
