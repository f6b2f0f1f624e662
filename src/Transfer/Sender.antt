-- ===== src/Transfer/Sender.antt =====
-- A whole file, from the first write event to the last.
use files_event.Prelude.{
  ℕ, zero, suc, ◌+◌, ◌-◌, ◌≤◌, ◌<◌, ◌≡◌, refl, ap, sym, ◌∙◌, List, [], ◌∷◌, ◌++◌, append_assoc,
  append-nil, length, take, drop, arith, length-take, length-drop, take_all, Run, returns, ◌>>=◌,
  ltb, true, false, inl, inr,
}
use native.Mathlib.Decide.{dec_le}
use files_event.Memory.{Memory}
use files_event.Posix.{Net, Answer, accept, again, broken}
use files_event.Transport.Sending.{Willing}
use files_event.Buffers.{file_memory_len}
use files_event.FileSend.{Task, File, write_buffer, frame_len, fread, frame_head}
use files_event.FileSend.Events.{Idle, moved_on, frame_event, data_event}
use files_event.Transfer.Packets.{frame_bytes}

-- Being willing to take more is being willing to take less.
pub Willing-mono : (answers : List Answer) (m n : ℕ) → m ≤ n → Willing answers n → Willing answers m
Willing-mono [] m n h w = w
Willing-mono (broken ∷ later) m n h w = w
Willing-mono (again ∷ later) m n h w = Willing-mono later m n h w
Willing-mono (accept k ∷ later) m n h (inl l) = inl (omega arith)
Willing-mono (accept k ∷ later) m n h (inr w) =
    inr (Willing-mono later (m - k) (n - k) (omega arith) w)

-- The frames of `bytes`, which stand at `position` in the file: 1 MiB each but for the last.
unfoldable pub frames : ℕ → ℕ → List ℕ → List ℕ
frames zero position bytes = []
frames (suc n) position bytes =
    frame_bytes position (take file_memory_len bytes)
    ++ frames n (position + length (take file_memory_len bytes)) (drop file_memory_len bytes)

-- How the kernel answers in the two write events of each frame.
abbrev pub Answers : Type 0
Answers = List (List Answer × List Answer)

-- As many frames as `n` bytes need, and a kernel that takes up to 1 MiB in each event.
abbrev pub Serves : Answers → ℕ → Type 0
Serves [] n = n ≡ 0
Serves ((a, b) ∷ more) n =
    (0 < n)
    × Willing a file_memory_len
    × Willing b file_memory_len
    × Serves more (n - file_memory_len)

-- Two write events for each frame.
unfoldable pub frame_events : Memory → Answers → Task → Net → Run (Task × Net)
frame_events junk [] t net = returns (t, net)
frame_events junk ((a, b) ∷ more) t net = do
  (_, t', net') ← write_buffer junk t (record net { answers = a })
  (_, t'', net'') ← write_buffer junk t' (record net' { answers = b })
  frame_events junk more t'' net''

-- What the task takes for a frame is 1 MiB of what is left of the file, or all of it.
chunk_of :
    (t : Task) (f : File)
    → t.file_len ≡ length f.content
    → t.has_read_len ≡ f.position
    → fread (frame_len t) f ≡ take file_memory_len (drop f.position f.content)
unfolding frame_len
chunk_of t f e h = elim (dec_le (t.file_len - t.has_read_len) file_memory_len) [
  | no more ↦ rw (more_left (omega arith))
  | yes less ↦ rw (less_left less) (
      take_all _ (drop f.position f.content) (omega (arith, length-drop f.position f.content))
      ∙ sym (
          take_all file_memory_len (drop f.position f.content)
            (omega (arith, length-drop f.position f.content))))
]
  where
    more_left :
        file_memory_len < t.file_len - t.has_read_len
        → ltb file_memory_len (t.file_len - t.has_read_len) ≡ true
    more_left h = ground arith

    less_left :
        t.file_len - t.has_read_len ≤ file_memory_len
        → ltb file_memory_len (t.file_len - t.has_read_len) ≡ false
    less_left h = ground arith

-- The task stands at the file's end, with nothing under way.
abbrev pub AtEnd : Task → List ℕ → Type 0
AtEnd t content = (f : File) × Idle t f × (f.content ≡ content) × (t.file_len ≤ t.has_read_len)

take_chunk : (bytes : List ℕ) → 0 < length bytes → 0 < length (take file_memory_len bytes)
take_chunk bytes h = omega (arith, length-take file_memory_len bytes)

drop-nil {ℓ} : {A : Type ℓ} (n : ℕ) → drop {A = A} n [] ≡ []
drop-nil zero = refl
drop-nil (suc n) = refl

drop-drop {ℓ} : {A : Type ℓ} (m n : ℕ) (xs : List A) → drop n (drop m xs) ≡ drop (m + n) xs
drop-drop zero n xs = ap (λ k. drop k xs) (omega arith)
drop-drop (suc m) n [] = drop-nil n ∙ sym (drop-nil (suc m + n))
drop-drop (suc m) n (x ∷ xs) =
    drop-drop m n xs ∙ ap (λ k. drop k (x ∷ xs)) {x = suc (m + n)} {y = suc m + n} (omega arith)

drop-length-take {ℓ} : {A : Type ℓ} (n : ℕ) (xs : List A) → drop (length (take n xs)) xs ≡ drop n xs
drop-length-take zero xs = refl
drop-length-take (suc n) [] = refl
drop-length-take (suc n) (x ∷ xs) = drop-length-take n xs

regroup : (w h c r : List ℕ) → ((w ++ h) ++ c) ++ r ≡ w ++ ((h ++ c) ++ r)
regroup w h c r = simp append_assoc

-- With nothing under way, from any position of the file that the task counts right, the write
-- events put exactly the frames of what is left of the file on the wire, if the kernel takes what
-- each of them sends; then the task stands at the file's end.
pub frames_sent :
    (ps : Answers) (junk : Memory) (t : Task) (f : File) (net : Net)
    → Idle t f
    → t.file_len ≡ length f.content
    → t.has_read_len ≡ f.position
    → Serves ps (length (drop f.position f.content))
    → (t' : Task) × (net' : Net) × (frame_events junk ps t net ≡ returns (t', net'))
      × (net'.wire ≡ net.wire ++ frames (length ps) f.position (drop f.position f.content))
      × AtEnd t' f.content
unfolding frame_events frames
frames_sent [] junk t f net i e h none_left = (
  t,
  net,
  refl,
  sym (append-nil net.wire),
  (f, i, refl, omega (arith, length-drop f.position f.content)),
)
frames_sent ((a, b) ∷ more) junk t f net i e h (some_left, wa, wb, rest) =
    let left : List ℕ = drop f.position f.content in
    let chunk : List ℕ = fread (frame_len t) f in
    let cut : chunk ≡ take file_memory_len left = chunk_of t f e h in
    let sized : length chunk ≡ length (take file_memory_len left) = ap length cut in
    let rest_left : drop (f.position + length chunk) f.content ≡ drop file_memory_len left =
      sym (drop-drop f.position (length chunk) f.content)
      ∙ ap (λ k. drop k left) sized
      ∙ drop-length-take file_memory_len left in
    let (l₁, t₁, e₁, loaded, n₁, r₁) =
      frame_event junk t f (record net { answers = a }) i
        (omega (arith, length-drop f.position f.content))
        (Willing-mono a 24 file_memory_len (omega arith) wa) in
    let (l₂, t₂, e₂, idle, n₂, r₂) =
      data_event junk t₁ (moved_on f chunk) chunk
        (record net { answers = b; wire = net.wire ++ frame_head f.position (length chunk) }) loaded
        (omega (arith, sized, take_chunk left some_left))
        (Willing-mono b (length chunk) file_memory_len
          (omega (arith, sized, length-take file_memory_len left)) wb) in
    let wire₂ : List ℕ = (net.wire ++ frame_head f.position (length chunk)) ++ chunk in
    let (t₃, net₃, e₃, w₃, done) =
      frames_sent more junk t₂ (moved_on f chunk) (record net { answers = l₂; wire = wire₂ }) idle
        (n₂ ∙ n₁ ∙ e) (r₂ ∙ r₁ ∙ ap (λ k. k + length chunk) h)
        (rw (rest_left, length-drop file_memory_len left) rest) in
    (
      t₃,
      net₃,
      simp (e₁, e₂, e₃),
      w₃
          ∙ ap (λ r. wire₂ ++ frames (length more) (f.position + length chunk) r) rest_left
          ∙ regroup net.wire (frame_head f.position (length chunk)) chunk _
          ∙ ap
              (λ c.
                net.wire
                ++ (frame_bytes f.position c
                    ++ frames (length more) (f.position + length c) (drop file_memory_len left)))
              cut,
      done,
    )
