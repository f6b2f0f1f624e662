-- ===== src/Session/Arrival.antt =====
-- A request that arrives at a session without a task in pieces (Session.cpp).
pub mod Turns
use files_event.Prelude.{
  ℕ, zero, suc, ◌+◌, ◌-◌, ◌*◌, ◌%◌, ◌^◌, ◌≤◌, ◌<◌, ◌≡◌, ◌≢◌, refl, ap, ap₂, sym, ◌∙◌, subst, arith,
  List, [], ◌∷◌, ◌++◌, append_assoc, append-nil, length, length-append, length-eq-zero, drop, take,
  take-length-append, drop-length-append, codes, ltb, leb, ◌==◌, if◌then◌else◌, Bool-cases, inl,
  inr, ◌⊎◌, pos, ℤ, true, false, some, none, returns, Run, ◌>>=◌,
}
use files_event.Memory.{
  Memory, store, load, length-load, load-add, load-store_append, store_after, get_u32,
  get_u32-as_memory, as_memory,
}
use files_event.Posix.{
  Net, Segment, Received, got, closed, failed, recv, pending, Takes, recv-Takes,
}
use files_event.Wire.{code_of, login, head_bytes, net_flag}
use files_event.Transport.{recv_len}
use files_event.Transport.Sending.{Willing, recv_len_small, recv_len_pos}
use files_event.Proto.{c_string}
use files_event.FileRecv.{get_request}
use files_event.FileRecv.Commands.{packet_of}
use files_event.FileSend
use files_event.FileSend.Events.{Idle}
use files_event.Session.{Session, no_task, sending, head_len, buff_len}
use files_event.Session.Requests.{
  Files, get_path, request_of, request_end, body_received, recv_pack_data, head_received,
  read_buffer,
}
use files_event.Session.Serving.{request_end_lem}
use files_event.Transfer.Packets.{length-packet, head_field_alone}
use files_event.Session.Asking.{length-request, Nameable, request_of-get_request}

module _ (files : Files) (junk : Memory) (junk_len : ℕ) (path content : List ℕ) where
  -- The data of the request, and how long they are.
  abbrev body : List ℕ
  body = get_request path

  abbrev asked_len : ℕ
  asked_len = length (get_request path)

  abbrev whole : List ℕ
  whole = packet_of (code_of login) 0 (get_request path)

  -- What was read of the request stands at the start of the buffer.
  abbrev pub Place : Session → ℕ → Type 0
  Place s k =
      ((s.head_now ≡ true) × (s.has_recv_len ≡ k) × (k < 16))
      ⊎ ((s.head_now ≡ false)
          × (s.total_len ≡ length (get_request path))
          × (k ≡ 16 + s.has_recv_len)
          × (s.has_recv_len < length (get_request path)))

  -- The session has read `so_far` bytes of the request, the rest is in the socket, and the byte behind
  -- the request is zero.
  pub record Waits (s : Session) (ss : List Segment) : Type 0 where
    pub idle : s.task ≡ no_task
    pub so_far : ℕ
    pub taken : load s.buff 0 so_far ++ pending ss ≡ packet_of (code_of login) 0 (get_request path)
    pub ended : s.buff (16 + length (get_request path)) ≡ 0
    pub stands : Place s so_far

  -- The reply has gone out, and the session has its task.
  abbrev pub Served : Net → Run (ℤ × Session × Net) → Type 0
  Served net r =
      (ret : ℤ) × (s' : Session) × (ss : List Segment) × (later : _) × (t : FileSend.Task) × (r
        ≡ returns (
          ret,
          s',
          record net {
            inbox = ss;
            answers = later;
            wire = net.wire ++ FileSend.loginret_bytes (files.size path % 2 ^ 32);
          },
        ))
      × (pending ss ≡ [])
      × (s'.task ≡ sending t)
      × Idle t (record { content = content; position = 0 })
      × (t.file_len ≡ files.size path % 2 ^ 32)
      × (t.has_read_len ≡ 0)

  abbrev pub Turn : Net → Run (ℤ × Session × Net) → Type 0
  Turn net r =
      ((ret : ℤ) × (s' : Session) × (ss : List Segment) × (r
          ≡ returns (ret, s', record net { inbox = ss }))
        × Waits s' ss
        × (length (pending ss) < length (pending net.inbox)))
      ⊎ Served net r

  pub length-whole : length whole ≡ 16 + length (get_request path)
  length-whole = length-packet _ (get_request path)

  -- The request is whole in the buffer.
  asks :
      (m : Memory)
      → Nameable path
      → load m 0 (16 + length (get_request path)) ≡ whole
      → m (16 + length (get_request path)) ≡ 0
      → (request_of (load m head_len (buff_len - head_len)) ≡ returns (get_path, path))
        × (c_string path ≡ path)
  unfolding head_bytes files_event.Memory.u32_bytes load
  asks m n e z =
      let l : ℕ = length (get_request path) in
      let same : load m 16 l ≡ get_request path = ap (drop 16) (sym (load-add m 0 16 l) ∙ e) in
      let split : 1484 ≡ l + suc (1483 - l) = omega (arith, length-request path, n.room) in
      let text : load m 16 1484 ≡ get_request path ++ (0 ∷ load m (16 + l + 1) (1483 - l)) =
        ap (load m 16) split
        ∙ load-add m 16 l (suc (1483 - l))
        ∙ ap₂ (λ (xs ys : List ℕ). xs ++ ys) same
            (ap (λ c. c ∷ load m (16 + l + 1) (1483 - l)) z) in
      let (e, c) = request_of-get_request path (load m (16 + l + 1) (1483 - l)) n in
      (ap request_of text ∙ e, c)

  module _ (n : Nameable path) (there : files.exists path ≡ true)
      (opened : files.opens path ≡ some content) where
    -- The last byte of the request is in.
    pub served :
        (m : Memory) (ret : ℤ) (s : Session) (net : Net) (ss : List Segment)
        → load m 0 (16 + length (get_request path)) ≡ whole
        → m (16 + length (get_request path)) ≡ 0
        → pending ss ≡ []
        → Willing net.answers 1048
        → Served net (request_end files junk junk_len m ret s (record net { inbox = ss }))
    served m ret s net ss e z none_left w =
        let (asked, c) = asks m n e z in
        let (later, t, r, idle, len, read) =
          request_end_lem files junk junk_len m ret s (record net { inbox = ss }) path content asked
            (rw c n.room) (rw c there) (rw c opened) w in
        (
          ret,
          record s { task = sending t; total_len = 0; has_recv_len = 0; head_now = true },
          ss,
          later,
          t,
          r
              ∙ ap
                  (λ (k : ℕ). returns (
                    ret,
                    record s { task = sending t; total_len = 0; has_recv_len = 0; head_now = true },
                    record net {
                      inbox = ss;
                      answers = later;
                      wire = net.wire ++ FileSend.loginret_bytes (k % 2 ^ 32);
                    },
                  ))
                  (ap files.size c),
          none_left,
          refl,
          idle,
          len ∙ ap (λ q. files.size q % 2 ^ 32) c,
          read,
        )
