-- ===== src/Transfer/Fetch.antt =====
-- A file is fetched: the client's request (TaskFileRecv.cpp), the session that it reaches (Session.cpp), the
-- events of its task (TaskFileSend.cpp), and the client's read events.
use files_event.Prelude.{
  ℕ, ◌+◌, ◌*◌, ◌%◌, ◌^◌, ◌≤◌, ◌<◌, ◌≡◌, refl, ap, sym, subst, ◌∙◌, List, [], ◌∷◌, ◌++◌,
  append_assoc, arith, length, take_all, drop_all, true, false, some, ltb, ◌==◌, ltb_ℤ, pos, Run,
  returns, ◌>>=◌,
}
use files_event.Memory.{Memory}
use files_event.Posix.{Net, Answer, accept, pending}
use files_event.Wire.{code_of, login, head_bytes, net_flag}
use files_event.Transport.{send_loop, send_ex}
use files_event.Transport.Sending.{Willing}
use files_event.Transport.Waiting.{chances}
use files_event.FileSend
use files_event.FileRecv
use files_event.FileRecv.{send_cmd, get_request, set_fetch_and_save_file}
use files_event.FileRecv.Commands.{packet_of}
use files_event.FileRecv.Stream.{Saved, awaiting}
use files_event.FileRecv.Tracking.{Tracks, in_head}
use files_event.FileRecv.Events.{read_events}
use files_event.Session.{Session, TaskBase, no_task, sending}
use files_event.Session.Requests.{Files}
use files_event.Session.Asking.{Nameable, length-request}
use files_event.Session.Granting.{request_events, request-Granted}
use files_event.Transfer.Packets.{length-head_bytes}
use files_event.Transfer.Sender.{Answers, Serves}
use files_event.Transfer.Arrival.{served, Arrives}
use files_event.Transfer.Whole.{finish_file, finish_file-sends, tail, served-Arrives}

-- The read events until the session has a task, then the task's write events.
abbrev finish_task : Memory → Answers → List Answer → TaskBase → Net → Run Net
finish_task junk ps last (sending t) net = finish_file junk ps last t net
finish_task junk ps last _ net = returns net

unfoldable pub serve_request :
    Files → Memory → ℕ → ℕ → Answers → List Answer → Session → Net → Run Net
unfolding request_events finish_file
serve_request files junk junk_len k ps last s net = do
  (s', net') ← request_events files junk junk_len k s net
  finish_task junk ps last s'.task net'

-- The kernel takes the data at once.
send_at_once :
    (bytes : List ℕ) (k : ℕ) (later : List Answer) (net : Net)
    → length bytes ≤ k
    → net.answers ≡ accept k ∷ later
    → send_ex bytes net
      ≡ returns (pos (length bytes), record net { answers = later; wire = net.wire ++ bytes })
unfolding send_ex send_loop
send_at_once bytes k later net h e = rw (e, take_all k bytes h, drop_all k bytes h) refl

not_negative : (n : ℕ) → ltb_ℤ (pos n) (pos 0) ≡ false
not_negative n = ground arith

send_cmd_at_once :
    (cmd index : ℕ) (payload : List ℕ) (a b : ℕ) (later : List Answer) (net : Net)
    → net.answers ≡ accept a ∷ accept b ∷ later
    → 16 ≤ a
    → length payload ≤ b
    → 0 < length payload
    → send_cmd cmd index payload net
      ≡ returns (
        pos (length payload),
        record net { answers = later; wire = net.wire ++ packet_of cmd index payload },
      )
unfolding send_cmd
send_cmd_at_once cmd index payload a b later net e h h' some_data =
    let head : List ℕ =
      head_bytes (record { flag = net_flag; cmd = cmd; index = index; length = length payload }) in
    let not_empty : (length payload == 0) ≡ false = ground arith in
    rw
      (
        send_at_once head a (accept b ∷ later) net (omega (arith, length-head_bytes _)) e,
        not_negative (length head),
        not_empty,
        send_at_once payload b later
            (record net { answers = accept b ∷ later; wire = net.wire ++ head }) h' refl,
      )
      (ap (λ v. returns (pos (length payload), record net { answers = later; wire = v }))
        (append_assoc net.wire head payload))

request_made :
    (path : List ℕ) (junk : Memory) (a b : ℕ) (later : List Answer) (net : Net)
    → Nameable path
    → net.answers ≡ accept a ∷ accept b ∷ later
    → 16 ≤ a
    → length (get_request path) ≤ b
    → set_fetch_and_save_file path true (FileRecv.new junk) net
      ≡ returns (
        pos 0,
        record (FileRecv.new junk) { file = some [] },
        record net {
          answers = later;
          wire = net.wire ++ packet_of (code_of login) 0 (get_request path);
        },
      )
unfolding set_fetch_and_save_file FileRecv.new
request_made path junk a b later net n e h h' =
    let room : ltb (length (get_request path)) 2048 ≡ true =
      ground (arith, length-request path, n.room) in
    rw
      (
        room,
        send_cmd_at_once (code_of login) 0 (get_request path) a b later net e h h'
            (omega (arith, length-request path)),
      )
      refl

-- What a session that reads a request for the file puts on the wire.
request-served :
    (files : Files) (junk : Memory) (junk_len : ℕ) (path content : List ℕ) (n : Nameable path)
    (k : ℕ) (ps : Answers) (last : List Answer) (s : Session) (net : Net)
    → files.exists path ≡ true
    → files.opens path ≡ some content
    → files.size path ≡ length content
    → length content < 2 ^ 32
    → s.task ≡ no_task
    → s.head_now ≡ true
    → s.has_recv_len ≡ 0
    → s.buff (16 + length (get_request path)) ≡ 0
    → pending net.inbox ≡ packet_of (code_of login) 0 (get_request path)
    → Willing net.answers 1048
    → length (pending net.inbox) ≤ k
    → Serves ps (length content)
    → Willing last 16
    → (sent : Net) × (serve_request files junk junk_len k ps last s net ≡ returns sent)
      × (sent.wire ≡ net.wire ++ served (length ps) content)
unfolding serve_request
request-served files junk junk_len path content n k ps last s net there opened size small idle first
      none_yet z here w enough w' w'' =
    let (s₁, later, ss, t, e, none_left, task, ready, len, read) =
      request-Granted files junk junk_len path content n there opened k s net idle first none_yet z
        here w enough in
    let fits : files.size path % 2 ^ 32 ≡ length content = omega arith in
    let net₁ : Net = record net {
      inbox = ss;
      answers = later;
      wire = net.wire ++ FileSend.loginret_bytes (files.size path % 2 ^ 32);
    } in
    let (sent, e₂, wire) =
      finish_file-sends junk ps last content t net₁ ready (len ∙ fits) read w' w'' in
    (
      sent,
      rw e (subst (λ x. finish_task junk ps last x net₁ ≡ returns sent) (sym task) e₂),
      wire
          ∙ ap (λ v. (net.wire ++ FileSend.loginret_bytes v) ++ tail (length ps) content) fits
          ∙ append_assoc net.wire (FileSend.loginret_bytes (length content)) _,
    )

abbrev nothing_yet : Saved
nothing_yet = record { content = []; expected = 0; count = 0 }

new-Tracks :
    (junk : Memory)
    → Tracks (record (FileRecv.new junk) { file = some [] }) (awaiting [] nothing_yet)
unfolding FileRecv.new files_event.Memory.load
new-Tracks junk = record {
  bytes = junk;
  content = [];
  block = refl;
  size = refl;
  file = refl;
  stands = in_head refl (omega arith);
}

-- A file of at most 1048568 bytes is fetched, empty ones included. A client that was just made asks for it
-- under a path that a request can name, and the kernel takes the two parts of the request at once. If just
-- those bytes reach a session without a task, in pieces of any size, the file exists and can be opened with
-- the size that `stat` reports, the byte behind the request is zero in the session's buffer, and the kernel
-- takes what each event sends, then the session's read events and its task's write events end. And if
-- just what they have sent reaches the client, in pieces of any size and with two chances to send in each
-- event, then after as many read events as bytes the client has exactly the file.
pub fetch :
    (files : Files) (junk client_junk : Memory) (junk_len : ℕ) (path content : List ℕ) (a b : ℕ)
    (later : List Answer) (client_net : Net) (k : ℕ) (ps : Answers) (last : List Answer)
    (s : Session) (server_net : Net) (m : ℕ) (reply_net : Net)
    → Nameable path
    → files.exists path ≡ true
    → files.opens path ≡ some content
    → files.size path ≡ length content
    → length content ≤ 1048568
    → client_net.answers ≡ accept a ∷ accept b ∷ later
    → 16 ≤ a
    → length (get_request path) ≤ b
    → s.task ≡ no_task
    → s.head_now ≡ true
    → s.has_recv_len ≡ 0
    → s.buff (16 + length (get_request path)) ≡ 0
    → pending server_net.inbox ≡ packet_of (code_of login) 0 (get_request path)
    → Willing server_net.answers 1048
    → length (pending server_net.inbox) ≤ k
    → Serves ps (length content)
    → Willing last 16
    → pending reply_net.inbox ≡ served (length ps) content
    → length (pending reply_net.inbox) ≤ m
    → 2 * m ≤ chances reply_net.answers
    → (t : FileRecv.Task) × (asked : Net) × (sent : Net) × (set_fetch_and_save_file path true
          (FileRecv.new client_junk)
          client_net
        ≡ returns (pos 0, t, asked))
      × (asked.wire ≡ client_net.wire ++ pending server_net.inbox)
      × (serve_request files junk junk_len k ps last s server_net ≡ returns sent)
      × (sent.wire ≡ server_net.wire ++ pending reply_net.inbox)
      × Arrives content (read_events m t reply_net)
fetch files junk client_junk junk_len path content a b later client_net k ps last s server_net m
      reply_net n there opened size small e h h' idle first none_yet z here w enough w' w'' back
      enough' c =
    let (sent, e₂, wire) =
      request-served files junk junk_len path content n k ps last s server_net there opened size
        (omega arith) idle first none_yet z here w enough w' w'' in
    (
      record (FileRecv.new client_junk) { file = some [] },
      record client_net {
        answers = later;
        wire = client_net.wire ++ packet_of (code_of login) 0 (get_request path);
      },
      sent,
      request_made path client_junk a b later client_net n e h h',
      ap (λ v. client_net.wire ++ v) (sym here),
      e₂,
      wire ∙ ap (λ v. server_net.wire ++ v) (sym back),
      served-Arrives ps content m nothing_yet _ reply_net w' small (new-Tracks client_junk) back
          enough' c,
    )
