-- ===== src/Session/Serving.antt =====
-- A request for a file that exists, in Session.cpp: the session gets its task, and the reply goes out.
use files_event.Prelude.{
  ℕ, ◌-◌, ◌%◌, ◌^◌, ◌<◌, ◌≡◌, refl, arith, List, ◌++◌, true, some, length, ltb, ℤ, returns,
}
use files_event.Memory.{Memory, load}
use files_event.Posix.{Net, Answer}
use files_event.Proto.{c_string}
use files_event.Transport.Sending.{Willing}
use files_event.FileSend
use files_event.FileSend.Events.{Idle}
use files_event.FileSend.Ends.{reply_event}
use files_event.Session.{Session, sending, head_len, buff_len}
use files_event.Session.Requests.{Files, get_path, request_of, request_end, serve}

-- The task that answers a request, straight from its constructor.
serve_lem :
    (files : Files) (junk : Memory) (junk_len : ℕ) (path content : List ℕ) (s : Session) (net : Net)
    → files.opens path ≡ some content
    → Willing net.answers 1048
    → (later : List Answer) × (t : FileSend.Task) × (serve get_path files junk junk_len path s net
        ≡ returns (
          record s { task = sending t },
          record net {
            answers = later;
            wire = net.wire ++ FileSend.loginret_bytes (files.size path % 2 ^ 32);
          },
        ))
      × Idle t (record { content = content; position = 0 })
      × (t.file_len ≡ files.size path % 2 ^ 32)
      × (t.has_read_len ≡ 0)
unfolding FileSend.new
serve_lem files junk junk_len path content s net opened w =
    let (later, t, e, idle, len, read) =
      reply_event content (files.size path) (FileSend.new junk junk_len) net refl refl refl refl
        refl refl w in
    (later, t, rw (opened, e) refl, idle, len, read)

-- A whole request for a file (its path is shorter than the array of 256 bytes), when the file exists and
-- can be opened and the kernel takes the 1048 bytes of the reply: the reply with the file's length
-- goes out, the session waits for its next head, and its task is ready to send the file from its
-- first byte.
pub request_end_lem :
    (files : Files) (junk : Memory) (junk_len : ℕ) (m : Memory) (ret : ℤ) (s : Session) (net : Net)
    (value content : List ℕ)
    → request_of (load m head_len (buff_len - head_len)) ≡ returns (get_path, value)
    → length (c_string value) < 256
    → files.exists (c_string value) ≡ true
    → files.opens (c_string value) ≡ some content
    → Willing net.answers 1048
    → (later : List Answer) × (t : FileSend.Task) × (request_end files junk junk_len m ret s net
        ≡ returns (
          ret,
          record s { task = sending t; total_len = 0; has_recv_len = 0; head_now = true },
          record net {
            answers = later;
            wire = net.wire ++ FileSend.loginret_bytes (files.size (c_string value) % 2 ^ 32);
          },
        ))
      × Idle t (record { content = content; position = 0 })
      × (t.file_len ≡ files.size (c_string value) % 2 ^ 32)
      × (t.has_read_len ≡ 0)
unfolding request_end
request_end_lem files junk junk_len m ret s net value content asks short there opened w =
    let (later, t, e, idle, len, read) =
      serve_lem files junk junk_len (c_string value) content s net opened w in
    let room : ltb (length (c_string value)) 256 ≡ true = ground arith in
    (later, t, rw (asks, room, there, e) refl, idle, len, read)
