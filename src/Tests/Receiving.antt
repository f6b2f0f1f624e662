-- ===== src/Tests/Receiving.antt =====
-- Runs of the client that receives a file (TaskFileRecv.cpp).
use files_event.Prelude.{
  take, fault, ◌+◌, ◌<◌, ℕ, ◌≤◌, ◌≡◌, refl, ap, arith, List, [], ◌∷◌, ◌++◌, append-nil, true, false,
  none, some, length, pos, returns, ◌>>=◌, codes, replicate, length-replicate,
}
use files_event.Memory.{zeroed, load, store}
use files_event.Posix.{got, recv, Net, accept, again, Segment, seg, pending}
use files_event.Wire.{code_of, dataend, control_play, file_recv_msg}
use files_event.FileSend.{loginret_bytes, signal_bytes, frame_head}
use files_event.FileRecv.{Task, read_buffer, recv_mem_len}
use files_event.FileRecv.Stream.{Saved, awaiting, malformed, feed_all}
use files_event.FileRecv.Tracking.{in_head, Tracks}
use files_event.FileRecv.Reassembly.{Follows}
use files_event.FileRecv.Head.{read_buffer-Follows}
use files_event.FileRecv.Events.{read_events, Reads, read_events-Reads}
use files_event.SessionTable.{empty}
use files_event.Session.{Session, receiving, ev_read, set_reading}
use files_event.Session.Requests.{Files}
use files_event.Session.Callbacks.{on_read, hang_up}
use files_event.Session.Signalled.{on_read_signalled}
use files_event.Transport.{add_int}
use files_event.Transfer.Packets.{frame_bytes, frame_understood, signal_ends}
use files_event.Transfer.Sender.{frames}
use files_event.FileSend
use files_event.FileSend.{frame_len}
use files_event.Transfer.Overrun.{frame_overruns}
use files_event.Transfer.Arrival.{served}

-- A client that has opened its file and has read nothing.
abbrev pub client : Task
client = record {
  buf = record {
    cmmd = zeroed;
    proc_cmmd = true;
    has_proc_len = 0;
    total_len = 0;
    data_len = 0;
    mem_len = recv_mem_len;
    block = some zeroed;
  };
  file = some [];
  total_len = 0;
  recv_data_len = 0;
}

abbrev pub nothing_saved : Saved
nothing_saved = record { content = []; expected = 0; count = 0 }

pub client-Tracks : Tracks client (awaiting [] nothing_saved)
unfolding load
client-Tracks = record {
  bytes = zeroed;
  content = [];
  block = refl;
  size = refl;
  file = refl;
  stands = in_head refl (omega arith);
}

-- The signal that ends a file, in two pieces.
abbrev signal_net : Net
signal_net = record {
  inbox =
      seg 251 (252 ∷ 253 ∷ []) ∷ seg 254 (8 ∷ 0 ∷ 0 ∷ 0 ∷ 0 ∷ 0 ∷ 0 ∷ 0 ∷ 0 ∷ 0 ∷ 0 ∷ 0 ∷ []) ∷ [];
  peer_open = true;
  answers = accept 1500 ∷ again ∷ accept 2000 ∷ [];
  wire = [];
}

signal_bytes_here : pending signal_net.inbox ≡ signal_bytes (code_of dataend) 0
unfolding files_event.Wire.head_bytes files_event.Memory.u32_bytes
signal_bytes_here = refl

-- The bytes of the pieces, and what the whole stream of a short file is.
abbrev pub short_file : List ℕ
short_file = codes "hello"

abbrev pub segments_of : List ℕ → List Segment
segments_of [] = []
segments_of (b ∷ bs) = seg b bs ∷ []

pub pending_segments : (bs : List ℕ) → pending (segments_of bs) ≡ bs
pending_segments [] = refl
pending_segments (b ∷ bs) = append-nil (b ∷ bs)

abbrev pub patient_net : Net
patient_net = record {
  inbox = segments_of (served 1 short_file);
  peer_open = true;
  answers = replicate 2300 (accept 1500);
  wire = [];
}

pub served_fits : length (served 1 short_file) ≤ 1150
unfolding frames loginret_bytes frame_head files_event.Wire.head_bytes files_event.Memory.u32_bytes
served_fits = omega arith

not_malformed : feed_all (awaiting [] nothing_saved) (pending signal_net.inbox) ≡ malformed → ⊥
not_malformed e = cc (
  e,
  ap (feed_all (awaiting [] nothing_saved)) signal_bytes_here,
  signal_ends (code_of dataend) 0 nothing_saved,
)

read_events-Reads_example :
    Reads 3 (awaiting [] nothing_saved) signal_net (read_events 3 client signal_net)
read_events-Reads_example =
    read_events-Reads 3 client (awaiting [] nothing_saved) signal_net client-Tracks not_malformed

read_buffer-Follows_example :
    Follows (awaiting [] nothing_saved) signal_net (read_buffer client signal_net)
read_buffer-Follows_example =
    read_buffer-Follows client (awaiting [] nothing_saved) signal_net client-Tracks

-- The head of a signal in one piece, and nothing behind it.
abbrev one_signal : List ℕ
one_signal = 251 ∷ 252 ∷ 253 ∷ 254 ∷ 8 ∷ 0 ∷ 0 ∷ 0 ∷ 0 ∷ 0 ∷ 0 ∷ 0 ∷ 0 ∷ 0 ∷ 0 ∷ 0 ∷ []

abbrev one_piece : Net
one_piece = record signal_net { inbox = segments_of one_signal }

abbrev no_files : Files
no_files = record { exists = λ path. false; opens = λ path. none; size = λ path. 0 }

abbrev fetching : Session
fetching = record (files_event.Session.new 5 7 file_recv_msg zeroed) {
  global = true;
  reading = true;
}

on_read_signalled_example :
    (t' : Task) × (read_buffer client one_piece
      ≡ returns (pos 16, t', record one_piece { inbox = [] }))
    × (on_read no_files zeroed 0 7 ev_read
          (record fetching { task = receiving t' })
          empty
          signal_net
        ≡ (hang_up 7 (set_reading false (record fetching { task = receiving t' })) empty
            >>= λ (left, table', effects). returns (left, table', signal_net, effects)))
unfolding store files_event.Transport.recv_len files_event.Memory.get_u32
on_read_signalled_example =
    on_read_signalled client zeroed one_piece one_signal [] no_files zeroed 0 7 fetching empty
      signal_net refl refl refl refl refl refl

frame_understood_example :
    feed_all (awaiting [] nothing_saved) (frame_bytes 0 short_file)
    ≡ awaiting [] (record {
      content = nothing_saved.content ++ short_file;
      expected = nothing_saved.expected;
      count = add_int nothing_saved.count (length short_file);
    })
frame_understood_example = frame_understood 0 short_file nothing_saved (omega arith)

sized : (n : ℕ) → (bs : List ℕ) × (length bs ≡ n)
sized n = (replicate n 0, length-replicate n 0)

-- A server with 2000000 bytes left, and a client that has got the head of its frame and more.
abbrev long_sender : FileSend.Task
long_sender = record (FileSend.new zeroed 0) { file_len = 2000000; has_read_len = 0 }

abbrev head_piece : List ℕ
head_piece = 252 ∷ 253 ∷ 254 ∷ 3 ∷ 0 ∷ 0 ∷ 0 ∷ 0 ∷ 0 ∷ 0 ∷ 0 ∷ 8 ∷ 0 ∷ 16 ∷ 0 ∷ []

abbrev long_net : Net
long_net = record signal_net { inbox = seg 251 head_piece ∷ seg 0 (sized 1048600).0 ∷ [] }

much : recv_mem_len < 16 + length (pending (seg 0 (sized 1048600).0 ∷ []))
much = omega (arith, (sized 1048600).1, ap length (append-nil (sized 1048600).0))

head_recv :
    (rest : List Segment)
    → recv 16 (record signal_net { inbox = seg 251 head_piece ∷ rest })
      ≡ (got (take 16 (frame_head 0 (frame_len long_sender))), rest)
unfolding frame_len frame_head files_event.Wire.head_bytes files_event.Memory.u32_bytes
head_recv rest = refl

frame_overruns_example : read_events recv_mem_len client long_net ≡ fault
frame_overruns_example =
    frame_overruns long_sender 0 recv_mem_len client zeroed long_net (seg 0 (sized 1048600).0 ∷ [])
      (omega arith) refl refl refl refl (head_recv (seg 0 (sized 1048600).0 ∷ [])) much
      (omega arith)
