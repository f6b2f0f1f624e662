-- ===== src/Tests/Sending.antt =====
-- Runs of the server that sends a file (TaskFileSend.cpp) and of `sendEx`.
use files_event.Prelude.{
  ℕ, ◌≡◌, refl, arith, List, [], ◌∷◌, ◌++◌, true, some, none, length, drop, pos, inl, inr, returns,
  codes,
}
use files_event.Memory.{zeroed}
use files_event.Posix.{Net, Answer, accept, again}
use files_event.Buffers.{reset_cmd}
use files_event.Transport.{send_ex}
use files_event.Transport.Sending.{SentOver, send_ex-SentOver, send_ex-completes}
use files_event.FileSend.{Task, File}
use files_event.FileSend.Events.{Idle}
use files_event.Transfer.Sender.{frames, frame_events, AtEnd, Answers, frames_sent}

abbrev pub net : Net
net = record {
  inbox = [];
  peer_open = true;
  answers = accept 3 ∷ again ∷ accept 2000 ∷ accept 9000 ∷ [];
  wire = 1 ∷ [];
}

abbrev pub short_file : List ℕ
short_file = codes "hello"

abbrev pub at_start : File
at_start = record { content = short_file; position = 0 }

-- A server that has replied and has sent nothing of the file.
abbrev pub server : Task
server = record {
  recv = reset_cmd;
  send = record {
    cmmd = zeroed;
    proc_cmmd = true;
    has_proc_len = 0;
    total_len = 0;
    data_len = 0;
    mem_len = 0;
    block = none;
  };
  file = some at_start;
  queue = [];
  frame_count = 0;
  file_len = 5;
  has_read_len = 0;
  sending_data = true;
}

server-Idle : Idle server at_start
server-Idle = record {
  empty = refl;
  at_start = refl;
  no_data = refl;
  opened = refl;
  quiet = refl;
  sending = refl;
  room = inl refl;
}

send_ex-SentOver_example : SentOver short_file net (send_ex short_file net)
send_ex-SentOver_example = send_ex-SentOver short_file net

send_ex-completes_example :
    (later : List Answer) × (send_ex short_file net
      ≡ returns
          (pos (length short_file), record net { answers = later; wire = net.wire ++ short_file }))
send_ex-completes_example = send_ex-completes short_file net (inr (inl (omega arith)))

abbrev one_frame : Answers
one_frame = (accept 2000000 ∷ [], accept 2000000 ∷ []) ∷ []

frames_sent_example :
    (t' : Task) × (net' : Net) × (frame_events zeroed one_frame server net ≡ returns (t', net'))
    × (net'.wire
        ≡ net.wire
          ++ frames (length one_frame) at_start.position (drop at_start.position at_start.content))
    × AtEnd t' at_start.content
frames_sent_example =
    frames_sent one_frame zeroed server at_start net server-Idle refl refl
      (omega arith, inl (omega arith), inl (omega arith), refl)
