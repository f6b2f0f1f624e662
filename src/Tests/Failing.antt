-- ===== src/Tests/Failing.antt =====
-- Runs of TaskFileSend.cpp with a file that does not open, and one that has shrunk.
use files_event.Prelude.{
  ◌%◌, ◌^◌, ◌<◌, ◌≡◌, refl, arith, List, [], ◌∷◌, ◌++◌, length, true, none, some, pos, inl, returns,
  fault,
}
use files_event.Memory.{zeroed}
use files_event.Posix.{Net, Answer, accept, again}
use files_event.FileSend.{Task, File, new, set_fetch_file, loginret_bytes, write_buffer}
use files_event.FileSend.Events.{Idle}
use files_event.FileSend.Failing.{unopened_faults, write_events, empty_frames, shrunk_file_lem}
use files_event.Tests.Sending.{short_file, server}

abbrev ready_net : Net
ready_net = record { inbox = []; peer_open = true; answers = accept 1048 ∷ []; wire = [] }

unopened_faults_example :
    (later : List Answer) × (t : Task) × (set_fetch_file none 5 (new zeroed 0) ready_net
      ≡ returns (
        pos 0,
        t,
        record ready_net { answers = later; wire = [] ++ loginret_bytes (5 % 2 ^ 32) },
      ))
    × ((net' : Net) → write_buffer zeroed t net' ≡ fault)
unopened_faults_example = unopened_faults 5 zeroed 0 ready_net (omega arith) (inl (omega arith))

-- Five bytes were sent of a file that was told to have nine.
abbrev at_end : File
at_end = record { content = short_file; position = 5 }

abbrev shrunk : Task
shrunk = record server { file = some at_end; file_len = 9; has_read_len = 5 }

shrunk-Idle : Idle shrunk at_end
shrunk-Idle = record {
  empty = refl;
  at_start = refl;
  no_data = refl;
  opened = refl;
  quiet = refl;
  sending = refl;
  room = inl refl;
}

abbrev two_events : List (List Answer)
two_events = (accept 24 ∷ []) ∷ (again ∷ accept 30 ∷ []) ∷ []

shrunk_file_lem_example :
    (t' : Task) × (net' : Net) × (write_events zeroed two_events shrunk ready_net
      ≡ returns (t', net'))
    × (net'.wire ≡ ready_net.wire ++ empty_frames (length two_events) 5)
    × (t'.has_read_len < t'.file_len)
shrunk_file_lem_example =
    shrunk_file_lem two_events zeroed shrunk at_end ready_net shrunk-Idle (omega arith) refl
      (inl (omega arith), (inl (omega arith), tt))
