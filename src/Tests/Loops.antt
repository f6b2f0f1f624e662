-- ===== src/Tests/Loops.antt =====
-- A server on which connections come and go (TcpServer.cpp, Session.cpp), and a line of its log (glog.c).
use files_event.Prelude.{
  replicate, ◌<◌, ◌≤◌, ◌^◌, ◌↔◌, ◌⊎◌, if◌then◌else◌, length, take, ℕ, ◌≡◌, ◌≢◌, refl, arith, codes,
  List, [], ◌∷◌, ◌++◌, Bool, false, true, some, Run, returns, fault, blocked,
}
use files_event.Memory.{Memory, zeroed}
use files_event.Posix.{Net, Segment, seg, accept, again}
use files_event.Wire.{code_of, login}
use files_event.FileRecv.{get_request}
use files_event.FileRecv.Commands.{packet_of}
use files_event.SessionTable.{Table, get, empty}
use files_event.SessionTable.Deleting.{times}
use files_event.Session.{Session, exit, set_status, set_reading, ev_read}
use files_event.Session.Callbacks.{on_read, on_write}
use files_event.Session.Tasks.{Opens}
use files_event.Session.Exiting.{mapped}
use files_event.Session.Exiting.Served.{read_with, written_with, status_ignored}
use files_event.Server.{destroy_global}
use files_event.Log.{label_of, pj_log, pj_log-fits}
use files_event.Session.Requests.{read_buffer}
use files_event.Loop.{
  World, Happening, connection, accept_failed, readable, writable, is_free, run, step, start,
}
use files_event.Loop.Safety.{EndsIn}
use files_event.Loop.Agreement.{table-live, destroy-live}
use files_event.Loop.Reading.{readable-fault, ReadFails}
use files_event.Loop.Writing.{writable-ne-fault}
use files_event.Tests.Requests.{disk, path, waiting}
use files_event.Tests.Servers.{global}

abbrev none_open : ℕ → Bool
none_open fd = false

abbrev silent : Net
silent = record { inbox = []; peer_open = true; answers = again ∷ accept 2000 ∷ []; wire = [] }

abbrev gone : Net
gone = record { inbox = []; peer_open = false; answers = []; wire = [] }

abbrev whole : List ℕ → List Segment
whole [] = []
whole (b ∷ bs) = seg b bs ∷ []

abbrev asking : Net
asking = record {
  inbox = whole (packet_of (code_of login) 0 (get_request path));
  peer_open = true;
  answers = accept 1048 ∷ [];
  wire = [];
}

-- Three clients connect, one sends its request and is sent a frame, and one hangs up.
abbrev visits : List Happening
visits =
    connection 9 90 zeroed
    ∷ connection 5 50 zeroed
    ∷ accept_failed
    ∷ connection 4 40 zeroed
    ∷ readable 90 disk zeroed 0 asking
    ∷ writable 90 zeroed silent
    ∷ readable 40 disk zeroed 0 gone
    ∷ []

abbrev world_of : Run World → World
world_of (returns w) = w
world_of fault = start global none_open
world_of blocked = start global none_open

abbrev is_returned : Run World → Bool
is_returned (returns w) = true
is_returned fault = false
is_returned blocked = false

returned : (r : Run World) → is_returned r ≡ true → r ≡ returns (world_of r)
returned (returns w) e = refl
returned fault e = cc
returned blocked e = cc

abbrev visited : World
visited = world_of (run visits (start global none_open))

-- A client that says that its request has 4000 bytes, and sends 2000 at once.
abbrev huge : Net
huge = record {
  inbox = seg 0 (replicate 11 0 ++ (160 ∷ 15 ∷ 0 ∷ 0 ∷ replicate 2000 1)) ∷ [];
  peer_open = true;
  answers = [];
  wire = [];
}

visited_runs :
    (is_returned (run visits (start global none_open)) ≡ true)
    × ((visited.slots 90).reads ≡ true)
    × (step (readable 50 disk zeroed 0 huge) visited ≡ fault)
unfolding run step start files_event.Server.on_accept files_event.Server.enter
    files_event.Session.add_read_event files_event.Session.Requests.head_received
    files_event.Session.new files_event.Session.add_write_event
    files_event.Session.Callbacks.on_read files_event.Session.Requests.read_buffer
    files_event.SessionTable.get_count files_event.SessionTable.put files_event.SessionTable.empty
    files_event.Transport.recv_len files_event.Wire.head_bytes
    files_event.Session.Callbacks.on_write files_event.Session.write_buffer
    files_event.Session.Callbacks.hang_up files_event.Session.Callbacks.leave_table
    files_event.Session.destroy files_event.Memory.get_u32 files_event.Memory.store
    files_event.Proto.get_value_by_name files_event.Memory.load files_event.FileSend.set_fetch_file
    files_event.FileSend.new files_event.FileSend.tcp_send_data files_event.Transport.send_ex
    files_event.FileSend.write_buffer files_event.FileSend.prepare_frame
    files_event.Buffers.create_mem files_event.FileSend.frame_len
    files_event.Session.Callbacks.after_write
visited_runs = (refl, refl, refl)

visited_lem : EndsIn global none_open visits visited
visited_lem = returned (run visits (start global none_open)) visited_runs.0

table-live_example :
    (t : Table) × (visited.global.manager ≡ some t)
    × ((sid p : ℕ)
        → sid < 2 ^ 16
        → ((get sid t).0 ≡ some p) ↔ ((s : Session) × (visited.live p ≡ some s) × (s.sid ≡ sid)))
table-live_example = table-live global none_open visits visited visited_lem

destroy-live_example :
    times 90 (destroy_global visited.global).0 ≡ (if is_free (visited.live 90) then 0 else 1)
destroy-live_example = destroy-live global none_open visits visited visited_lem 90

disk-Opens : Opens disk
disk-Opens file here = (codes "hello", refl)

writable-ne-fault_example : step (writable 90 zeroed silent) visited ≢ fault
writable-ne-fault_example =
    writable-ne-fault global none_open visits visited_lem
      (tt, (tt, (tt, (tt, (disk-Opens, (tt, (disk-Opens, tt))))))) 90 zeroed silent

readable-fault_example :
    (s : Session) × (visited.live 50 ≡ some s)
    × ReadFails (read_buffer disk zeroed 0 (set_reading false s) huge)
readable-fault_example =
    readable-fault global none_open visits visited_lem 50 disk zeroed 0 huge visited_runs.2

status_ignored_example :
    (on_read disk zeroed 0 7 ev_read (set_status exit waiting) empty asking
      ≡ mapped (read_with exit) (on_read disk zeroed 0 7 ev_read waiting empty asking))
    × (on_write zeroed 7 ev_read (set_status exit waiting) asking
        ≡ mapped (written_with exit) (on_write zeroed 7 ev_read waiting asking))
status_ignored_example = status_ignored exit disk zeroed 0 7 ev_read waiting empty asking

pj_log-fits_example :
    ((label : List ℕ) × (label_of 1 ≡ some label)
      × (pj_log 1 (codes "no file") ≡ returns (label ++ take 492 (codes "no file") ++ (10 ∷ [])))
      × (length (label ++ take 492 (codes "no file") ++ (10 ∷ [])) ≤ 500))
    ⊎ ((6 < 1) × (pj_log 1 (codes "no file") ≡ fault))
pj_log-fits_example = pj_log-fits 1 (codes "no file") (omega arith)
