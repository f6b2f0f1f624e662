-- ===== src/Tests/Requests.antt =====
-- A request for a file that a session receives.
use files_event.Prelude.{
  ℕ, ◌≤◌, ◌≡◌, refl, ap, sym, subst, arith, length, List, [], ◌∷◌, ◌++◌, true, false, some, pos,
  inl, returns, codes,
}
use files_event.Memory.{zeroed}
use files_event.Posix.{Net, Segment, seg, accept, again, pending}
use files_event.Wire.{code_of, login, net_flag}
use files_event.Proto.{c_string}
use files_event.FileRecv.{get_request}
use files_event.FileRecv.Commands.{packet_of}
use files_event.Transfer.Packets.{length-packet}
use files_event.Buffers.{reset_cmd}
use files_event.FileSend
use files_event.FileSend.Starting.Arrival.{start_packet, length-start_packet-le}
use files_event.Session.Starting.{Started, start_events, start-Started}
use files_event.Session.{Session, no_task, sending, normal}
use files_event.Session.Requests.{Files, get_path, request_of}
use files_event.Session.Asking.{Nameable, request_of-get_request}
use files_event.Session.Granting.{Granted, request_events, request-Granted}
use files_event.Session.Receiving.{Collects, recv_ex, recv_ex-Collects}
use files_event.Tests.Receiving.{segments_of, pending_segments}

abbrev pub disk : Files
disk = record { exists = λ _. true; opens = λ _. some (codes "hello"); size = λ _. 5 }

abbrev pub waiting : Session
waiting = record {
  self = 70;
  sid = 7;
  task = no_task;
  global = true;
  status = normal;
  running = false;
  writing = false;
  reading = false;
  head_now = true;
  total_len = 0;
  has_recv_len = 0;
  buff = zeroed;
  write_fd = pos 7;
  write_base = files_event.Session.Base.loop_base;
  time_base = files_event.Session.Base.null_base;
}

abbrev pub path : List ℕ
path = codes "a.mp4"

-- The first byte of the request comes alone.
abbrev pub in_pieces : List ℕ → List Segment
in_pieces [] = []
in_pieces (b ∷ bs) = seg b [] ∷ segments_of bs

pub pending_pieces : (bs : List ℕ) → pending (in_pieces bs) ≡ bs
pending_pieces [] = refl
pending_pieces (b ∷ bs) = ap (λ r. b ∷ r) (pending_segments bs)

abbrev pub asking_net : Net
asking_net = record {
  inbox = in_pieces (packet_of (code_of login) 0 (get_request path));
  peer_open = true;
  answers = again ∷ accept 1048 ∷ [];
  wire = [];
}

pub path-Nameable : Nameable path
unfolding files_event.Proto.starts_with
path-Nameable = record {
  unquoted = ground arith;
  no_end = ground arith;
  not_play = (refl, (refl, (refl, (refl, (refl, refl)))));
  some_bytes = omega arith;
  room = omega arith;
}

request_of-get_request_example :
    (request_of (get_request path ++ (0 ∷ codes "old")) ≡ returns (get_path, path))
    × (c_string path ≡ path)
request_of-get_request_example = request_of-get_request path (codes "old") path-Nameable

pub short : length (pending asking_net.inbox) ≤ 40
short =
    subst (λ bs. length bs ≤ 40)
      (sym (pending_pieces (packet_of (code_of login) 0 (get_request path))))
      (omega (
        arith,
        length-packet
            (record {
              flag = net_flag;
              cmd = code_of login;
              index = 0;
              length = length (get_request path);
            })
            (get_request path),
      ))

request-Granted_example :
    Granted disk zeroed 0 path
      (codes "hello")
      path-Nameable
      refl
      refl
      asking_net
      (request_events disk zeroed 0 40 waiting asking_net)
request-Granted_example =
    request-Granted disk zeroed 0 path (codes "hello") path-Nameable refl refl 40 waiting asking_net
      refl refl refl refl (pending_pieces (packet_of (code_of login) 0 (get_request path)))
      (inl (omega arith)) short

recv_ex-Collects_example : Collects 20 (pending asking_net.inbox) (recv_ex 20 asking_net)
recv_ex-Collects_example = recv_ex-Collects 20 asking_net (omega arith)

abbrev starting : Net
starting = record { inbox = in_pieces (start_packet 5); peer_open = true; answers = []; wire = [] }

abbrev ready_task : FileSend.Task
ready_task = FileSend.new zeroed 0

start-Started_example :
    Started disk zeroed 0 5
      (record waiting { task = sending ready_task })
      ready_task
      starting
      (start_events disk zeroed 0 200 (record waiting { task = sending ready_task }) starting)
unfolding FileSend.new reset_cmd
start-Started_example =
    start-Started disk zeroed 0 5 200 (record waiting { task = sending ready_task }) ready_task
      starting refl refl refl refl (pending_pieces (start_packet 5))
      (subst (λ bs. length bs ≤ 200) (sym (pending_pieces (start_packet 5)))
        (omega (arith, length-start_packet-le 5)))
