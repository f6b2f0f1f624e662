-- ===== src/Tests/Fetching.antt =====
-- A file that is fetched, from the request to the client's file (TaskFileRecv.cpp, Session.cpp, TaskFileSend.cpp).
use files_event.Prelude.{
  ◌≤◌, ◌≡◌, refl, arith, List, [], ◌∷◌, ◌++◌, true, pos, inl, inr, length, subst, sym, returns,
}
use files_event.Memory.{zeroed}
use files_event.Posix.{Net, Answer, accept, again, pending}
use files_event.Wire.{code_of, login}
use files_event.FileRecv
use files_event.FileRecv.{get_request, set_fetch_and_save_file}
use files_event.FileRecv.Commands.{packet_of}
use files_event.FileRecv.Events.{read_events}
use files_event.Transfer.Sender.{Answers}
use files_event.Transfer.Arrival.{served, Arrives}
use files_event.Transfer.Fetch.{serve_request, fetch}
use files_event.Tests.Receiving.{short_file, patient_net, served_fits, pending_segments}
use files_event.Tests.Requests.{
  disk, waiting, path, asking_net, pending_pieces, path-Nameable, short,
}

abbrev one_frame : Answers
one_frame = (again ∷ accept 2000000 ∷ [], accept 2000000 ∷ []) ∷ []

abbrev last : List Answer
last = accept 10 ∷ accept 6 ∷ []

abbrev client_net : Net
client_net = record {
  inbox = [];
  peer_open = true;
  answers = accept 16 ∷ accept 1500 ∷ [];
  wire = [];
}

all_fits : length (pending patient_net.inbox) ≤ 1150
all_fits = subst (λ bs. length bs ≤ 1150) (sym (pending_segments (served 1 short_file))) served_fits

fetch_example :
    (t : FileRecv.Task) × (asked : Net) × (sent : Net) × (set_fetch_and_save_file path true
        (FileRecv.new zeroed)
        client_net
      ≡ returns (pos 0, t, asked))
    × (asked.wire ≡ client_net.wire ++ pending asking_net.inbox)
    × (serve_request disk zeroed 0 40 one_frame last waiting asking_net ≡ returns sent)
    × (sent.wire ≡ asking_net.wire ++ pending patient_net.inbox)
    × Arrives short_file (read_events 1150 t patient_net)
fetch_example =
    fetch disk zeroed zeroed 0 path short_file 16 1500 [] client_net 40 one_frame last waiting
      asking_net 1150 patient_net path-Nameable refl refl refl (omega arith) refl (omega arith)
      (omega arith) refl refl refl refl
      (pending_pieces (packet_of (code_of login) 0 (get_request path))) (inl (omega arith)) short
      (omega arith, inl (omega arith), inl (omega arith), refl) (inr (inl (omega arith)))
      (pending_segments (served 1 short_file)) all_fits (omega arith)
