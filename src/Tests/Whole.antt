-- ===== src/Tests/Whole.antt =====
-- Runs of a whole transfer (TaskFileSend.cpp and TaskFileRecv.cpp), and of the sending task at any time.
use files_event.Prelude.{
  ◌%◌, ◌^◌, ◌≤◌, subst, sym, ◌≡◌, refl, arith, List, [], ◌∷◌, ◌++◌, length, some, pos, inl, inr,
  returns,
}
use files_event.Memory.{zeroed}
use files_event.Posix.{Net, Answer, accept, pending}
use files_event.FileSend.{Task, new, write_buffer, set_fetch_file, loginret_bytes}
use files_event.FileSend.Ends.{reply_event}
use files_event.FileSend.Valid.{IsValid, Stays}
use files_event.FileSend.Bounds.{write_buffer-IsValid}
use files_event.FileRecv.Events.{read_events}
use files_event.Transfer.Sender.{Answers}
use files_event.Transfer.Arrival.{served, Arrives}
use files_event.Transfer.Whole.{serve_file, serve_file-served, transfer}
use files_event.Tests.Receiving.{
  client, client-Tracks, nothing_saved, short_file, patient_net, served_fits, pending_segments,
}
use files_event.Tests.Sending
use files_event.Tests.Sending.{server}

abbrev ready : List Answer
ready = accept 2000000 ∷ []

abbrev one_frame : Answers
one_frame = (ready, ready) ∷ []

serve_file-served_example :
    (net' : Net) × (serve_file zeroed 0 ready one_frame ready short_file
        files_event.Tests.Sending.net
      ≡ returns net')
    × (net'.wire ≡ files_event.Tests.Sending.net.wire ++ served 1 short_file)
serve_file-served_example =
    serve_file-served zeroed 0 ready one_frame ready short_file files_event.Tests.Sending.net
      (inl (omega arith)) (omega arith, inl (omega arith), inl (omega arith), refl)
      (inl (omega arith)) (omega arith)

all_fits : length (pending patient_net.inbox) ≤ 1150
all_fits = subst (λ bs. length bs ≤ 1150) (sym (pending_segments (served 1 short_file))) served_fits

transfer_example :
    (sent : Net) × (serve_file zeroed 0 ready one_frame ready short_file
        files_event.Tests.Sending.net
      ≡ returns sent)
    × (sent.wire ≡ files_event.Tests.Sending.net.wire ++ pending patient_net.inbox)
    × Arrives ([] ++ short_file) (read_events 1150 client patient_net)
transfer_example =
    transfer zeroed 0 ready one_frame ready short_file files_event.Tests.Sending.net 1150
      nothing_saved client patient_net (inl (omega arith))
      (omega arith, inl (omega arith), inl (omega arith), refl) (inl (omega arith)) (omega arith)
      client-Tracks (pending_segments (served 1 short_file)) all_fits (omega arith)

server-IsValid : IsValid server
server-IsValid = (
  record { within = omega arith; phase = inl (refl, omega arith); room = inl (refl, refl) },
  inr (files_event.Tests.Sending.at_start, refl),
)

write_buffer-IsValid_example : Stays (write_buffer zeroed server files_event.Tests.Sending.net)
write_buffer-IsValid_example =
    write_buffer-IsValid zeroed server files_event.Tests.Sending.net server-IsValid

-- A new task that was asked for the file, and has replied.
replied :
    (later : List Answer) × (t : Task) × (set_fetch_file
        (some short_file)
        5
        (new zeroed 0)
        (record patient_net { answers = ready })
      ≡ returns (
        pos 0,
        t,
        record patient_net {
          answers = later;
          wire = patient_net.wire ++ loginret_bytes (5 % 2 ^ 32);
        },
      ))
unfolding new
replied =
    let (later, t, e, idle, len, read) =
      reply_event short_file 5 (new zeroed 0) (record patient_net { answers = ready }) refl refl
        refl refl refl refl (inl (omega arith)) in
    (later, t, e)
