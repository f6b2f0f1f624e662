-- ===== src/Tests/Servers.antt =====
-- Runs of the server's accept, of the sockets and of the queue.
use files_event.Prelude.{
  ◌==◌, ◌||◌, ◌&&◌, not, fault, ◌++◌, take, codes, replicate, length-replicate, ℕ, ◌≡◌, refl, arith,
  List, [], ◌∷◌, true, some, none, length, pos, negsuc, ltb_ℤ, ◌+ℤ◌, ◌-ℤ◌, ◌⊎◌, if◌then◌else◌,
  returns,
}
use files_event.Posix.{Net, Answer, accept}
use files_event.Sockets.Pieces.{tcp_send_data, tcp_send_data_lem}
use files_event.Memory.{zeroed}
use files_event.SessionTable.{Table, empty, put, get}
use files_event.Session.{
  Session, receiving, destroyed, add_read_event, set_global, Effect, no_task, normal, exit,
  set_event, add_event, read_event, write_event, ev_read, ev_write, call_on_read, call_on_write,
}
use files_event.Sockets.{granted, Call, Answers, tcp_listen, left_open, fails, tcp_listen_lem}
use files_event.Server.Listening.{shutdown-register}
use files_event.Server.{
  TcpServer, Heap, new_server, register_server, shutdown, EventGlobal, on_accept, register_client,
  disconnect_client,
}
use files_event.Server.Accepting.{on_accept_lem, disconnect-register}
use files_event.Tests.Requests.{waiting}
use files_event.Tests.Receiving.{client}

abbrev pub global : EventGlobal
global = record { has_base = true; manager = some empty; timeout = 100; max_connections = 256 }

on_accept_lem_example :
    (s : Session) × (on_accept (some 9) 90 zeroed global
      ≡ returns (
        some s,
        record global { manager = some (put 9 90 empty).1 },
        set_event read_event (pos 9) ev_read call_on_read
            ∷ add_event read_event
            ∷ set_event write_event (pos 9) ev_write call_on_write
            ∷ add_event write_event
            ∷ [],
      ))
    × (s.self ≡ 90)
    × (s.task ≡ no_task)
    × (s.status
        ≡ (if ltb_ℤ (pos global.max_connections) (empty.count +ℤ pos 1) then exit else normal))
    × ((get 9 (put 9 90 empty).1).0 ≡ some 90)
    × (s.sid ≡ 9)
    × (s.global ≡ true)
    × (s.reading ≡ true)
    × (s.writing ≡ true)
on_accept_lem_example = on_accept_lem 9 90 zeroed global empty refl (omega arith)

-- A client that has opened its file.
abbrev fetching : Session
fetching = record waiting { task = receiving client }

abbrev one_session : Heap
one_session p = if p == 70 then some (add_read_event (set_global true fetching)).0 else none

disconnect-register_example :
    (s' : Session) × (g' : EventGlobal) × (effects : List Effect) × (register_client 9 fetching
        global
      ≡ returns (s', g', effects))
    × (((content : List ℕ) × (g'' : EventGlobal) × (left : Table) × (client.file ≡ some content)
          × (disconnect_client one_session
                (record { sock_id = pos 9; client_session = some s' })
                (some g')
              ≡ returns (some 70, some g'', destroyed s'))
          × (g''.manager ≡ some left)
          × ((get 9 left).0 ≡ none))
        ⊎ ((client.file ≡ none)
            × (disconnect_client one_session
                  (record { sock_id = pos 9; client_session = some s' })
                  (some g')
                ≡ fault)))
disconnect-register_example =
    disconnect-register 9 fetching client global empty one_session refl (omega arith) (omega arith)
      refl refl

-- The address is in use.
abbrev pub refused : Answers
refused = record {
  socket = pos 5;
  get_flags = pos 2;
  set_flags = pos 0;
  reuse = pos 0;
  no_delay = pos 0;
  bind = negsuc 0;
  listen = pos 0;
  connect = negsuc 0;
  errno = 98;
}

tcp_listen_lem_example :
    let (ret, out, calls) = tcp_listen refused 31005 in
    (ret ≡ (if granted refused then pos 31005 else pos 0 -ℤ pos refused.errno))
    × (out ≡ (if granted refused then some refused.socket else none))
    × (left_open calls ≡ (
        if granted refused || (not (fails refused.socket) && fails refused.bind)
        then pos 1
        else pos 0))
tcp_listen_lem_example = tcp_listen_lem refused 31005

abbrev queued : List ℕ
queued = 1 ∷ 2 ∷ []

-- 1400 bytes and five more, of which the first `send` takes ten.
abbrev piece : List ℕ
piece = replicate 1400 7

abbrev short_net : Net
short_net = record {
  inbox = [];
  peer_open = true;
  answers = accept 10 ∷ replicate 5 (accept 1400);
  wire = [];
}

tcp_send_data_lem_example :
    (left : List Answer) × (tcp_send_data (piece ++ codes "hello") short_net
      ≡ returns (
        pos (length (take 10 piece ++ codes "hello")),
        record short_net { answers = left; wire = [] ++ (take 10 piece ++ codes "hello") },
      ))
tcp_send_data_lem_example =
    tcp_send_data_lem piece (codes "hello") 10 (replicate 5 (accept 1400)) short_net
      (length-replicate {A = ℕ} 1400 7) (omega arith) refl
      (omega arith, (omega arith, (omega arith, (omega arith, (omega arith, tt)))))

-- A socket on descriptor 5 on which the kernel will not listen.
abbrev deaf : Answers
deaf = record refused { bind = pos 0; listen = negsuc 0 }

shutdown-register_example :
    let (ret, s₁, g₁, added, calls) = register_server deaf (new_server 7 31005) global in
    (s₂ : TcpServer) × (more : List Call) × (shutdown s₁ ≡ returns (s₂, more))
    × (g₁.max_connections ≡ 256)
    × (left_open (calls ++ more)
        ≡ (if fails deaf.socket then pos 0 else if fails deaf.bind then pos 1 else pos 0))
    × (added
        ≡ some (
            if fails deaf.socket
            then pos 0
            else if fails deaf.bind
            then pos 0
            else if fails deaf.listen
            then pos 0
            else deaf.socket))
    × (shutdown s₂ ≡ returns (s₂, []))
unfolding new_server
shutdown-register_example = shutdown-register deaf (new_server 7 31005) global refl refl (λ e. cc)
