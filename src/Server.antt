-- ===== src/Server.antt =====
-- EventGlobal.cpp, TcpServer.cpp and TcpClient.cpp: what the two programs share, the listening server
-- and the client. Sessions enter the table when a connection is accepted or made.
pub mod Accepting
pub mod Listening
use files_event.Prelude.{
  ℕ, ◌%◌, ◌^◌, List, [], ◌∷◌, ◌++◌, ltb, if◌then◌else◌, Bool, true, false, Option, none, some, ℤ,
  pos, negsuc, ltb_ℤ, pos_part, ◌&&◌, Run, returns, deref, in_bounds, ◌>>=◌, ◌>>◌,
}
use files_event.Memory.{Memory}
use files_event.Posix.{Net}
use files_event.Wire.{file_send_msg, file_recv_msg}
use files_event.SessionTable.{Table, empty, get, put, get_and_remove, get_count}
use files_event.Session.{
  Session, Base, loop_base, deletable, malloced, destroy, Effect, exit, set_global, set_status,
  add_read_event, add_write_event, fetch_file_and_save,
}
use files_event.Sockets.{Answers, Call, set_block, tcp_listen, tcp_connect, closed, unlisted}

-- `EventGlobal`; `has_base` is whether there is an event base, `manager` the session table.
pub record EventGlobal : Type 0 where
  pub has_base : Bool
  pub manager : Option Table
  pub timeout : ℕ
  pub max_connections : ℕ

-- The constructor; `junk` is what `mMaxConnections` holds before.
unfoldable pub new_global : ℕ → EventGlobal
new_global junk = record { has_base = false; manager = none; timeout = 100; max_connections = junk }

abbrev or_empty : Option Table → Table
or_empty none = empty
or_empty (some t) = t

-- `Create` makes what is missing.
unfoldable pub create : EventGlobal → EventGlobal
create g = record g { has_base = true; manager = some (or_empty g.manager) }

abbrev sessions_of : Option Table → List ℕ
sessions_of none = []
sessions_of (some t) = (files_event.SessionTable.destroy t).0

-- `Destroy`: the sessions that are deleted with the table.
unfoldable pub destroy_global : EventGlobal → List ℕ × EventGlobal
destroy_global g = (sessions_of g.manager, record g { has_base = false; manager = none })

abbrev pub set_timeout : ℕ → EventGlobal → EventGlobal
set_timeout v g = record g { timeout = v }

abbrev pub set_max_connections : ℕ → EventGlobal → EventGlobal
set_max_connections v g = record g { max_connections = v }

-- `TcpServer`; `accepts` is whether `mEvAccept` is there, `accept_base` its `ev_base`.
pub record TcpServer : Type 0 where
  pub port : ℕ
  pub listen_fd : ℤ
  pub connections : ℕ
  pub accepts : Bool
  pub accept_base : Base

-- The constructor; `junk` is what `ev_base` holds in the memory of the accept event.
unfoldable pub new_server : ℕ → ℕ → TcpServer
new_server junk port = record {
  port = port;
  listen_fd = pos 0;
  connections = 256;
  accepts = true;
  accept_base = malloced junk;
}

unfoldable pub set_connections : ℕ → TcpServer → TcpServer
set_connections n s = record s { connections = if ltb 0 n then n else s.connections }

abbrev pub or_listen : ℤ → Option ℤ → ℤ
or_listen old none = old
or_listen old (some fd) = fd

-- `registerEvent`: the result, and the descriptor whose event is added to the loop. It is added also when
-- the socket could not be made.
unfoldable pub register_server :
    Answers → TcpServer → EventGlobal → ℤ × TcpServer × EventGlobal × Option ℤ × List Call
unfolding tcp_listen
register_server k s g =
    if s.accepts
    then (let (ret, out, calls) = tcp_listen k s.port in
        (
          ret,
          record s { listen_fd = or_listen s.listen_fd out; accept_base = loop_base },
          set_max_connections s.connections g,
          some (or_listen s.listen_fd out),
          calls,
        ))
    else (pos 0, s, g, none, [])

-- The event of the accept is removed and freed.
abbrev remove_accept : TcpServer → Run (TcpServer × List Call)
remove_accept s =
    if s.accepts
    then (do
      in_bounds (deletable s.accept_base)
      returns (record s { accepts = false }, unlisted s.listen_fd ∷ []))
    else returns (s, [])

unfoldable pub shutdown : TcpServer → Run (TcpServer × List Call)
shutdown s = do
  (s', calls) ← remove_accept s
  returns (
      if ltb_ℤ (pos 0) s.listen_fd
      then (record s' { listen_fd = negsuc 0 }, calls ++ (closed s.listen_fd ∷ []))
      else (s', calls))

-- Both events of a new session are added; it is told to exit if there are too many.
abbrev pub started : ℕ → Table → Session → Session × List Effect
started most table s =
    let (s₁, reads) = add_read_event s in
    let (s₂, writes) = add_write_event s₁ in
    (if ltb_ℤ (pos most) (get_count table) then set_status exit s₂ else s₂, reads ++ writes)

-- The new session is put into the table.
unfoldable pub enter :
    ℕ → ℕ → Memory → EventGlobal → Run (Option Session × EventGlobal × List Effect)
enter sid self junk g = do
  table ← deref g.manager
  let (sequence, table') = put sid self table
  let (s, effects) =
      started g.max_connections table'
        (set_global true (files_event.Session.new self sid file_send_msg junk))
  returns (some s, record g { manager = some table' }, effects)

-- `onAccept`. `client` is what `accept` returns (`none` for -1), `self` the pointer to the new session; the
-- `uint16_t` of its descriptor is its number.
unfoldable pub on_accept :
    Option ℕ → ℕ → Memory → EventGlobal → Run (Option Session × EventGlobal × List Effect)
on_accept none self junk g = returns (none, g, [])
on_accept (some client) self junk g = enter (client % 2 ^ 16) self junk g

-- `TcpClient`.
pub record TcpClient : Type 0 where
  pub sock_id : ℤ
  pub client_session : Option Session

-- The constructor.
abbrev pub new_client : TcpClient
new_client = record { sock_id = pos 0; client_session = none }

-- `connect`: a session that receives a file, if the connection stands.
unfoldable pub connect : Answers → ℕ → Memory → TcpClient → ℤ × TcpClient × List Call
unfolding tcp_connect set_block
connect k self junk c =
    let (ret, out, calls) = tcp_connect k in
    if ltb_ℤ ret (pos 0) then (ret, record c { sock_id = or_listen c.sock_id out }, calls) else (
      ret,
      record {
        sock_id = or_listen c.sock_id out;
        client_session = some (
            files_event.Session.new self (pos_part (or_listen c.sock_id out) % 2 ^ 16) file_recv_msg
              junk);
      },
      calls ++ (set_block k (or_listen c.sock_id out) false).1,
    )

abbrev pub take_out : ℕ → Table → Option ℕ → Option ℕ × Table
take_out sid table none = (none, table)
take_out sid table (some found) = get_and_remove sid table

-- `disConnect` of a client that has a socket and a session: the session deleted, if the table holds one
-- under the number, the `uint16_t` of `mSockId`.
unfoldable pub dis_connect : ℕ → Table → Option ℕ × Table
dis_connect sid table = take_out sid table (get sid table).0

-- The sessions that are there, by their pointers.
abbrev pub Heap : Type 0
Heap = ℕ → Option Session

-- `delete` of what was taken out, if anything was: its destructor runs.
abbrev pub delete_found : Heap → Option ℕ → Run (List Effect)
delete_found heap none = returns []
delete_found heap (some p) = deref (heap p) >>= destroy

-- `disConnect`. `seen` is the argument of the session; the result is the session deleted, what is at `seen`
-- afterwards, and what the destructor asks for.
unfoldable pub disconnect_client :
    Heap → TcpClient → Option EventGlobal → Run (Option ℕ × Option EventGlobal × List Effect)
unfolding dis_connect
disconnect_client heap c seen = elim c.client_session [
  | none ↦ returns (none, seen, [])
  | some s ↦
      if ltb_ℤ (pos 0) c.sock_id
      then (do
        g ← deref seen
        table ← deref g.manager
        let (deleted, table') = dis_connect (pos_part c.sock_id % 2 ^ 16) table
        effects ← delete_found heap deleted
        returns (deleted, some (record g { manager = some table' }), effects))
      else returns (none, seen, [])
]

-- `registerEvent` of a client that has a session; `sid` is the `uint16_t` of `mSockId`.
unfoldable pub register_client :
    ℕ → Session → EventGlobal → Run (Session × EventGlobal × List Effect)
unfolding put
register_client sid s g = do
  table ← deref g.manager
  let (sequence, table') = put sid s.self table
  let (s', effects) = add_read_event (set_global true s)
  returns (s', record g { manager = some table' }, effects)

unfoldable pub fetch_and_save_file : List ℕ → Bool → TcpClient → Net → Run (ℤ × TcpClient × Net)
fetch_and_save_file remote can_create c net = elim c.client_session [
  | none ↦ returns (pos 0, c, net)
  | some s ↦ do
    (ret, s', net') ← fetch_file_and_save remote can_create s net
    returns (ret, record c { client_session = some s' }, net')
]
