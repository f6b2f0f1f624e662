-- ===== src/NativeApi.antt =====
-- NativeApi.cpp: what a Java program may call. There are one station, at most one server and at most one client
-- in the process. The events of the loop between the calls are left out, and so are the strings' copies.
pub mod Ready
pub mod Holding
pub mod Order
use files_event.Prelude.{
  ℕ, ◌+◌, ◌%◌, ◌^◌, ◌==◌, List, [], if◌then◌else◌, Bool, Option, none, some, ℤ, pos, negsuc, ltb_ℤ,
  pos_part, Run, returns, fault, deref, in_bounds, ◌>>=◌, ◌>>◌, ◌∷◌,
}
use files_event.Memory.{Memory}
use files_event.Posix.{Net}
use files_event.SessionTable.{update}
use files_event.Session.{Session, destroy, fetch_file_and_save}
use files_event.Sockets.{Answers, Call}
use files_event.Server.{
  EventGlobal, TcpServer, new_server, register_server, shutdown, TcpClient, new_client, connect,
  dis_connect, register_client, Heap, delete_found, destroy_global,
}
use files_event.Reactor.{made_global}

abbrev pub success : ℤ
success = pos 1

abbrev pub failed : ℤ
failed = negsuc 0

-- `mpClient`, with the pointer to its session. `seen` is the `mArg` of the session: the number of the network
-- whose EventGlobal it points to.
pub record Client : Type 0 where
  pub sock_id : ℤ
  pub session : ℕ
  pub seen : Option ℕ

-- `mpServer`; `base` is the number of the network in whose loop its event is, if it was added to one.
pub record Listener : Type 0 where
  pub server : TcpServer
  pub base : Option ℕ

-- `mStatiion` (its global, and how often a network was started), `mpServer`, `mpClient`, and the sessions that
-- are there.
pub record Api : Type 0 where
  pub global : Option EventGlobal
  pub network : ℕ
  pub server : Option Listener
  pub client : Option Client
  pub heap : Heap

abbrev pub fresh_api : Api
fresh_api = record { global = none; network = 0; server = none; client = none; heap = λ p. none }

-- `mIsStartup` is 1 just while there is a global: no signal comes.
unfoldable pub start_network : ℕ → Api → ℤ × Api
start_network junk a = elim a.global [
  | none ↦ (success, record a { global = some (made_global junk); network = a.network + 1 })
  | some g ↦ (failed, a)
]

-- The sessions are deleted one after the other.
abbrev pub delete_all : List ℕ → Heap → Run Heap
delete_all [] heap = returns heap
delete_all (p ∷ ps) heap = do
  s ← deref (heap p)
  effects ← destroy s
  delete_all ps (update heap p none)

-- `shutdown` of the station, whose `Destroy` deletes the sessions of the table, and the global.
unfoldable pub stop_network : Api → Run (ℤ × Api)
unfolding destroy_global
stop_network a = elim a.global [
  | none ↦ returns (failed, a)
  | some g ↦ do
    heap ← delete_all (destroy_global g).0 a.heap
    returns (success, record a { global = none; heap = heap })
]

-- The server is kept also if it cannot listen, or if there is no network. The calls on its socket come last.
abbrev pub new_listening : Answers → ℕ → ℕ → Api → Option EventGlobal → ℤ × Api × List Call
new_listening k junk port a none =
    (pos 0, record a { server = some (record { server = new_server junk port; base = none }) }, [])
new_listening k junk port a (some g) =
    let (ret, s, g', event, calls) = register_server k (new_server junk port) g in
    (
      ret,
      record a { global = some g'; server = some (record { server = s; base = some a.network }) },
      calls,
    )

unfoldable pub start_server : Answers → ℕ → ℕ → Api → ℤ × Api × List Call
unfolding register_server new_server
start_server k junk port a = elim a.server [
  | none ↦ new_listening k junk port a a.global
  | some s ↦ (failed, a, [])
]

-- What points to the global of network `n`, or to its loop, may be followed just while that network is there.
abbrev pub network_of : Api → ℕ → Run EventGlobal
network_of a n = do g ← deref a.global; in_bounds (n == a.network); returns g

-- The loop that `event_del` goes to, if the event was added to one.
abbrev pub base_of : Api → Option ℕ → Run (Unit {0})
base_of a none = returns tt
base_of a (some n) = network_of a n >>= λ _. returns tt

-- `shutdown` of the server, and `delete`.
unfoldable pub stop_server : Api → Run (ℤ × Api × List Call)
unfolding shutdown
stop_server a = elim a.server [
  | none ↦ returns (failed, a, [])
  | some l ↦ do
    there ← base_of a l.base
    (s, calls) ← shutdown l.server
    returns (success, record a { server = none }, calls)
]

-- The `EventGlobal` behind the session's `mArg`.
abbrev pub global_of : Api → Option ℕ → Run EventGlobal
global_of a none = fault
global_of a (some n) = network_of a n

-- The `uint16_t` of a descriptor.
abbrev pub number_of : ℤ → ℕ
number_of fd = pos_part fd % 2 ^ 16

-- `registerEvent` does nothing without a network. `self` is the pointer to the session.
abbrev pub registered : ℤ → ℕ → Session → Api → Option EventGlobal → Run (ℤ × Api)
registered fd self s a none = returns (
  success,
  record a {
    client = some (record { sock_id = fd; session = self; seen = none });
    heap = update a.heap self (some s);
  },
)
registered fd self s a (some g) = do
  (s', g', effects) ← register_client (number_of fd) s g
  returns (
    success,
    record a {
      global = some g';
      client = some (record { sock_id = fd; session = self; seen = some a.network });
      heap = update a.heap self (some s');
    },
  )

abbrev pub connected : ℕ → Api → TcpClient → Option Session → Run (ℤ × Api)
connected self a c none = returns (failed, a)
connected self a c (some s) = registered c.sock_id self s a a.global

-- The calls on the client's socket are those of `connect`.
unfoldable pub start_file_recv : Answers → ℕ → Memory → Api → Run (ℤ × Api)
unfolding connect
start_file_recv k self junk a = elim a.client [
  | some c ↦ returns (failed, a)
  | none ↦
      let (ret, c, calls) = connect k self junk new_client in
      if ltb_ℤ ret (pos 0) then returns (failed, a) else connected self a c c.client_session
]

abbrev pub forget : Option ℕ → Heap → Heap
forget none heap = heap
forget (some p) heap = update heap p none

-- The session that the table holds under the descriptor is deleted, and its destructor runs.
abbrev pub taken_out : ℤ → Api → EventGlobal → Run (ℤ × Api)
taken_out fd a g = do
  table ← deref g.manager
  let (deleted, table') = dis_connect (number_of fd) table
  effects ← delete_found a.heap deleted
  returns (
    success,
    record a {
      global = some (record g { manager = some table' });
      client = none;
      heap = forget deleted a.heap;
    },
  )

-- `disConnect`, which looks at the session's global if the descriptor is positive, and `delete`.
unfoldable pub stop_file_recv : Api → Run (ℤ × Api)
stop_file_recv a = elim a.client [
  | none ↦ returns (failed, a)
  | some c ↦
      if ltb_ℤ (pos 0) c.sock_id
      then (do s ← deref (a.heap c.session); g ← global_of a c.seen; taken_out c.sock_id a g)
      else returns (success, record a { client = none })
]

unfoldable pub fetch_and_save_file : List ℕ → Bool → Api → Net → Run (ℤ × Api × Net)
fetch_and_save_file remote can_create a net = elim a.client [
  | none ↦ returns (failed, a, net)
  | some c ↦ do
    s ← deref (a.heap c.session)
    (ret, s', net') ← fetch_file_and_save remote can_create s net
    returns (success, record a { heap = update a.heap c.session (some s') }, net')
]
