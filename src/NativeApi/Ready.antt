-- ===== src/NativeApi/Ready.antt =====
-- What the calls of NativeApi.cpp keep, when they are made in order: a client's session is there, and in the table.
use files_event.Prelude.{
  ℕ, ◌≡◌, refl, ap, sym, ◌∙◌, subst, arith, List, true, Option, none, some, ℤ, pos, ltb_ℤ, returns,
  if◌then◌else◌, ◌==◌, Bool-cases, inl, inr, Ensures, Ensures-if, Ensures->>=,
}
use files_event.Memory.{Memory}
use files_event.FileRecv
use files_event.Sockets.{Answers, Call, tcp_connect}
use files_event.SessionTable.{Table, get, put}
use files_event.Server.{
  EventGlobal, TcpClient, Heap, new_client, register_server, new_server, connect, register_client,
  dis_connect, destroy_global, or_listen,
}
use files_event.Server.Accepting.{found_after, add_read_event-task}
use files_event.Session.{
  Session, TaskBase, no_task, receiving, sending, destroyed, set_global, add_read_event,
  fetch_file_and_save,
}
use files_event.NativeApi.{
  Api, Client, Listener, failed, start_network, stop_network, start_server, stop_server,
  start_file_recv, registered, connected, number_of, delete_all, base_of,
}

-- The client's session is there, receives a file, and is in the table under its descriptor.
pub record Held (g : EventGlobal) (heap : Heap) (c : Client) : Type 0 where
  pub table : Table
  pub session : Session
  pub task : FileRecv.Task
  pub has_table : g.manager ≡ some table
  pub in_table : (get (number_of c.sock_id) table).0 ≡ some c.session
  pub there : heap c.session ≡ some session
  pub receives : session.task ≡ receiving task

abbrev pub ClientOk : Option EventGlobal → ℕ → Heap → Option Client → Type 0
ClientOk g n heap none = Unit {0}
ClientOk none n heap (some c) = ⊥
ClientOk (some g) n heap (some c) = (c.seen ≡ some n) × Held g heap c

abbrev pub Ready : Api → Type 0
Ready a = ClientOk a.global a.network a.heap a.client

pub start_network-Ready : (junk : ℕ) (a : Api) → Ready a → Ready (start_network junk a).1
unfolding start_network
start_network-Ready junk a v = go a.global a.client refl refl
  where
    go :
        (g : Option EventGlobal) (c : Option Client)
        → a.global ≡ g
        → a.client ≡ c
        → Ready (start_network junk a).1
    go (some g) c h k = rw h (rw h at v)
    go none none h k = rw (h, k) tt
    go none (some c) h k = absurd (rw (h, k) at v)

abbrev pub After : ℤ × Api → Type 0
After r = Ready r.1

pub stop_network-Ready : (a : Api) → a.client ≡ none → Ensures After (stop_network a)
unfolding stop_network
stop_network-Ready a e = go a.global refl
  where
    go : (g : Option EventGlobal) → a.global ≡ g → Ensures After (stop_network a)
    go none h = rw h (rw e tt)
    go (some g) h =
        rw h (Ensures->>= After (delete_all (destroy_global g).0 a.heap) _ (λ heap _. rw e tt))

pub start_server-Ready :
    (k : Answers) (junk port : ℕ) (a : Api) → Ready a → Ready (start_server k junk port a).1
unfolding start_server register_server new_server
start_server-Ready k junk port a v = go a.server a.global a.client refl refl refl
  where
    go :
        (s : Option Listener) (g : Option EventGlobal) (c : Option Client)
        → a.server ≡ s
        → a.global ≡ g
        → a.client ≡ c
        → Ready (start_server k junk port a).1
    go (some s) g c h k e = rw h v
    go none none c h k e = rw (h, k) (rw k at v)
    go none (some g) none h k e = rw (h, k, e) tt
    go none (some g) (some c) h k e =
        let (seen, held) = rw (k, e) at v in
        rw (h, k, e)
          (
            seen,
            record {
              table = held.table;
              session = held.session;
              task = held.task;
              has_table = held.has_table;
              in_table = held.in_table;
              there = held.there;
              receives = held.receives;
            },
          )

pub stop_server-Ready :
    (a : Api) → Ready a → Ensures (λ (r : ℤ × Api × List Call). Ready r.1) (stop_server a)
unfolding stop_server
stop_server-Ready a v = go a.server refl
  where
    go :
        (l : Option Listener)
        → a.server ≡ l
        → Ensures (λ (r : ℤ × Api × List Call). Ready r.1) (stop_server a)
    go none h = rw h v
    go (some l) h = rw h (
        Ensures->>= _ (base_of a l.base) _
          (λ there _. Ensures->>= _ (files_event.Server.shutdown l.server) _ (λ done _. v)))

registered-Ready :
    (fd : ℤ) (self : ℕ) (s : Session) (t : FileRecv.Task) (a : Api) (g : EventGlobal)
    → s.self ≡ self
    → s.task ≡ receiving t
    → Ensures After (registered fd self s a (some g))
unfolding register_client
registered-Ready fd self s t a g own task = go g.manager refl
  where
    same : (self == self) ≡ true
    same = ground arith

    go : (m : Option Table) → g.manager ≡ m → Ensures After (registered fd self s a (some g))
    go none e = rw e tt
    go (some table) e = rw e (
      refl,
      record {
        table = (put (number_of fd) s.self table).1;
        session = (add_read_event (set_global true s)).0;
        task = t;
        has_table = refl;
        in_table = found_after (number_of fd) s.self table ∙ ap some own;
        there =
            ap (λ b. if b then some (add_read_event (set_global true s)).0 else a.heap self) same;
        receives = add_read_event-task (set_global true s) ∙ task;
      },
    )

-- `connect` makes a session that receives a file, or none.
abbrev MadeFor : ℕ → Option Session → Type 0
MadeFor self none = Unit {0}
MadeFor self (some s) = (s.self ≡ self) × ((t : FileRecv.Task) × (s.task ≡ receiving t))

connect-MadeFor :
    (k : Answers) (self : ℕ) (junk : Memory)
    → MadeFor self (connect k self junk new_client).1.client_session
unfolding connect files_event.Session.new
connect-MadeFor k self junk = elim (Bool-cases (ltb_ℤ (tcp_connect k).0 (pos 0))) [
  | inl bad ↦ rw bad tt
  | inr good ↦ rw good (refl, (FileRecv.new junk, refl))
]

connected-Ready :
    (ret : ℤ) (self : ℕ) (c : TcpClient) (a : Api) (g : EventGlobal)
    → a.global ≡ some g
    → Ready a
    → MadeFor self c.client_session
    → Ensures After
        (if ltb_ℤ ret (pos 0) then returns (failed, a) else connected self a c c.client_session)
connected-Ready ret self c a g e v = go c.client_session
  where
    go :
        (o : Option Session)
        → MadeFor self o
        → Ensures After (if ltb_ℤ ret (pos 0) then returns (failed, a) else connected self a c o)
    go none m = Ensures-if After (ltb_ℤ ret (pos 0)) _ _ v v
    go (some s) (own, (t, task)) = Ensures-if After (ltb_ℤ ret (pos 0)) _ _ v (
        subst (λ o. Ensures After (registered c.sock_id self s a o)) (sym e)
          (registered-Ready c.sock_id self s t a g own task))

pub start_file_recv-Ready :
    (k : Answers) (self : ℕ) (junk : Memory) (a : Api) (g : EventGlobal)
    → a.global ≡ some g
    → Ready a
    → Ensures After (start_file_recv k self junk a)
unfolding start_file_recv
start_file_recv-Ready k self junk a g e v = go a.client refl
  where
    go : (c : Option Client) → a.client ≡ c → Ensures After (start_file_recv k self junk a)
    go (some c) h = rw h (rw h at v)
    go none h =
        let r : ℤ × TcpClient × List Call = connect k self junk new_client in
        rw h (
          connected-Ready r.0 self r.1 (record a { client = none }) g e tt
            (connect-MadeFor k self junk))
