-- ===== src/NativeApi/Order.antt =====
-- In which order a Java program may make the calls of NativeApi.cpp.
use files_event.Prelude.{
  true, Option-cases, inl, inr, ◌⊎◌, ltb_ℤ, pos, fault, ◌>>=◌, ℕ, ◌≡◌, List, Bool, none, some, ℤ,
  returns, Ensures-returns,
}
use files_event.Memory.{Memory}
use files_event.Posix.{Net}
use files_event.FileRecv
use files_event.Sockets.{Answers, Call}
use files_event.Server.{EventGlobal}
use files_event.Session.{Session, receiving}
use files_event.NativeApi.{
  Api, Client, fresh_api, start_network, stop_network, start_server, stop_server, start_file_recv,
  stop_file_recv, fetch_and_save_file,
}
use files_event.NativeApi.Ready.{
  Ready, After, start_network-Ready, stop_network-Ready, start_server-Ready, stop_server-Ready,
  start_file_recv-Ready,
}
use files_event.NativeApi.Holding.{
  Ready-Held, fetch_and_save_file-Ready, EndsClient, stops, stop_file_recv-Ready, unopened_stop,
  both_stops,
}

-- The states after calls in order: no client is started without a network, and no network is stopped
-- before its client.
pub data Ordered : Api → Type 0 where
  at_start : Ordered fresh_api
  network_started : {a : Api} (junk : ℕ) → Ordered a → Ordered (start_network junk a).1
  network_stopped :
      {a a' : Api} {ret : ℤ}
      → Ordered a
      → a.client ≡ none
      → stop_network a ≡ returns (ret, a')
      → Ordered a'
  server_started :
      {a : Api} (k : Answers) (junk port : ℕ) → Ordered a → Ordered (start_server k junk port a).1
  server_stopped :
      {a a' : Api} {ret : ℤ} {calls : List Call}
      → Ordered a
      → stop_server a ≡ returns (ret, a', calls)
      → Ordered a'
  client_started :
      {a a' : Api} {g : EventGlobal} {ret : ℤ} (k : Answers) (self : ℕ) (junk : Memory)
      → Ordered a
      → a.global ≡ some g
      → start_file_recv k self junk a ≡ returns (ret, a')
      → Ordered a'
  client_stopped :
      {a a' : Api} {ret : ℤ} → Ordered a → stop_file_recv a ≡ returns (ret, a') → Ordered a'
  file_fetched :
      {a a' : Api} {ret : ℤ} (net net' : Net) (remote : List ℕ) (can_create : Bool)
      → Ordered a
      → fetch_and_save_file remote can_create a net ≡ returns (ret, a', net')
      → Ordered a'

Ordered-Ready : (a : Api) → Ordered a → Ready a
Ordered-Ready a at_start = tt
Ordered-Ready a (network_started {a = b} junk r) = start_network-Ready junk b (Ordered-Ready b r)
Ordered-Ready a (network_stopped {a = b} r e h) =
    Ensures-returns After (stop_network b) (stop_network-Ready b e) h
Ordered-Ready a (server_started {a = b} k junk port r) =
    start_server-Ready k junk port b (Ordered-Ready b r)
Ordered-Ready a (server_stopped {a = b} r h) =
    Ensures-returns _ (stop_server b) (stop_server-Ready b (Ordered-Ready b r)) h
Ordered-Ready a (client_started {a = b} {g = g} k self junk r e h) =
    Ensures-returns After (start_file_recv k self junk b)
      (start_file_recv-Ready k self junk b g e (Ordered-Ready b r)) h
Ordered-Ready a (client_stopped {a = b} r h) =
    Ensures-returns After (stop_file_recv b) (stop_file_recv-Ready b (Ordered-Ready b r)) h
Ordered-Ready a (file_fetched {a = b} net net' remote can_create r h) =
    Ensures-returns _ (fetch_and_save_file remote can_create b net)
      (fetch_and_save_file-Ready remote can_create b net (Ordered-Ready b r)) h

-- After calls in order, if there is a client, then its session is there and receives a file, and `StopFileRecv`
-- has one of two outcomes. If the task has opened a file, or the client's descriptor is 0, it returns SUCCESS,
-- touching nothing that was deleted, and there is no client any more. Otherwise, as for a client that has
-- fetched nothing, the destructor of the task gives a null pointer to `ftell`.
pub Ordered-stops :
    (a : Api) (c : Client)
    → Ordered a
    → a.client ≡ some c
    → (s : Session) × (t : FileRecv.Task) × (a.heap c.session ≡ some s)
      × (s.task ≡ receiving t)
      × EndsClient a c t
Ordered-stops a c r e =
    let (g, k, seen, held) = Ready-Held a c (Ordered-Ready a r) e in
    (held.session, held.task, held.there, held.receives, stops a c g e k seen held)

-- After calls in order, if there is a client with a descriptor that is not 0, the network is stopped first. A
-- client whose task has opened no file makes `StopNetWork` give a null pointer to `ftell`, whatever other
-- sessions are in the table. With a client that has opened one, `StopNetWork` or the `StopFileRecv` behind it
-- touches foreign memory.
pub stop_network_first :
    (a : Api) (c : Client)
    → Ordered a
    → a.client ≡ some c
    → ltb_ℤ (pos 0) c.sock_id ≡ true
    → (s : Session) × (t : FileRecv.Task) × (a.heap c.session ≡ some s)
      × (s.task ≡ receiving t)
      × (((t.file ≡ none) × (stop_network a ≡ fault))
          ⊎ ((content : List ℕ) × (t.file ≡ some content)
              × ((stop_network a >>= λ r. stop_file_recv r.1) ≡ fault)))
stop_network_first a c r e is_socket =
    let (g, k, seen, held) = Ready-Held a c (Ordered-Ready a r) e in
    (
      held.session,
      held.task,
      held.there,
      held.receives,
      elim (Option-cases held.task.file) [
        | inl unopened ↦ inl (unopened, unopened_stop a c g e k held unopened)
        | inr (content, opened) ↦ inr (content, opened, both_stops a c g e k is_socket)
      ],
    )
