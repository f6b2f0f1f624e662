-- ===== src/NativeApi/Holding.antt =====
-- `FetchAndSaveFile`, `StopFileRecv` and `StopNetWork` of NativeApi.cpp with a client whose session is there.
use files_event.Prelude.{
  blocked, Run, [], ◌∷◌, ◌<◌, ◌>>=◌, Option-cases, ℕ, ◌≡◌, ◌≢◌, ◌⊎◌, refl, ap, ◌∙◌, arith, List,
  Bool, true, false, Option, none, some, ℤ, pos, ltb_ℤ, returns, fault, if◌then◌else◌, ◌==◌,
  Bool-cases, inl, inr, Ensures, Ensures->>=, Ensures-bind, Ensures-deref,
}
use files_event.Posix.{Net}
use files_event.FileRecv
use files_event.SessionTable.{Table, get, put, get_and_remove, update}
use files_event.SessionTable.Deleting.{times, destroy-some}
use files_event.SessionTable.Lookup.{get_and_remove_lem}
use files_event.Server.{EventGlobal, Heap, dis_connect, destroy_global}
use files_event.Server.Accepting.{destroy-receiving}
use files_event.Session.{
  Session, TaskBase, no_task, receiving, sending, destroy, fetch_file_and_save,
}
use files_event.NativeApi.{
  Api, Client, success, failed, stop_network, stop_file_recv, fetch_and_save_file, number_of,
  delete_all,
}
use files_event.NativeApi.Ready.{Held, Ready, After, ClientOk}

-- A client of such a state, with the global that its session points to.
pub Ready-Held :
    (a : Api) (c : Client)
    → Ready a
    → a.client ≡ some c
    → (g : EventGlobal) × (a.global ≡ some g) × (c.seen ≡ some a.network) × Held g a.heap c
Ready-Held a c v e = go a.global refl
  where
    go :
        (g : Option EventGlobal)
        → a.global ≡ g
        → (g : EventGlobal) × (a.global ≡ some g) × (c.seen ≡ some a.network) × Held g a.heap c
    go none k = absurd (rw (k, e) at v)
    go (some g) k = let (seen, held) = rw (k, e) at v in (g, k, seen, held)

fetch-receiving :
    (remote : List ℕ) (can_create : Bool) (s : Session) (t : FileRecv.Task) (net : Net)
    → s.task ≡ receiving t
    → Ensures
        (λ (r : ℤ × Session × Net). (t' : FileRecv.Task) × (r.1.task ≡ receiving t'))
        (fetch_file_and_save remote can_create s net)
unfolding fetch_file_and_save
fetch-receiving remote can_create s t net task = rw task (
    Ensures->>= _ (FileRecv.set_fetch_and_save_file remote can_create t net) _ (λ r _. (r.1, refl)))

refetched :
    (a : Api) (c : Client) (g : EventGlobal) (s : Session) (t : FileRecv.Task)
    → a.client ≡ some c
    → a.global ≡ some g
    → c.seen ≡ some a.network
    → Held g a.heap c
    → s.task ≡ receiving t
    → ClientOk a.global a.network (update a.heap c.session (some s)) a.client
refetched a c g s t e k seen held task =
    let same : (c.session == c.session) ≡ true = ground arith in
    rw (e, k)
      (
        seen,
        record {
          table = held.table;
          session = s;
          task = t;
          has_table = held.has_table;
          in_table = held.in_table;
          there = ap (λ b. if b then some s else a.heap c.session) same;
          receives = task;
        },
      )

pub fetch_and_save_file-Ready :
    (remote : List ℕ) (can_create : Bool) (a : Api) (net : Net)
    → Ready a
    → Ensures (λ (r : ℤ × Api × Net). Ready r.1) (fetch_and_save_file remote can_create a net)
unfolding fetch_and_save_file
fetch_and_save_file-Ready remote can_create a net v = go a.client refl
  where
    go :
        (c : Option Client)
        → a.client ≡ c
        → Ensures (λ (r : ℤ × Api × Net). Ready r.1) (fetch_and_save_file remote can_create a net)
    go none h = rw h tt
    go (some c) h =
        let (g, k, seen, held) = Ready-Held a c v h in
        rw h (
          Ensures-deref _ (a.heap c.session) held.session _ held.there (
            Ensures-bind
              (λ (r : ℤ × Session × Net). (t' : FileRecv.Task) × (r.1.task ≡ receiving t')) _
              (fetch_file_and_save remote can_create held.session net) _
              (fetch-receiving remote can_create held.session held.task net held.receives)
              (λ r (t', task).
                refetched (record a { client = some c }) c g r.1 t' refl k seen held task)))

-- What `StopFileRecv` does with a client whose session is `s` and has task `t`.
abbrev pub EndsClient : Api → Client → FileRecv.Task → Type 0
EndsClient a c t =
    ((a' : Api) × ((t.file ≢ none) ⊎ (ltb_ℤ (pos 0) c.sock_id ≡ false))
      × (stop_file_recv a ≡ returns (success, a'))
      × (a'.client ≡ none))
    ⊎ ((t.file ≡ none) × (ltb_ℤ (pos 0) c.sock_id ≡ true) × (stop_file_recv a ≡ fault))

pub stops :
    (a : Api) (c : Client) (g : EventGlobal)
    → a.client ≡ some c
    → a.global ≡ some g
    → c.seen ≡ some a.network
    → (held : Held g a.heap c) → EndsClient a c held.task
unfolding stop_file_recv dis_connect
stops a c g e k seen held =
    let n = number_of c.sock_id in
    let same : (a.network == a.network) ≡ true = ground arith in
    let out : (get_and_remove n held.table).0 ≡ some c.session =
      (get_and_remove_lem n n held.table).0 ∙ held.in_table in
    elim (Bool-cases (ltb_ℤ (pos 0) c.sock_id)) [
      | inr unconnected ↦
          inl (record a { client = none }, inr unconnected, rw (e, unconnected) refl, refl)
      | inl is_socket ↦ elim (destroy-receiving held.session held.task held.receives) [
        | inl (content, opened, done) ↦ inl (
          record a {
            global = some (record g { manager = some (get_and_remove n held.table).1 });
            client = none;
            heap = update a.heap c.session none;
          },
          inl (λ z. cc),
          rw
              (
                e, is_socket, held.there, seen, k, same, held.has_table, held.in_table, out,
                held.there, done,
              )
              refl,
          refl,
        )
        | inr (unopened, crash) ↦ inr (
          unopened,
          is_socket,
          rw
              (
                e, is_socket, held.there, seen, k, same, held.has_table, held.in_table, out,
                held.there, crash,
              )
              refl,
        )
      ]
    ]

no_client_stop : (a : Api) → a.client ≡ none → stop_file_recv a ≡ returns (failed, a)
unfolding stop_file_recv
no_client_stop a e = rw e refl

pub stop_file_recv-Ready : (a : Api) → Ready a → Ensures After (stop_file_recv a)
stop_file_recv-Ready a v = go a.client refl
  where
    left : (c : Client) (t : FileRecv.Task) → EndsClient a c t → Ensures After (stop_file_recv a)
    left c t (inl (a', why, done, gone)) = rw (done, gone) tt
    left c t (inr (unopened, is_socket, crash)) = rw crash tt

    go : (c : Option Client) → a.client ≡ c → Ensures After (stop_file_recv a)
    go none h = rw (no_client_stop a h) v
    go (some c) h =
        let (g, k, seen, held) = Ready-Held a c v h in left c held.task (stops a c g h k seen held)

-- The destructor does not wait.
destroy-ends : (s : Session) → destroy s ≢ blocked
unfolding destroy FileRecv.close
destroy-ends s e = go s.task refl
  where
    go : (task : TaskBase) → s.task ≡ task → ⊥
    go no_task h = let k = rw h at e in cc
    go (sending t) h = let k = rw h at e in cc
    go (receiving t) h = elim (Option-cases t.file) [
      | inl unopened ↦ let k = rw (h, unopened) at e in cc
      | inr (content, opened) ↦ let k = rw (h, opened) at e in cc
    ]

Fails-bind :
    {A B : Type 0} (m : Run A) (f : A → Run B)
    → m ≢ blocked
    → ((a : A) → f a ≡ fault)
    → (m >>= f) ≡ fault
Fails-bind (returns a) f ends h = h a
Fails-bind fault f ends h = refl
Fails-bind blocked f ends h = absurd (ends refl)

Ends-bind :
    {A B : Type 0} (m : Run A) (f : A → Run B)
    → m ≢ blocked
    → ((a : A) → f a ≢ blocked)
    → (m >>= f) ≢ blocked
Ends-bind (returns a) f ends h e = h a e
Ends-bind fault f ends h e = cc
Ends-bind blocked f ends h e = ends refl

Fails-both :
    {A B D : Type 0} (m : Run A) (f : A → B) (h : B → Run D)
    → m ≢ blocked
    → ((a : A) → h (f a) ≡ fault)
    → (m >>= (λ a. returns (f a)) >>= h) ≡ fault
Fails-both (returns a) f h ends k = k a
Fails-both fault f h ends k = refl
Fails-both blocked f h ends k = absurd (ends refl)

-- A session of the table whose destructor fails makes the deletion of all fail.
delete_all-fault :
    (p : ℕ) (s : Session) (ps : List ℕ) (heap : Heap)
    → heap p ≡ some s
    → destroy s ≡ fault
    → 0 < times p ps
    → delete_all ps heap ≡ fault
unfolding times
delete_all-fault p s [] heap there crash more = absurd (omega arith)
delete_all-fault p s (q ∷ qs) heap there crash more = elim (Bool-cases (q == p)) [
  | inl same ↦ let e : q ≡ p = ground arith in rw (e, there, crash) refl
  | inr other ↦ elim (Option-cases (heap q)) [
    | inl gone ↦ rw gone refl
    | inr (s', held) ↦ rw held (
        Fails-bind (destroy s') (λ effects. delete_all qs (update heap q none)) (destroy-ends s')
          (λ _.
            delete_all-fault p s qs (update heap q none)
              (ap (λ b. if b then none else heap p) (flipped q p other) ∙ there) crash
              (omega (arith, rw other at more))))
  ]
]
  where
    flipped : (x y : ℕ) → (x == y) ≡ false → (y == x) ≡ false
    flipped x y h = ground arith

-- The network is stopped with a client whose task has opened no file.
pub unopened_stop :
    (a : Api) (c : Client) (g : EventGlobal)
    → a.client ≡ some c
    → a.global ≡ some g
    → (held : Held g a.heap c) → held.task.file ≡ none
    → stop_network a ≡ fault
unfolding stop_network destroy_global destroy FileRecv.close
unopened_stop a c g e k held unopened =
    let crash : destroy held.session ≡ fault = rw (held.receives, unopened) refl in
    let more =
      destroy-some c.session (number_of c.sock_id) held.table (omega arith) held.in_table in
    rw
      (
        k,
        held.has_table,
        delete_all-fault c.session held.session (files_event.SessionTable.destroy held.table).0
            a.heap held.there crash more,
      )
      refl

delete_all-ends : (ps : List ℕ) (heap : Heap) → delete_all ps heap ≢ blocked
delete_all-ends [] heap e = cc
delete_all-ends (p ∷ ps) heap e = elim (Option-cases (heap p)) [
  | inl gone ↦ let k = rw gone at e in cc
  | inr (s, there) ↦
      Ends-bind (destroy s) (λ effects. delete_all ps (update heap p none)) (destroy-ends s)
        (λ _. delete_all-ends ps (update heap p none)) (rw there at e)
]

-- With the network stopped, the client's session leads to no global.
no_network_stop :
    (a : Api) (c : Client)
    → a.client ≡ some c
    → a.global ≡ none
    → ltb_ℤ (pos 0) c.sock_id ≡ true
    → stop_file_recv a ≡ fault
unfolding stop_file_recv
no_network_stop a c e k is_socket = elim (Option-cases (a.heap c.session)) [
  | inl gone ↦ rw (e, is_socket, gone) refl
  | inr (s, there) ↦ elim (Option-cases c.seen) [
    | inl unseen ↦ rw (e, is_socket, there, unseen) refl
    | inr (n, seen) ↦ rw (e, is_socket, there, seen, k) refl
  ]
]

-- Both calls, the network first.
pub both_stops :
    (a : Api) (c : Client) (g : EventGlobal)
    → a.client ≡ some c
    → a.global ≡ some g
    → ltb_ℤ (pos 0) c.sock_id ≡ true
    → (stop_network a >>= λ r. stop_file_recv r.1) ≡ fault
unfolding stop_network
both_stops a c g e k is_socket = rw k (
    Fails-both (delete_all (destroy_global g).0 a.heap) _ _
      (delete_all-ends (destroy_global g).0 a.heap)
      (λ heap. no_network_stop (record a { global = none; heap = heap }) c e refl is_socket))
