-- ===== src/Server/Accepting.antt =====
-- What `onAccept` of TcpServer.cpp leaves in the table, and what `disConnect` of TcpClient.cpp takes out.
use files_event.Prelude.{
  ℕ, ◌+◌, ◌%◌, ◌^◌, ◌<◌, ◌≡◌, refl, ap, sym, subst, ◌∙◌, arith, List, [], ◌∷◌, Bool, true, false,
  Option, none, some, pos, ltb_ℤ, ltb, ◌+ℤ◌, ◌-ℤ◌, ◌⊎◌, inl, inr, returns, fault, Option-cases,
  if◌then◌else◌, ◌==◌,
}
use files_event.Memory.{Memory}
use files_event.FileRecv
use files_event.Wire.{file_send_msg}
use files_event.SessionTable.{Table, get, put, get_and_remove, get_count, row_of}
use files_event.SessionTable.Lookup.{put_lem, get_and_remove_lem}
use files_event.Session.{
  Session, TaskBase, no_task, receiving, destroy, destroyed, Status, normal, exit, Effect,
  set_event, add_event, read_event, write_event, ev_read, ev_write, call_on_read, call_on_write,
  add_read_event, add_write_event, set_global, set_status,
}
use files_event.Server.{
  EventGlobal, on_accept, enter, take_out, started, dis_connect, register_client, disconnect_client,
  Heap,
}

pub found_after : (sid self : ℕ) (table : Table) → (get sid (put sid self table).1).0 ≡ some self
found_after sid self table =
    let (p, q, r) = put_lem sid self sid table in
    let same : (sid == sid) ≡ true = ground arith in
    ap (λ (x : Option ℕ × ℕ). x.0) q
    ∙ ap (λ b. (if b then (some self, (get sid table).1) else get sid table).0) same

told :
    (b : Bool) (s : Session)
    → s.status ≡ normal
    → let s' = if b then set_status exit s else s in
      (s'.self ≡ s.self)
      × (s'.task ≡ s.task)
      × (s'.status ≡ (if b then exit else normal))
      × (s'.sid ≡ s.sid)
      × (s'.global ≡ s.global)
      × (s'.reading ≡ s.reading)
      × (s'.writing ≡ s.writing)
told true s h = (refl, refl, refl, refl, refl, refl, refl)
told false s h = (refl, refl, h, refl, refl, refl, refl)

enter_lem :
    (sid self : ℕ) (junk : Memory) (g : EventGlobal) (table : Table)
    → g.manager ≡ some table
    → let table' = (put sid self table).1 in
      (s : Session) × (enter sid self junk g
        ≡ returns (
          some s,
          record g { manager = some table' },
          set_event read_event (pos sid) ev_read call_on_read
              ∷ add_event read_event
              ∷ set_event write_event (pos sid) ev_write call_on_write
              ∷ add_event write_event
              ∷ [],
        ))
      × (s.self ≡ self)
      × (s.task ≡ no_task)
      × (s.status ≡ (if ltb_ℤ (pos g.max_connections) (table.count +ℤ pos 1) then exit else normal))
      × ((get sid table').0 ≡ some self)
      × (s.sid ≡ sid)
      × (s.global ≡ true)
      × (s.reading ≡ true)
      × (s.writing ≡ true)
unfolding enter add_read_event add_write_event files_event.Session.new get_count put
enter_lem sid self junk g table m =
    let there : ltb (sid + 0) 0 ≡ false = ground arith in
    let table' : Table = (put sid self table).1 in
    let (a, b, c, d, e, f, h) =
      told (ltb_ℤ (pos g.max_connections) (get_count table'))
        (add_write_event
          (add_read_event
            (set_global true (files_event.Session.new self sid file_send_msg junk))).0).0
        refl in
    (
      (started g.max_connections table'
          (set_global true (files_event.Session.new self sid file_send_msg junk))).0,
      rw (m, there) refl,
      a,
      b,
      c,
      found_after sid self table,
      d,
      e,
      f,
      h,
    )

-- A connection that is accepted on a descriptor below 2 ^ 16 while there is a table: the new
-- session has the global and no task yet, it waits to read and to write on its descriptor, each
-- event being added once and its flags saying so, it is told to exit if the table now counts more
-- than the limit, and the table has it under its number, the descriptor.
pub on_accept_lem :
    (client self : ℕ) (junk : Memory) (g : EventGlobal) (table : Table)
    → g.manager ≡ some table
    → client < 2 ^ 16
    → let table' = (put client self table).1 in
      (s : Session) × (on_accept (some client) self junk g
        ≡ returns (
          some s,
          record g { manager = some table' },
          set_event read_event (pos client) ev_read call_on_read
              ∷ add_event read_event
              ∷ set_event write_event (pos client) ev_write call_on_write
              ∷ add_event write_event
              ∷ [],
        ))
      × (s.self ≡ self)
      × (s.task ≡ no_task)
      × (s.status ≡ (if ltb_ℤ (pos g.max_connections) (table.count +ℤ pos 1) then exit else normal))
      × ((get client table').0 ≡ some self)
      × (s.sid ≡ client)
      × (s.global ≡ true)
      × (s.reading ≡ true)
      × (s.writing ≡ true)
unfolding on_accept
on_accept_lem client self junk g table m small =
    let low : client % 2 ^ 16 ≡ client = omega arith in
    rw low (enter_lem client self junk g table m)

removed :
    (sid self : ℕ) (t : Table)
    → (get sid t).0 ≡ some self
    → (let (session, t') = get_and_remove sid t in
        (session ≡ (get sid t).0)
        × (((get sid t' ≡ (if sid == sid then (none, ((get sid t).1 + 1) % 2 ^ 16) else get sid t))
              × (t'.count ≡ t.count -ℤ pos 1))
            ⊎ ((t' ≡ t) × (t.rows (row_of sid) ≡ none) × (session ≡ none))))
    → ((get_and_remove sid t).0 ≡ some self) × ((get sid (get_and_remove sid t).1).0 ≡ none)
removed sid self t found (e, inl (gone, count)) =
    let same : (sid == sid) ≡ true = ground arith in
    (
      e ∙ found,
      ap (λ (x : Option ℕ × ℕ). x.0) gone
          ∙ ap (λ b. (if b then (none, ((get sid t).1 + 1) % 2 ^ 16) else get sid t).0) same,
    )
removed sid self t found (e, inr (a, b, c)) = cc

-- A session that was entered under a number is the one that `disConnect` deletes, and then the
-- number has no session.
pub dis_connect-put :
    (sid self : ℕ) (table : Table)
    → let (deleted, table') = dis_connect sid (put sid self table).1 in
      (deleted ≡ some self) × ((get sid table').0 ≡ none)
unfolding dis_connect
dis_connect-put sid self table =
    let t : Table = (put sid self table).1 in
    let same : (sid == sid) ≡ true = ground arith in
    let found : (get sid t).0 ≡ some self = found_after sid self table in
    subst (λ o. ((take_out sid t o).0 ≡ some self) × ((get sid (take_out sid t o).1).0 ≡ none))
      (sym found) (removed sid self t found (get_and_remove_lem sid sid t))

pub add_read_event-task : (s : Session) → (add_read_event s).0.task ≡ s.task
unfolding add_read_event
add_read_event-task s = ground arith

-- The destructor of a session that receives a file: it asks `ftell` for the place in the file that was opened.
pub destroy-receiving :
    (s : Session) (t : FileRecv.Task)
    → s.task ≡ receiving t
    → ((content : List ℕ) × (t.file ≡ some content) × (destroy s ≡ returns (destroyed s)))
      ⊎ ((t.file ≡ none) × (destroy s ≡ fault))
unfolding destroy FileRecv.close
destroy-receiving s t task = elim (Option-cases t.file) [
  | inl unopened ↦ inr (unopened, rw (task, unopened) refl)
  | inr (content, opened) ↦ inl (content, opened, rw (task, opened) refl)
]

-- A client that registers its session, on a descriptor from 1 to 65535 and while there is a table, and then
-- disconnects. If its task has opened a file, then its session is the one that is deleted, and its number has
-- none afterwards; if it has not, as before `fetchAndSaveFile`, then `disConnect` gives a null pointer to
-- `ftell`.
pub disconnect-register :
    (fd : ℕ) (s : Session) (t : FileRecv.Task) (g : EventGlobal) (table : Table) (heap : Heap)
    → g.manager ≡ some table
    → 0 < fd
    → fd < 2 ^ 16
    → s.task ≡ receiving t
    → heap s.self ≡ some (add_read_event (set_global true s)).0
    → (s' : Session) × (g' : EventGlobal) × (effects : List Effect) × (register_client fd s g
        ≡ returns (s', g', effects))
      × (((content : List ℕ) × (g'' : EventGlobal) × (left : Table) × (t.file ≡ some content)
            × (disconnect_client heap
                  (record { sock_id = pos fd; client_session = some s' })
                  (some g')
                ≡ returns (some s.self, some g'', destroyed s'))
            × (g''.manager ≡ some left)
            × ((get fd left).0 ≡ none))
          ⊎ ((t.file ≡ none)
              × (disconnect_client heap
                    (record { sock_id = pos fd; client_session = some s' })
                    (some g')
                  ≡ fault)))
unfolding register_client disconnect_client
disconnect-register fd s t g table heap m positive low task there =
    let table' : Table = (put fd s.self table).1 in
    let s' : Session = (add_read_event (set_global true s)).0 in
    let (deleted, gone) = dis_connect-put fd s.self table in
    let number : fd % 2 ^ 16 ≡ fd = omega arith in
    let is_socket : ltb_ℤ (pos 0) (pos fd) ≡ true = ground arith in
    (
      s',
      record g { manager = some table' },
      (add_read_event (set_global true s)).1,
      rw m refl,
      elim (destroy-receiving s' t (add_read_event-task (set_global true s) ∙ task)) [
        | inl (content, opened, done) ↦ inl (
          content,
          record g { manager = some (dis_connect fd table').1 },
          (dis_connect fd table').1,
          opened,
          rw (is_socket, number, deleted, there, done) refl,
          refl,
          gone,
        )
        | inr (unopened, crash) ↦ inr (unopened, rw (is_socket, number, deleted, there, crash) refl)
      ],
    )
