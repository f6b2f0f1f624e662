-- ===== src/Session/Requests.antt =====
-- `readBuffer` and `recvPackData` of Session.cpp: the request from which a session gets its task.
use files_event.Prelude.{
  ℕ, ◌+◌, ◌-◌, List, [], ◌++◌, ◌==◌, ltb, if◌then◌else◌, Bool, true, false, Option, length, drop,
  codes, ℤ, pos, negsuc, ltb_ℤ, Run, returns, in_bounds, ◌>>=◌, ◌>>◌,
}
use files_event.Memory.{Memory, store_in, load, get_u32}
use files_event.Posix.{Net, Segment, Received, got, closed, failed, recv}
use files_event.Transport.{recv_len}
use files_event.Proto.{get_value_by_name, c_string}
use files_event.FileRecv
use files_event.FileSend
use files_event.FileSend.Reading
use files_event.Session.{
  Session, TaskBase, no_task, receiving, sending, Effect, head_len, buff_len, add_write_event,
}

-- What `access`, `fopen` and `stat` find under a path.
pub record Files : Type 0 where
  pub exists : List ℕ → Bool
  pub opens : List ℕ → Option (List ℕ)
  pub size : List ℕ → ℕ

-- The kinds of request; `other` is the -1 of `dataType`.
pub data Request : Type 0 where
  play_path get_path play_real other : Request

-- A value copied over the array `fetchPath`.
abbrev overlay : List ℕ → List ℕ → List ℕ
overlay new old = new ++ drop (length new) old

-- The three names are tried in turn, each into the same array.
unfoldable pub request_of : List ℕ → Run (Request × List ℕ)
request_of text = do
  v ← get_value_by_name 256 (codes "play path") text
  if ltb_ℤ (pos 0) v.value_len then returns (play_path, v.value) else (do
    w ← get_value_by_name 256 (codes "get path") text
    if ltb_ℤ (pos 0) w.value_len then returns (get_path, overlay w.value v.value) else (do
      u ← get_value_by_name 256 (codes "play real") text
      returns (
        if ltb_ℤ (pos 0) u.value_len then play_real else other,
        overlay u.value (overlay w.value v.value),
      )))

-- Only a request for a file makes a task. `junk` and `junk_len` are what the new task's memory holds.
abbrev pub serve : Request → Files → Memory → ℕ → List ℕ → Session → Net → Run (Session × Net)
serve get_path files junk junk_len path s net = do
  (ret, t, net') ←
      FileSend.set_fetch_file (files.opens path) (files.size path) (FileSend.new junk junk_len) net
  returns (record s { task = sending t }, net')
serve _ files junk junk_len path s net = returns (s, net)

-- The request is whole: a file that does not exist ends the session (the result 0).
unfoldable pub request_end :
    Files → Memory → ℕ → Memory → ℤ → Session → Net → Run (ℤ × Session × Net)
unfolding request_of c_string
request_end files junk junk_len m ret s net = do
  (request, value) ← request_of (load m head_len (buff_len - head_len))
  let path = c_string value
  in_bounds (ltb (length path) 256)
  if files.exists path
      then (do
        (s', net') ← serve request files junk junk_len path s net
        returns (ret, record s' { total_len = 0; has_recv_len = 0; head_now = true }, net'))
      else returns (pos 0, s, net)

module _ (files : Files) (junk : Memory) (junk_len : ℕ) where
  unfoldable pub body_received : Session → Net → Received × List Segment → Run (ℤ × Session × Net)
  unfolding request_end
  body_received s net (got bs, inbox) = do
    m ← store_in buff_len s.buff (head_len + s.has_recv_len) bs
    let s' = record s { buff = m; has_recv_len = s.has_recv_len + length bs }
    let net' = record net { inbox = inbox }
    if s.has_recv_len + length bs == s.total_len
        then request_end files junk junk_len m (pos (length bs)) s' net'
        else returns (pos (length bs), s', net')
  body_received s net (closed, inbox) = returns (pos 0, s, record net { inbox = inbox })
  body_received s net (failed, inbox) = returns (negsuc 0, s, record net { inbox = inbox })

  unfoldable pub recv_pack_data : Session → Net → Run (ℤ × Session × Net)
  unfolding body_received
  recv_pack_data s net = body_received s net (recv (recv_len s.total_len s.has_recv_len) net)

  unfoldable pub head_received : Session → Net → Received × List Segment → Run (ℤ × Session × Net)
  unfolding recv_pack_data
  head_received s net (got bs, inbox) = do
    m ← store_in buff_len s.buff s.has_recv_len bs
    let net' = record net { inbox = inbox }
    if s.has_recv_len + length bs == head_len
        then recv_pack_data
            (record s { buff = m; total_len = get_u32 m 12; has_recv_len = 0; head_now = false })
            net'
        else returns (
          pos (length bs),
          record s { buff = m; has_recv_len = s.has_recv_len + length bs },
          net',
        )
  head_received s net (closed, inbox) = returns (pos 0, s, record net { inbox = inbox })
  head_received s net (failed, inbox) = returns (negsuc 0, s, record net { inbox = inbox })

  -- The read side of the task, with what it asks of the session.
  abbrev pub read_task : TaskBase → Session → Net → Run (ℤ × Session × Net × List Effect)
  read_task no_task s net = do
    (ret, s', net') ←
        (if s.head_now
          then head_received s net (recv (recv_len head_len s.has_recv_len) net)
          else recv_pack_data s net)
    returns (ret, s', net', [])
  read_task (receiving t) s net = do
    (ret, t', net') ← FileRecv.read_buffer t net
    returns (ret, record s { task = receiving t' }, net', [])
  read_task (sending t) s net = do
    (ret, t', net', wakes) ← Reading.read_buffer t net
    let s' = record s { task = sending t' }
    let (s'', effects) = if wakes then add_write_event s' else (s', [])
    returns (ret, s'', net', effects)

  -- `readBuffer`.
  unfoldable pub read_buffer : Session → Net → Run (ℤ × Session × Net × List Effect)
  read_buffer s net = read_task s.task s net
