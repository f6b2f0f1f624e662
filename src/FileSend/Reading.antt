-- ===== src/FileSend/Reading.antt =====
-- `readBuffer` and `recvPackData` of TaskFileSend.cpp: the client's commands. Beside the result each
-- says whether `mSess->addWriteEvent()` was called.
use files_event.Prelude.{
  ◌&&◌, ℕ, ◌+◌, ◌-◌, List, ◌==◌, if◌then◌else◌, Bool, true, false, length, codes, ℤ, pos, negsuc,
  Run, returns, ◌>>=◌,
}
use files_event.Memory.{Memory, store_in, load, get_u32}
use files_event.Posix.{Net, Segment, Received, got, closed, failed, recv}
use files_event.Wire.{code_of, control_play, sizeof_net_cmd}
use files_event.Buffers.{reset_cmd, cmd_len}
use files_event.Transport.{recv_len}
use files_event.Proto.{get_value_by_name, c_string, starts_with}
use files_event.FileSend.{Task}

-- `mPackHeadLen`.
abbrev pub pack_head_len : ℕ
pack_head_len = sizeof_net_cmd

-- The text behind the head, to the end of the buffer.
abbrev pub text_of : Memory → List ℕ
text_of m = load m pack_head_len (cmd_len - pack_head_len)

-- `strcmp(acValue, text) == 0`, with `acValue` of 256 bytes zeroed before.
unfoldable pub is_text : List ℕ → List ℕ → Bool
unfolding starts_with
is_text value text = length value == length text && starts_with text value

-- What a whole command does. "start" reads two more values and "setpause" one, for the log.
unfoldable pub control : Memory → Task → Run (Task × Bool)
unfolding c_string is_text
control m t = do
  name ← get_value_by_name 256 (codes "name") (text_of m)
  let word = c_string name.value
  if is_text word (codes "start")
      then (do
        tmstart ← get_value_by_name 256 (codes "tmstart") (text_of m)
        tmend ← get_value_by_name 256 (codes "tmend") (text_of m)
        returns (t, true))
      else if is_text word (codes "setpause")
      then (do value ← get_value_by_name 256 (codes "value") (text_of m); returns (t, false))
      else if is_text word (codes "send")
      then returns (record t { sending_data = true }, true)
      else returns (t, false)

unfoldable pub command_end : Memory → ℤ → Task → Net → Run (ℤ × Task × Net × Bool)
unfolding control
command_end m ret t net = do
  (t', wakes) ← if get_u32 m 4 == code_of control_play then control m t else returns (t, false)
  returns (ret, record t' { recv = reset_cmd }, net, wakes)

unfoldable pub body_received : Task → Net → Received × List Segment → Run (ℤ × Task × Net × Bool)
unfolding command_end
body_received t net (got bs, inbox) = do
  m ← store_in cmd_len t.recv.cmmd (pack_head_len + t.recv.has_proc_len) bs
  let t' = record t {
    recv = record (t.recv) { cmmd = m; has_proc_len = t.recv.has_proc_len + length bs };
  }
  let net' = record net { inbox = inbox }
  if t.recv.has_proc_len + length bs == t.recv.total_len
      then command_end m (pos (length bs)) t' net'
      else returns (pos (length bs), t', net', false)
body_received t net (closed, inbox) = returns (pos 0, t, record net { inbox = inbox }, false)
body_received t net (failed, inbox) = returns (negsuc 0, t, record net { inbox = inbox }, false)

unfoldable pub recv_pack_data : Task → Net → Run (ℤ × Task × Net × Bool)
unfolding body_received
recv_pack_data t net =
    body_received t net (recv (recv_len t.recv.total_len t.recv.has_proc_len) net)

-- The head is whole: the data is read at once, also if there is none.
unfoldable pub head_end : Memory → Task → Net → Run (ℤ × Task × Net × Bool)
unfolding recv_pack_data
head_end m t net =
    recv_pack_data
      (record t {
        recv = record (t.recv) { total_len = get_u32 m 12; proc_cmmd = false; has_proc_len = 0 };
      })
      net

unfoldable pub head_received : Task → Net → Received × List Segment → Run (ℤ × Task × Net × Bool)
unfolding head_end
head_received t net (got bs, inbox) = do
  m ← store_in cmd_len t.recv.cmmd t.recv.has_proc_len bs
  let t' = record t {
    recv = record (t.recv) { cmmd = m; has_proc_len = t.recv.has_proc_len + length bs };
  }
  let net' = record net { inbox = inbox }
  if t.recv.has_proc_len + length bs == pack_head_len
      then head_end m t' net'
      else returns (pos (length bs), t', net', false)
head_received t net (closed, inbox) = returns (pos 0, t, record net { inbox = inbox }, false)
head_received t net (failed, inbox) = returns (negsuc 0, t, record net { inbox = inbox }, false)

unfoldable pub read_buffer : Task → Net → Run (ℤ × Task × Net × Bool)
unfolding head_received recv_pack_data
read_buffer t net =
    if t.recv.proc_cmmd
    then head_received t net (recv (recv_len pack_head_len t.recv.has_proc_len) net)
    else recv_pack_data t net
