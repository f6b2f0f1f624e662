-- ===== src/FileRecv.antt =====
-- TaskFileRecv.cpp and TaskFileRecv.h: the client's task. It asks for a remote file, collects the
-- server's packets from the connection in pieces of any size, and writes the frames to a local file.
-- The times and the log lines are left out; the callbacks of the Android build are too.
pub mod Stream
pub mod Commands
pub mod Tracking
pub mod Reassembly
pub mod Head
pub mod Events
pub mod Waiting
pub mod Ending
use files_event.Prelude.{
  ℕ, ◌+◌, ◌-◌, ◌^◌, List, [], ◌∷◌, ◌++◌, ltb, leb, ◌==◌, if◌then◌else◌, Bool, true, false, Option,
  none, some, length, codes, ℤ, pos, negsuc, Run, returns, fault, deref, in_bounds, ◌>>=◌, ◌>>◌,
  ltb_ℤ,
}
use files_event.Memory.{Memory, store_in, load_in, get_u32}
use files_event.Posix.{Net, Segment, Received, got, closed, failed, recv}
use files_event.Wire.{
  net_flag, code_of, login, files, loginret, control_play, head_bytes, sizeof_net_cmd, NetHead,
}
use files_event.Buffers.{
  FileProcBuffer, new_file_buffer, reset, create_mem, release_mem, file_memory_len,
}
use files_event.Transport.{size_of_int, recv_len, add_int, send_ex, decimal}

-- `file` is what `mwFile` has been given so far, `none` the null pointer.
pub record Task : Type 0 where
  pub buf : FileProcBuffer
  pub file : Option (List ℕ)
  pub total_len : ℕ
  pub recv_data_len : ℕ

-- `mPackHeadLen`.
abbrev pub pack_head_len : ℕ
pack_head_len = sizeof_net_cmd

-- What the constructor allocates.
abbrev pub recv_mem_len : ℕ
recv_mem_len = file_memory_len + sizeof_net_cmd

-- The constructor; `junk` is what the memory holds before.
unfoldable pub new : Memory → Task
unfolding new_file_buffer reset create_mem
new junk = record {
  buf = create_mem recv_mem_len junk (reset (new_file_buffer junk 0));
  file = none;
  total_len = 0;
  recv_data_len = 0;
}

-- `SendCmd`: the head, then the data if there is any.
unfoldable pub send_cmd : ℕ → ℕ → List ℕ → Net → Run (ℤ × Net)
send_cmd cmd index payload net = do
  (ret, net') ←
      send_ex
        (head_bytes (record { flag = net_flag; cmd = cmd; index = index; length = length payload }))
        net
  if ltb_ℤ ret (pos 0)
      then returns (ret, net')
      else if length payload == 0
      then returns (pos 0, net')
      else send_ex payload net'

-- `<get path="%s"/>` in `lpData[2048]`.
abbrev pub get_request : List ℕ → List ℕ
get_request remote = codes "<get path=\"" ++ (remote ++ codes "\"/>")

-- `setFetchAndSaveFile`. `can_create` is whether `fopen(savefile, "w")` succeeds; what `SendCmd`
-- returns is only logged.
unfoldable pub set_fetch_and_save_file : List ℕ → Bool → Task → Net → Run (ℤ × Task × Net)
set_fetch_and_save_file remote can_create t net = elim t.file [
  | some f ↦ returns (pos 0, t, net)
  | none ↦ do
    in_bounds (ltb (length (get_request remote)) 2048)
    (ret, net') ← send_cmd (code_of login) 0 (get_request remote) net
    returns (pos 0, record t { file = if can_create then some [] else none }, net')
]

-- `<control name="start" …/>` with the final NUL, which is sent too.
abbrev pub start_request : ℕ → List ℕ
start_request total =
    codes "<control name=\"start\" tmstart=\"0\" tmend=\""
    ++ (decimal total ++ (codes "\" />" ++ (0 ∷ [])))

-- MODULE_MSG_FILES: `nLength` bytes behind the `FILE_GET` are written to the file.
unfoldable pub files_packet : Memory → Task → Net → Run (Task × Net)
files_packet m t net = do
  content ← deref t.file
  bytes ← load_in t.buf.mem_len m 24 (size_of_int (get_u32 m 20))
  returns (
    record t {
      file = some (content ++ bytes);
      recv_data_len = add_int t.recv_data_len (get_u32 m 20);
    },
    net,
  )

-- MODULE_MSG_LOGINRET: the length of the file, `tmEnd` of the `FILE_INFO`; it is answered by
-- "start", and what `SendCmd` returns is not looked at.
unfoldable pub loginret_packet : Memory → Task → Net → Run (Task × Net)
loginret_packet m t net = do
  (ret, net') ← send_cmd (code_of control_play) 0 (start_request (get_u32 m 28)) net
  returns (record t { total_len = get_u32 m 28 }, net')

-- The switch on `dwCmd` of a whole packet.
unfoldable pub packet : Memory → Task → Net → Run (Task × Net)
unfolding files_packet loginret_packet
packet m t net =
    if get_u32 m 4 == code_of files
    then files_packet m t net
    else if get_u32 m 4 == code_of loginret
    then loginret_packet m t net
    else returns (t, net)

-- A packet is whole: it is acted on, and the buffer starts afresh.
unfoldable pub packet_end : Memory → ℤ → Task → Net → Run (ℤ × Task × Net)
unfolding packet
packet_end m ret t net = do
  (t', net') ← packet m t net
  returns (ret, record t' { buf = reset t'.buf }, net')

-- What `recvPackData` does with the result of its `recv`.
unfoldable pub body_received : Task → Net → Received × List Segment → Run (ℤ × Task × Net)
unfolding packet_end
body_received t net (got bs, inbox) = do
  m ← deref t.buf.block
  m' ← store_in t.buf.mem_len m (pack_head_len + t.buf.has_proc_len) bs
  let t' = record t {
    buf = record (t.buf) { has_proc_len = t.buf.has_proc_len + length bs; block = some m' };
  }
  let net' = record net { inbox = inbox }
  if t.buf.has_proc_len + length bs == t.buf.total_len
      then packet_end m' (pos (length bs)) t' net'
      else returns (pos (length bs), t', net')
body_received t net (closed, inbox) = returns (pos 0, t, record net { inbox = inbox })
body_received t net (failed, inbox) = returns (negsuc 0, t, record net { inbox = inbox })

unfoldable pub recv_pack_data : Task → Net → Run (ℤ × Task × Net)
unfolding body_received
recv_pack_data t net = body_received t net (recv (recv_len t.buf.total_len t.buf.has_proc_len) net)

-- The head is whole: `dwLength` bytes are to come. A packet without data is a mere signal
-- (MODULE_MSG_DATAEND, MODULE_MSG_SECTION_END), on which nothing but logging is done.
unfoldable pub head_end : Memory → ℤ → Task → Net → Run (ℤ × Task × Net)
unfolding recv_pack_data
head_end m ret t net =
    let t' = record t {
      buf = record (t.buf) { total_len = get_u32 m 12; proc_cmmd = false; has_proc_len = 0 };
    } in
    if ltb 0 (get_u32 m 12) then recv_pack_data t' net else returns (ret, t', net)

unfoldable pub head_received : Task → Net → Received × List Segment → Run (ℤ × Task × Net)
unfolding head_end
head_received t net (got bs, inbox) = do
  m ← deref t.buf.block
  m' ← store_in t.buf.mem_len m t.buf.has_proc_len bs
  let t' = record t {
    buf = record (t.buf) { has_proc_len = t.buf.has_proc_len + length bs; block = some m' };
  }
  let net' = record net { inbox = inbox }
  if t.buf.has_proc_len + length bs == pack_head_len
      then head_end m' (pos (length bs)) t' net'
      else returns (pos (length bs), t', net')
head_received t net (closed, inbox) = returns (pos 0, t, record net { inbox = inbox })
head_received t net (failed, inbox) = returns (negsuc 0, t, record net { inbox = inbox })

-- `readBuffer`: one read event.
unfoldable pub read_buffer : Task → Net → Run (ℤ × Task × Net)
unfolding head_received recv_pack_data
read_buffer t net =
    if t.buf.proc_cmmd
    then head_received t net (recv (recv_len pack_head_len t.buf.has_proc_len) net)
    else recv_pack_data t net

-- `writeBuffer` does nothing.
unfoldable pub write_buffer : Task → Net → Run (ℤ × Task × Net)
write_buffer t net = returns (pos 0, t, net)

-- The destructor: the file is closed and the memory given back. (It passes `mwFile` to `ftell`
-- before it tests it, so it may only run with a file.)
unfoldable pub close : Task → Run Task
unfolding release_mem
close t = do content ← deref t.file; returns (record t { file = none; buf = release_mem t.buf })
