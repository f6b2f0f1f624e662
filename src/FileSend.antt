-- ===== src/FileSend.antt =====
-- TaskFileSend.cpp and TaskFileSend.h: the server's task. It answers a request with the length of
-- the file, sends the file in frames of at most 1 MiB, one piece for each write event, and then the
-- end signal; its read events take the client's commands. `GQueue` stands as the list of its items.
pub mod Starting
pub mod Reading
pub mod Frames
pub mod Events
pub mod Ends
pub mod Valid
pub mod Bounds
pub mod Life
pub mod Failing
use files_event.Prelude.{
  ℕ, zero, suc, ◌+◌, ◌-◌, ◌%◌, ◌^◌, List, [], ◌∷◌, ◌++◌, ltb, leb, ◌==◌, if◌then◌else◌, Bool, true,
  false, not, Option, none, some, length, take, drop, replicate, ℤ, pos, negsuc, Run, returns,
  fault, deref, in_bounds, ◌>>=◌, ◌>>◌, ltb_ℤ, pos_part,
}
use mathlib.Core.Option
use files_event.Memory.{Memory, store, load_in, u32_bytes}
use files_event.Posix.{Net}
use files_event.Wire.{
  NetHead, net_flag, code_of, ping, loginret, files, dataend, section_end, head_bytes,
  sizeof_net_cmd, sizeof_login_ret, sizeof_file_get, sizeof_file_info, login_ret_data,
}
use files_event.Buffers.{
  CmdBuffer, reset_cmd, FileProcBuffer, new_file_buffer, reset, create_mem, release_mem,
  set_to_video, file_memory_len, cmd_len,
}
use files_event.Transport.{send_ex}

-- A file open for reading: its bytes and the position.
pub record File : Type 0 where
  pub content : List ℕ
  pub position : ℕ

-- `queue` is `mMsgQueue`, the oldest first.
pub record Task : Type 0 where
  pub recv : CmdBuffer
  pub send : FileProcBuffer
  pub file : Option File
  pub queue : List ℕ
  pub frame_count : ℕ
  pub file_len : ℕ
  pub has_read_len : ℕ
  pub sending_data : Bool

-- `OWN_SOCK_EXIT`, -1528.
abbrev pub own_sock_exit : ℤ
own_sock_exit = negsuc 1527

-- The constructor; `junk` is what the memory holds before.
unfoldable pub new : Memory → ℕ → Task
unfolding reset new_file_buffer
new junk junk_len = record {
  recv = reset_cmd;
  send = reset (new_file_buffer junk junk_len);
  file = none;
  queue = [];
  frame_count = 0;
  file_len = 0;
  has_read_len = 0;
  sending_data = true;
}

-- `hasProcLen += ret` if the call has sent something.
abbrev advance : ℤ → ℕ → ℕ
advance ret has = if ltb_ℤ (pos 0) ret then has + pos_part ret else has

-- The command is out: what is in the data block is next.
unfoldable pub cmd_sent : ℤ → Task → Net → Run (ℤ × Task × Net)
unfolding set_to_video
cmd_sent ret t net =
    let b = record (t.send) { has_proc_len = advance ret t.send.has_proc_len } in
    returns
      (ret, record t { send = if b.has_proc_len == b.total_len then set_to_video b else b }, net)

unfoldable pub data_sent : ℤ → Task → Net → Run (ℤ × Task × Net)
unfolding reset
data_sent ret t net =
    let b = record (t.send) { has_proc_len = advance ret t.send.has_proc_len } in
    returns (ret, record t { send = if b.has_proc_len == b.total_len then reset b else b }, net)

-- `tcpSendData`: what is left of the command, or of the data. (A negative length would be read as a
-- huge one.)
unfoldable pub tcp_send_data : Task → Net → Run (ℤ × Task × Net)
unfolding cmd_sent data_sent
tcp_send_data t net =
    if t.send.proc_cmmd
    then (do
      in_bounds (leb t.send.has_proc_len t.send.total_len)
      bytes ←
          load_in cmd_len t.send.cmmd t.send.has_proc_len (t.send.total_len - t.send.has_proc_len)
      (ret, net') ← send_ex bytes net
      cmd_sent ret t net')
    else (do
      in_bounds (leb t.send.has_proc_len t.send.total_len)
      m ← deref t.send.block
      bytes ← load_in t.send.mem_len m t.send.has_proc_len (t.send.total_len - t.send.has_proc_len)
      (ret, net') ← send_ex bytes net
      data_sent ret t net')

-- A command of `bytes` is put into the send buffer.
abbrev pub put_cmd : List ℕ → ℕ → Task → Task
put_cmd bytes total t = record t {
  send = record (t.send) { cmmd = store t.send.cmmd 0 bytes; total_len = total; proc_cmmd = true };
}

-- `LOGIN_RET` with a `FILE_INFO` in it, behind its head.
unfoldable pub loginret_bytes : ℕ → List ℕ
loginret_bytes len =
    head_bytes
      (record { flag = net_flag; cmd = code_of loginret; index = 0; length = sizeof_login_ret })
    ++ (u32_bytes 0
        ++ (u32_bytes sizeof_file_info
            ++ (u32_bytes 0 ++ (u32_bytes len ++ replicate (login_ret_data - 8) 0))))

-- `if(mpFile)`.
abbrev if_file {ℓ} : {A : Type ℓ} → Option File → A → A → A
if_file (some f) yes_file no_file = yes_file
if_file none yes_file no_file = no_file

-- `setFetchFile`: `opened` is what `fopen` finds, `st_size` what `stat` reports.
unfoldable pub set_fetch_file : Option (List ℕ) → ℕ → Task → Net → Run (ℤ × Task × Net)
set_fetch_file opened st_size t net = if_file t.file (returns (negsuc 0, t, net)) (do
  (ret, t', net') ←
      tcp_send_data
        (put_cmd (loginret_bytes (st_size % 2 ^ 32)) (sizeof_net_cmd + sizeof_login_ret) (record t {
          file = Option.map (λ content. record { content = content; position = 0 }) opened;
          file_len = st_size % 2 ^ 32;
        }))
        net
  returns (pos 0, t', net'))

-- A command without data.
abbrev pub signal_bytes : ℕ → ℕ → List ℕ
signal_bytes cmd index =
    head_bytes (record { flag = net_flag; cmd = cmd; index = index; length = 0 })

unfoldable pub send_varied_cmd : ℕ → Task → Net → Run (ℤ × Task × Net)
send_varied_cmd val t net = tcp_send_data (put_cmd (signal_bytes val 0) sizeof_net_cmd t) net

-- `pushSendCmd`: the end signals are sent at once, a ping is queued if fewer than ten wait.
unfoldable pub push_send_cmd : ℕ → ℕ → Task → Net → Run (ℤ × Task × Net)
push_send_cmd val index t net =
    if val == code_of dataend
    then tcp_send_data (put_cmd (signal_bytes val index) sizeof_net_cmd t) net
    else if val == code_of section_end
    then tcp_send_data (put_cmd (signal_bytes val index) sizeof_net_cmd t) net
    else if (val == code_of ping)
    then returns (
      pos 0,
      if ltb (length t.queue) 10 then record t { queue = t.queue ++ (ping_item ∷ []) } else t,
      net,
    )
    else returns (pos 0, t, net)
  where
    ping_item : ℕ
    ping_item = code_of ping

-- The head of a frame with its `FILE_GET`: the position in the file and the number of bytes.
unfoldable pub frame_head : ℕ → ℕ → List ℕ
frame_head position count =
    head_bytes (record {
      flag = net_flag;
      cmd = code_of files;
      index = 0;
      length = (count + sizeof_file_get) % 2 ^ 32;
    })
    ++ (u32_bytes position ++ u32_bytes count)

-- `iBuffLen`: how much of the file the next frame takes.
unfoldable pub frame_len : Task → ℕ
frame_len t =
    let left = t.file_len - t.has_read_len in
    if ltb file_memory_len left then file_memory_len else left

-- `fread` of `n` bytes.
abbrev pub fread : ℕ → File → List ℕ
fread n f = take n (drop f.position f.content)

-- `memset(data, 0, n)`, then the bytes read.
abbrev pub fill : Memory → ℕ → List ℕ → Memory
fill m n bytes = store (store m 0 (replicate n 0)) 0 bytes

-- The next frame is read from the file; `junk` is what `malloc` finds.
unfoldable pub prepare_frame : Memory → Task → Run Task
prepare_frame junk t = do
  f ← deref t.file
  let b = create_mem (frame_len t) junk t.send
  m ← deref b.block
  in_bounds (leb (frame_len t) b.mem_len)
  let bytes = fread (frame_len t) f
  returns (record t {
    send = record b {
      cmmd = store b.cmmd 0 (frame_head f.position (length bytes));
      total_len = sizeof_net_cmd + sizeof_file_get;
      proc_cmmd = true;
      data_len = length bytes;
      block = some (fill m (frame_len t) bytes);
    };
    file = some (record f { position = f.position + length bytes });
    has_read_len = t.has_read_len + length bytes;
    frame_count = t.frame_count + 1;
  })

-- `mMsgQueue.try_pop`, and the command that it yields.
abbrev pub send_queued : Task → Net → List ℕ → Run (ℤ × Task × Net)
send_queued t net [] = returns (pos 0, t, net)
send_queued t net (val ∷ rest) = send_varied_cmd val (record t { queue = rest }) net

-- `writeBuffer` with nothing under way.
unfoldable pub take_new : Memory → Task → Net → Run (ℤ × Task × Net)
take_new junk t net =
    if ltb t.has_read_len t.file_len
    then (if ltb 0 (length t.queue)
        then send_queued t net t.queue
        else if not t.sending_data
        then returns (pos 0, t, net)
        else prepare_frame junk t >>= λ t'. tcp_send_data t' net)
    else (do
      (ret, t', net') ← push_send_cmd (code_of dataend) 0 t net
      returns (own_sock_exit, t', net'))

-- `writeBuffer`: one write event.
unfoldable pub write_buffer : Memory → Task → Net → Run (ℤ × Task × Net)
unfolding take_new
write_buffer junk t net = if t.send.total_len == 0 then take_new junk t net else tcp_send_data t net

-- `setHeartCount` does nothing.
unfoldable pub set_heart_count : Task → ℤ × Task
set_heart_count t = (pos 0, t)

-- The destructor.
unfoldable pub close : Task → Task
unfolding release_mem
close t = record t { file = none; queue = []; send = release_mem t.send }
