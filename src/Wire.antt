-- ===== src/Wire.antt =====
-- common/protocol.h: the packet head, the commands and the payload structs, as they lie in memory.
-- Every packet is a `NET_HEAD` of four `unsigned int`s, then `dwLength` bytes (`NET_CMD.lpData`).
use files_event.Prelude.{ℕ, ◌+◌, List, ◌++◌}
use files_event.Memory.{u32_bytes}

abbrev pub net_flag : ℕ
net_flag = 0xfefdfcfb

-- `MSG_TYPE_t`: what a session is created for.
pub data MsgType : Type 0 where
  file_recv_msg file_recv_stream file_send_msg file_send_stream : MsgType
  video_recv_msg video_recv_stream video_send_msg video_send_stream : MsgType
  video_real_msg video_real_stream : MsgType

-- `MODULE_MSG_ID`: the value of `dwCmd` for each command.
pub data ModuleMsgId : Type 0 where
  ping login loginret files video startservice stopsvc control_play dataend section_end :
      ModuleMsgId

abbrev pub code_of : ModuleMsgId → ℕ
code_of ping = 0
code_of login = 1
code_of loginret = 2
code_of files = 3
code_of video = 4
code_of startservice = 5
code_of stopsvc = 6
code_of control_play = 7
code_of dataend = 8
code_of section_end = 9

pub record NetHead : Type 0 where
  pub flag : ℕ
  pub cmd : ℕ
  pub index : ℕ
  pub length : ℕ

-- `sizeof(NET_HEAD)` and `sizeof(NET_CMD)`: the flexible `lpData` has no size.
abbrev pub sizeof_net_cmd : ℕ
sizeof_net_cmd = 16

-- `LOGIN_RET` is `lRet`, `nLength` and 1024 bytes of data; `FILE_GET` is `dwPos` and `nLength`;
-- `FILE_INFO` is `tmStart` and `tmEnd`.
abbrev pub login_ret_data : ℕ
login_ret_data = 1024

abbrev pub sizeof_login_ret : ℕ
sizeof_login_ret = 8 + login_ret_data

abbrev pub sizeof_file_get : ℕ
sizeof_file_get = 8

abbrev pub sizeof_file_info : ℕ
sizeof_file_info = 8

unfoldable pub head_bytes : NetHead → List ℕ
unfolding u32_bytes
head_bytes h = u32_bytes h.flag ++ u32_bytes h.cmd ++ u32_bytes h.index ++ u32_bytes h.length
