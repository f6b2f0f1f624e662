-- ===== src/Buffers.antt =====
-- common/basedef.h: the buffers in which a task collects or prepares one packet.
use files_event.Prelude.{ℕ, Bool, true, false, Option, none, some, not}
use files_event.Memory.{Memory, zeroed}
use files_event.Wire.{sizeof_net_cmd}

-- `CMD_LEN` and `FILE_MEMORY_LEN`.
abbrev pub cmd_len : ℕ
cmd_len = 1500

abbrev pub file_memory_len : ℕ
file_memory_len = 1048576

-- `struct tagCmdBuffer`. `proc_cmmd` says whether the head is being processed, or what follows it.
pub record CmdBuffer : Type 0 where
  pub cmmd : Memory
  pub proc_cmmd : Bool
  pub has_proc_len : ℕ
  pub total_len : ℕ

-- `reset` of `tagCmdBuffer` sets every field.
unfoldable pub reset_cmd : CmdBuffer
reset_cmd = record { cmmd = zeroed; proc_cmmd = true; has_proc_len = 0; total_len = sizeof_net_cmd }

-- `struct tagFileProcBuffer`. `block` is the pointer `data`.
pub record FileProcBuffer : Type 0 where
  pub cmmd : Memory
  pub proc_cmmd : Bool
  pub has_proc_len : ℕ
  pub total_len : ℕ
  pub data_len : ℕ
  pub mem_len : ℕ
  pub block : Option Memory

-- The constructor; it leaves `cmmd` and `memLen` unset.
unfoldable pub new_file_buffer : Memory → ℕ → FileProcBuffer
new_file_buffer junk junk_len = record {
  cmmd = junk;
  proc_cmmd = true;
  has_proc_len = 0;
  total_len = 0;
  data_len = 0;
  mem_len = junk_len;
  block = none;
}

unfoldable pub reset : FileProcBuffer → FileProcBuffer
reset b = record b {
  cmmd = zeroed;
  total_len = 0;
  data_len = 0;
  has_proc_len = 0;
  proc_cmmd = true;
}

-- `junk` is what `malloc` finds in the new block.
unfoldable pub create_mem : ℕ → Memory → FileProcBuffer → FileProcBuffer
create_mem len junk b = elim b.block [
  | none ↦ record b { block = some junk; mem_len = len }
  | some m ↦ b
]

unfoldable pub max_memory_lengh : FileProcBuffer → ℕ
max_memory_lengh b = b.mem_len

unfoldable pub release_mem : FileProcBuffer → FileProcBuffer
release_mem b = elim b.block [ none ↦ b | some m ↦ record b { block = none; mem_len = 0 } ]

unfoldable pub is_send_video : FileProcBuffer → Bool
is_send_video b = not b.proc_cmmd

unfoldable pub set_to_video : FileProcBuffer → FileProcBuffer
set_to_video b = record b { proc_cmmd = false; has_proc_len = 0; total_len = b.data_len }
