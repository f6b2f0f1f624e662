-- ===== src/FileSend/Life.antt =====
-- The life of a `TaskFileSend`: it is asked for a file that can be opened, and then come read events and write
-- events in any order, with any answers of the kernel and any bytes from the client.
use files_event.Prelude.{
  ℕ, ◌+◌, ◌%◌, ◌^◌, ◌≡◌, ◌≢◌, refl, subst, inl, inr, List, Bool, true, false, some, length, codes,
  arith, ℤ, pos, Run, returns, fault, blocked, ◌>>=◌, if◌then◌else◌, ◌==◌,
}
use files_event.Memory.{Memory, store_in, get_u32}
use files_event.Wire.{code_of, control_play}
use files_event.Posix.{Net, Segment, Received, got, closed, failed, recv}
use files_event.Buffers.{cmd_len, reset_cmd}
use files_event.Proto.{get_value_by_name, c_string}
use files_event.Transport.{recv_len}
use files_event.FileSend.{
  Task, new, set_fetch_file, put_cmd, loginret_bytes, tcp_send_data, write_buffer, frame_len,
}
use files_event.FileSend.Reading.{
  read_buffer, head_received, head_end, recv_pack_data, body_received, command_end, control,
  is_text, text_of, pack_head_len,
}
use files_event.FileSend.Valid.{IsValid, Stays}
use files_event.FileSend.Bounds.{put-Stays, write_buffer-IsValid}

-- The states of a task, on a heap that holds `junk` where nothing was written.
pub data Reach (junk : Memory) : Task → Type 0 where
  asked :
      (junk_len st_size : ℕ) (content : List ℕ) (net net' : Net) (ret : ℤ) {t : Task}
      → set_fetch_file (some content) st_size (new junk junk_len) net ≡ returns (ret, t, net')
      → Reach junk t
  wrote :
      (net net' : Net) (ret : ℤ) {t t' : Task}
      → Reach junk t
      → write_buffer junk t net ≡ returns (ret, t', net')
      → Reach junk t'
  got_input :
      (net net' : Net) (ret : ℤ) (wakes : Bool) {t t' : Task}
      → Reach junk t
      → read_buffer t net ≡ returns (ret, t', net', wakes)
      → Reach junk t'

-- The send side of two tasks.
abbrev pub SameSend : Task → Task → Type 0
SameSend t' t =
    (t'.send ≡ t.send)
    × (t'.file ≡ t.file)
    × (t'.file_len ≡ t.file_len)
    × (t'.has_read_len ≡ t.has_read_len)

abbrev pub Keeps : {A : Type 0} → (A → Task) → Task → Run A → Type 0
Keeps task_of t (returns a) = SameSend (task_of a) t
Keeps task_of t fault = Unit {0}
Keeps task_of t blocked = Unit {0}

Keeps-bind :
    {A B : Type 0} (task_of : B → Task) (t : Task) (r : Run A) (f : A → Run B)
    → ((a : A) → Keeps task_of t (f a))
    → Keeps task_of t (r >>= f)
Keeps-bind task_of t (returns a) f h = h a
Keeps-bind task_of t fault f h = tt
Keeps-bind task_of t blocked f h = tt

Keeps-if :
    {B : Type 0} (task_of : B → Task) (t : Task) (c : Bool) (x y : Run B)
    → Keeps task_of t x
    → Keeps task_of t y
    → Keeps task_of t (if c then x else y)
Keeps-if task_of t true x y h k = h
Keeps-if task_of t false x y h k = k

abbrev pub result_task : ℤ × Task × Net × Bool → Task
result_task (ret, t, net, wakes) = t

abbrev control_task : Task × Bool → Task
control_task (t, wakes) = t

control-Keeps : (m : Memory) (t : Task) → Keeps control_task t (control m t)
unfolding control
control-Keeps m t =
    Keeps-bind control_task t (get_value_by_name 256 (codes "name") (text_of m)) _ λ name.
      Keeps-if control_task t (is_text (c_string name.value) (codes "start")) _ _
        (Keeps-bind control_task t (get_value_by_name 256 (codes "tmstart") (text_of m)) _ λ _.
          Keeps-bind control_task t (get_value_by_name 256 (codes "tmend") (text_of m)) _
            λ _. (refl, refl, refl, refl))
        (Keeps-if control_task t (is_text (c_string name.value) (codes "setpause")) _ _
          (Keeps-bind control_task t (get_value_by_name 256 (codes "value") (text_of m)) _
            λ _. (refl, refl, refl, refl))
          (Keeps-if control_task t (is_text (c_string name.value) (codes "send")) _ _
            (refl, refl, refl, refl) (refl, refl, refl, refl)))

command_end-Keeps :
    (m : Memory) (ret : ℤ) (t : Task) (net : Net) → Keeps result_task t (command_end m ret t net)
unfolding command_end
command_end-Keeps m ret t net =
    go (if get_u32 m 4 == code_of control_play then control m t else returns (t, false)) (
      Keeps-if control_task t (get_u32 m 4 == code_of control_play) (control m t)
        (returns (t, false)) (control-Keeps m t) (refl, refl, refl, refl))
  where
    go :
        (r : Run (Task × Bool))
        → Keeps control_task t r
        → Keeps result_task t
            (r >>= λ (t', wakes). returns (ret, record t' { recv = reset_cmd }, net, wakes))
    go (returns (t', wakes)) h = h
    go fault h = tt
    go blocked h = tt

body_received-Keeps :
    (t : Task) (net : Net) (r : Received × List Segment)
    → Keeps result_task t (body_received t net r)
unfolding body_received
body_received-Keeps t net (got bs, inbox) =
    Keeps-bind result_task t (store_in cmd_len t.recv.cmmd (pack_head_len + t.recv.has_proc_len) bs)
      _
      λ m.
        Keeps-if result_task t (t.recv.has_proc_len + length bs == t.recv.total_len) _ _
          (command_end-Keeps m _ _ _) (refl, refl, refl, refl)
body_received-Keeps t net (closed, inbox) = (refl, refl, refl, refl)
body_received-Keeps t net (failed, inbox) = (refl, refl, refl, refl)

head_end-Keeps : (m : Memory) (t : Task) (net : Net) → Keeps result_task t (head_end m t net)
unfolding head_end recv_pack_data
head_end-Keeps m t net =
    body_received-Keeps
      (record t {
        recv = record (t.recv) { total_len = get_u32 m 12; proc_cmmd = false; has_proc_len = 0 };
      })
      net (recv (recv_len (get_u32 m 12) 0) net)

head_received-Keeps :
    (t : Task) (net : Net) (r : Received × List Segment)
    → Keeps result_task t (head_received t net r)
unfolding head_received
head_received-Keeps t net (got bs, inbox) =
    Keeps-bind result_task t (store_in cmd_len t.recv.cmmd t.recv.has_proc_len bs) _ λ m.
      Keeps-if result_task t (t.recv.has_proc_len + length bs == pack_head_len) _ _
        (head_end-Keeps m
          (record t {
            recv = record (t.recv) { cmmd = m; has_proc_len = t.recv.has_proc_len + length bs };
          })
          (record net { inbox = inbox }))
        (refl, refl, refl, refl)
head_received-Keeps t net (closed, inbox) = (refl, refl, refl, refl)
head_received-Keeps t net (failed, inbox) = (refl, refl, refl, refl)

-- A read event leaves what is sent alone.
pub read_buffer-Keeps : (t : Task) (net : Net) → Keeps result_task t (read_buffer t net)
unfolding read_buffer recv_pack_data
read_buffer-Keeps t net =
    Keeps-if result_task t t.recv.proc_cmmd _ _
      (head_received-Keeps t net (recv (recv_len pack_head_len t.recv.has_proc_len) net))
      (body_received-Keeps t net (recv (recv_len t.recv.total_len t.recv.has_proc_len) net))

pub same-IsValid : (t' t : Task) → SameSend t' t → IsValid t → IsValid t'
unfolding frame_len
same-IsValid t' t (a, b, c, d) v = rw (a, b, c, d) v

pub asked-Stays :
    (junk : Memory) (junk_len st_size : ℕ) (content : List ℕ) (net : Net)
    → Stays (set_fetch_file (some content) st_size (new junk junk_len) net)
unfolding set_fetch_file new
asked-Stays junk junk_len st_size content net = go (tcp_send_data (put_cmd bytes 1048 opened) net) (
    put-Stays bytes 1048 opened net
      (
        record { within = omega arith; phase = inl (refl, omega arith); room = inl (refl, refl) },
        inr (record { content = content; position = 0 }, refl),
      )
      (omega arith) (omega arith))
  where
    bytes : List ℕ
    bytes = loginret_bytes (st_size % 2 ^ 32)

    opened : Task
    opened = record (new junk junk_len) {
      file = some (record { content = content; position = 0 });
      file_len = st_size % 2 ^ 32;
    }

    go :
        (r : Run (ℤ × Task × Net))
        → Stays r
        → Stays (r >>= λ (ret, t', net'). returns (pos 0, t', net'))
    go (returns (ret, t', net')) h = h
    go fault h = h
    go blocked h = tt

returned-IsValid :
    (r : Run (ℤ × Task × Net)) (ret : ℤ) (t : Task) (net : Net)
    → Stays r
    → r ≡ returns (ret, t, net)
    → IsValid t
returned-IsValid r ret t net h e = subst Stays e h

pub Reach-IsValid : (junk : Memory) (t : Task) → Reach junk t → IsValid t
Reach-IsValid junk t (asked junk_len st_size content net net' ret e) =
    returned-IsValid _ ret t net' (asked-Stays junk junk_len st_size content net) e
Reach-IsValid junk t (wrote net net' ret {t = t₀} r e) =
    returned-IsValid _ ret t net' (write_buffer-IsValid junk t₀ net (Reach-IsValid junk t₀ r)) e
Reach-IsValid junk t (got_input net net' ret wakes {t = t₀} r e) =
    same-IsValid t t₀ (subst (Keeps result_task t₀) e (read_buffer-Keeps t₀ net))
      (Reach-IsValid junk t₀ r)

-- Whatever a task that was asked for a file that can be opened has been through, in any order of read
-- and write events, whatever the client sent, the kernel answered and `stat` said of the file's length: the
-- next write event touches no memory but its own and goes through no null pointer.
pub Reach-ne-fault :
    (junk : Memory) (t : Task) (net : Net) → Reach junk t → write_buffer junk t net ≢ fault
Reach-ne-fault junk t net r e =
    subst Stays e (write_buffer-IsValid junk t net (Reach-IsValid junk t r))
