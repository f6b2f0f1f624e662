-- ===== src/Transfer/Reply.antt =====
-- The reply of TaskFileSend.cpp to a request, as TaskFileRecv.cpp understands it.
use files_event.Prelude.{ℕ, ◌^◌, ◌<◌, ◌≡◌, refl, ◌∙◌, List, [], ◌++◌, length, arith, replicate}
use files_event.Memory.{as_memory, get_u32, u32_bytes}
use files_event.Wire.{NetHead, head_bytes, net_flag, code_of, loginret}
use files_event.FileSend.{loginret_bytes}
use files_event.FileRecv.Stream.{Saved, awaiting, act, feed_all}
use files_event.Transfer.Packets.{length-packet, head_fields, packet_acted}

abbrev login_net_head : NetHead
login_net_head = record { flag = net_flag; cmd = code_of loginret; index = 0; length = 1032 }

abbrev login_payload : ℕ → List ℕ
login_payload len =
    u32_bytes 0 ++ (u32_bytes 8 ++ (u32_bytes 0 ++ (u32_bytes len ++ replicate 1016 0)))

length-login_payload : (len : ℕ) → length (login_payload len) ≡ 1032
unfolding u32_bytes
length-login_payload len = refl

login_field :
    (len : ℕ)
    → len < 2 ^ 32
    → get_u32 (as_memory (head_bytes login_net_head ++ login_payload len)) 28 ≡ len
unfolding get_u32 head_bytes u32_bytes
login_field len l = omega arith

login_act :
    (len : ℕ) (s : Saved)
    → len < 2 ^ 32
    → act (head_bytes login_net_head ++ login_payload len) s
      ≡ awaiting [] (record s { expected = len })
unfolding act
login_act len s l = simp (
  (head_fields login_net_head (login_payload len) (omega arith) (omega arith)).0,
  length-packet login_net_head (login_payload len),
  length-login_payload len,
  login_field len l,
)

-- The reply to a request tells the client the length of the file, if it is below 2 ^ 32.
pub loginret_understood :
    (len : ℕ) (s : Saved)
    → len < 2 ^ 32
    → feed_all (awaiting [] s) (loginret_bytes len) ≡ awaiting [] (record s { expected = len })
unfolding loginret_bytes
loginret_understood len s l =
    packet_acted login_net_head (login_payload len) s (omega (arith, length-login_payload len))
      (length-login_payload len) (omega arith) (omega arith)
    ∙ login_act len s l
