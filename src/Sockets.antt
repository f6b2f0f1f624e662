-- ===== src/Sockets.antt =====
-- IOUtils.cpp: sockets are made, bound and connected. What the kernel answers to each call is an
-- argument; the calls that change the kernel's table of open sockets are recorded in order.
pub mod Pieces
use files_event.Prelude.{
  ℕ, ◌≡◌, ◌⊎◌, arith, List, [], ◌∷◌, ◌++◌, Bool, false, not, ◌&&◌, ◌||◌, if◌then◌else◌, Option,
  none, some, ℤ, pos, negsuc, ltb_ℤ, ◌+ℤ◌, ◌-ℤ◌,
}

-- The answers of the kernel to the calls of one function: negative is an error, `errno` its number.
pub record Answers : Type 0 where
  pub socket : ℤ
  pub get_flags : ℤ
  pub set_flags : ℤ
  pub reuse : ℤ
  pub no_delay : ℤ
  pub bind : ℤ
  pub listen : ℤ
  pub connect : ℤ
  pub errno : ℕ

-- What happens to the descriptor, and `event_del` of an event for it.
pub data Call : Type 0 where
  opened : ℤ → Call
  non_blocking : ℤ → Call
  blocking : ℤ → Call
  closed : ℤ → Call
  unlisted : ℤ → Call

abbrev pub fails : ℤ → Bool
fails ret = ltb_ℤ ret (pos 0)

-- `setBlock`: the flags are read, and written with `O_NONBLOCK` added or removed.
unfoldable pub set_block : Answers → ℤ → Bool → ℤ × List Call
set_block k fd is_blocking =
    if fails k.get_flags
    then (k.get_flags, [])
    else if fails k.set_flags
    then (negsuc 0, [])
    else (pos 0, (if is_blocking then blocking fd else non_blocking fd) ∷ [])

abbrev minus_errno : Answers → ℤ
minus_errno k = pos 0 -ℤ pos k.errno

-- `tcpListen`: the result, `*outListenId` if it is set, and the calls. That the options cannot be set is only
-- logged; a socket that cannot be bound stays open.
unfoldable pub tcp_listen : Answers → ℕ → ℤ × Option ℤ × List Call
unfolding set_block
tcp_listen k bind_port =
    let made = opened k.socket ∷ (set_block k k.socket false).1 in
    if fails k.socket
    then (minus_errno k, none, [])
    else if fails k.bind
    then (minus_errno k, none, made)
    else if fails k.listen
    then (minus_errno k, none, made ++ (closed k.socket ∷ []))
    else (pos bind_port, some k.socket, made)

-- `tcpConnect`. The -1 for an option that cannot be set is overwritten by the result of `connect`.
unfoldable pub tcp_connect : Answers → ℤ × Option ℤ × List Call
tcp_connect k =
    if fails k.socket
    then (negsuc 0, none, [])
    else if fails k.connect
    then (minus_errno k, none, opened k.socket ∷ closed k.socket ∷ [])
    else (k.connect, some k.socket, opened k.socket ∷ [])

-- How many sockets a call leaves open behind it.
unfoldable pub left_open : List Call → ℤ
left_open [] = pos 0
left_open (opened fd ∷ calls) = pos 1 +ℤ left_open calls
left_open (closed fd ∷ calls) = left_open calls -ℤ pos 1
left_open (_ ∷ calls) = left_open calls

-- Whether the kernel grants all that `tcpListen` asks for.
abbrev pub granted : Answers → Bool
granted k = not (fails k.socket) && (not (fails k.bind) && not (fails k.listen))

-- `tcpListen` for every answer of the kernel: just if the kernel makes the socket, binds it and listens on it,
-- the caller gets the port and the socket, which is open; in every other case the caller gets the negated
-- error number and no socket, and a socket stays open just if it was made and not bound.
pub tcp_listen_lem :
    (k : Answers) (bind_port : ℕ)
    → let (ret, out, calls) = tcp_listen k bind_port in
      (ret ≡ (if granted k then pos bind_port else pos 0 -ℤ pos k.errno))
      × (out ≡ (if granted k then some k.socket else none))
      × (left_open calls
          ≡ (if granted k || (not (fails k.socket) && fails k.bind) then pos 1 else pos 0))
unfolding tcp_listen set_block left_open
tcp_listen_lem k bind_port = ground arith

-- `tcpConnect` leaves one socket open if it hands one out, and none if it does not.
pub tcp_connect_lem :
    (k : Answers)
    → let (ret, out, calls) = tcp_connect k in
      ((ret ≡ k.connect) × (out ≡ some k.socket) × (left_open calls ≡ pos 1))
      ⊎ ((out ≡ none) × (left_open calls ≡ pos 0))
unfolding tcp_connect left_open
tcp_connect_lem k = ground arith
