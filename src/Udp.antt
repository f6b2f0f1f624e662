-- ===== src/Udp.antt =====
-- UdpServer.cpp: the settings of the server and its socket, which `IOUtils::tcpListen` makes, as for the TCP
-- server. Its event is there as long as the server is.
use files_event.Prelude.{
  ℕ, ◌≡◌, ◌≢◌, arith, List, [], ◌∷◌, ◌++◌, if◌then◌else◌, ℤ, pos, pos_part, ltb_ℤ,
}
use files_event.Sockets.{Answers, Call, closed, tcp_listen, set_block, left_open, fails}
use files_event.Server.{EventGlobal, set_max_connections, or_listen}

pub record UdpServer : Type 0 where
  pub port : ℕ
  pub is_shutdown : ℕ
  pub is_running : ℕ
  pub listen_fd : ℤ
  pub threads : ℕ
  pub connections : ℕ
  pub queue_size : ℕ

-- The constructor.
unfoldable pub new_udp_server : ℕ → UdpServer
new_udp_server port = record {
  port = port;
  is_shutdown = 0;
  is_running = 0;
  listen_fd = pos 0;
  threads = 64;
  connections = 256;
  queue_size = 128;
}

-- A number that is not positive leaves the setting as it was.
abbrev positive_or : ℕ → ℤ → ℕ
positive_or old n = if ltb_ℤ (pos 0) n then pos_part n else old

unfoldable pub set_udp_threads : ℤ → UdpServer → UdpServer
set_udp_threads n s = record s { threads = positive_or s.threads n }

unfoldable pub set_udp_connections : ℤ → UdpServer → UdpServer
set_udp_connections n s = record s { connections = positive_or s.connections n }

unfoldable pub set_udp_queue_size : ℤ → UdpServer → UdpServer
set_udp_queue_size n s = record s { queue_size = positive_or s.queue_size n }

-- `registerEvent`: the result, and the descriptor whose event is added to the loop.
unfoldable pub register_udp_server :
    Answers → UdpServer → EventGlobal → ℤ × UdpServer × EventGlobal × ℤ × List Call
unfolding tcp_listen
register_udp_server k s g =
    let (ret, out, calls) = tcp_listen k s.port in
    (
      ret,
      record s { listen_fd = or_listen s.listen_fd out },
      set_max_connections s.connections g,
      or_listen s.listen_fd out,
      calls,
    )

-- `shutdown`, behind `event_del`.
unfoldable pub shutdown_udp_server : UdpServer → UdpServer × List Call
shutdown_udp_server s =
    if ltb_ℤ (pos 0) s.listen_fd
    then (record s { listen_fd = pos 0 }, closed s.listen_fd ∷ [])
    else (s, [])

-- A server that is shut down can be registered again: it stands as before it was registered, and the sockets that
-- are left open are those that could not be bound.
pub register-shutdown_again :
    (k : Answers) (s : UdpServer) (g : EventGlobal)
    → s.listen_fd ≡ pos 0
    → k.socket ≢ pos 0
    → let (ret, s₁, g₁, added, calls) = register_udp_server k s g in
      let (s₂, more) = shutdown_udp_server s₁ in
      (s₂ ≡ s)
      × (left_open (calls ++ more)
          ≡ (if fails k.socket then pos 0 else if fails k.bind then pos 1 else pos 0))
unfolding register_udp_server shutdown_udp_server tcp_listen set_block left_open
register-shutdown_again k s g fresh fd = ground arith
