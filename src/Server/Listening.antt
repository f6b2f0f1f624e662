-- ===== src/Server/Listening.antt =====
-- The listening socket of TcpServer.cpp, from `registerEvent` to `shutdown`.
use files_event.Prelude.{
  ltb_ℤ, negsuc, ◌∷◌, false, Bool, ◌≡◌, ◌≢◌, arith, List, [], ◌++◌, returns, true, if◌then◌else◌,
  some, pos,
}
use files_event.Sockets.{Answers, Call, unlisted, closed, tcp_listen, set_block, left_open, fails}
use files_event.Server.{TcpServer, EventGlobal, register_server, shutdown}

-- A server that listened for the first time and was shut down, where the kernel does not hand out descriptor 0:
-- the limit is the global's, no socket is left open but one that could not be bound, an event was added
-- also when there is no socket, and then on descriptor 0, it is there to be removed, and a second `shutdown` does nothing.
pub shutdown-register :
    (k : Answers) (s : TcpServer) (g : EventGlobal)
    → s.accepts ≡ true
    → s.listen_fd ≡ pos 0
    → k.socket ≢ pos 0
    → let (ret, s₁, g₁, added, calls) = register_server k s g in
      (s₂ : TcpServer) × (more : List Call) × (shutdown s₁ ≡ returns (s₂, more))
      × (g₁.max_connections ≡ s.connections)
      × (left_open (calls ++ more)
          ≡ (if fails k.socket then pos 0 else if fails k.bind then pos 1 else pos 0))
      × (added
          ≡ some (
              if fails k.socket
              then pos 0
              else if fails k.bind
              then pos 0
              else if fails k.listen
              then pos 0
              else k.socket))
      × (shutdown s₂ ≡ returns (s₂, []))
unfolding register_server shutdown tcp_listen set_block left_open
shutdown-register k s g there fresh fd =
    let (ret, s₁, g₁, added, calls) = register_server k s g in
    let still : Bool = ltb_ℤ (pos 0) s₁.listen_fd in
    (
      record s₁ { accepts = false; listen_fd = if still then negsuc 0 else s₁.listen_fd },
      unlisted s₁.listen_fd ∷ (if still then closed s₁.listen_fd ∷ [] else []),
      ground arith,
      ground arith,
      ground arith,
      ground arith,
      ground arith,
    )
