-- ===== src/Tests/Natives.antt =====
-- Runs of the calls of a Java program (NativeApi.cpp).
use files_event.Prelude.{
  ℕ, List, ◌⊎◌, ◌>>=◌, ◌≡◌, refl, some, none, pos, ltb_ℤ, returns, fault, true,
}
use files_event.Memory.{zeroed}
use files_event.Sockets.{Answers, tcp_connect}
use files_event.Server.{connect, register_client, new_global, create}
use files_event.Reactor.{made_global}
use files_event.NativeApi.{
  Api, Client, fresh_api, success, start_network, stop_network, start_file_recv, stop_file_recv,
}
use files_event.FileRecv
use files_event.Session.{Session, receiving}
use files_event.NativeApi.Holding.{EndsClient}
use files_event.NativeApi.Order.{
  Ordered, at_start, network_started, client_started, Ordered-stops, stop_network_first,
}

abbrev reached : Answers
reached = record {
  socket = pos 5;
  get_flags = pos 2;
  set_flags = pos 0;
  reuse = pos 0;
  no_delay = pos 0;
  bind = pos 0;
  listen = pos 0;
  connect = pos 0;
  errno = 0;
}

-- A network, and then a client that is connected on descriptor 5.
abbrev network : Api
network = (start_network 7 fresh_api).1

with_client :
    (c : Client) × (a : Api) × (start_file_recv reached 50 zeroed network ≡ returns (success, a))
    × (a.client ≡ some c)
    × (c.sock_id ≡ pos 5)
unfolding start_file_recv start_network connect tcp_connect register_client made_global new_global
    create
with_client = (_, _, refl, refl, refl)

has_global : network.global ≡ some (made_global 7)
unfolding start_network
has_global = refl

with_client-Ordered : Ordered with_client.1
with_client-Ordered =
    client_started reached 50 zeroed (network_started 7 at_start) has_global with_client.2

positive : ltb_ℤ (pos 0) with_client.0.sock_id ≡ true
positive = rw with_client.4 refl

Ordered-stops_example :
    (s : Session) × (t : FileRecv.Task) × (with_client.1.heap with_client.0.session ≡ some s)
    × (s.task ≡ receiving t)
    × EndsClient with_client.1 with_client.0 t
Ordered-stops_example = Ordered-stops with_client.1 with_client.0 with_client-Ordered with_client.3

stop_network_first_example :
    (s : Session) × (t : FileRecv.Task) × (with_client.1.heap with_client.0.session ≡ some s)
    × (s.task ≡ receiving t)
    × (((t.file ≡ none) × (stop_network with_client.1 ≡ fault))
        ⊎ ((content : List ℕ) × (t.file ≡ some content)
            × ((stop_network with_client.1 >>= λ r. stop_file_recv r.1) ≡ fault)))
stop_network_first_example =
    stop_network_first with_client.1 with_client.0 with_client-Ordered with_client.3 positive
