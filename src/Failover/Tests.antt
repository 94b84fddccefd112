-- ===== src/Failover/Tests.antt =====
-- Tests of the change of the manager, and its theorem at concrete inputs.
use inf01151_trabalho_final.Base.{◌≡◌, refl, some, true, false, List, [], ◌∷◌, Bytes, codes, to_le}
use inf01151_trabalho_final.Text.{pos, digits, print_nat, inet_ntop}
use inf01151_trabalho_final.Address.{SockaddrIn, print_address}
use inf01151_trabalho_final.Packet.Socket.{Event, data_in, transmit}
use inf01151_trabalho_final.Packet.{image, send_packet, create_packet}
use inf01151_trabalho_final.Transfer.{waiting}
use inf01151_trabalho_final.Commands.Samples.{no_replicas}
use inf01151_trabalho_final.Failover.{
  Notices, Takeover, await_replicas, reconnect_packet, Client, Network,
}
use inf01151_trabalho_final.Failover.Told.{notice}
use inf01151_trabalho_final.Failover.Handover.{clients_address}

abbrev takeover : Takeover
takeover = record {
  id = pos 2;
  listener_port = pos 4004;
  server_address = some 167772167;
  interface_socket_port = 4000;
  polls = no_replicas ∷ [];
}

-- One replica that does not come back holds the new manager up.
held_up : await_replicas 1 no_replicas (no_replicas ∷ no_replicas ∷ []) ≡ waiting
unfolding await_replicas
held_up = refl

abbrev net : Network
net = record { resolve = λ name. some 167772167; accepts = λ a. true }

abbrev client : Client
client = record {
  username = codes "ana";
  hostname = codes "localhost";
  console_socket_port = 4000;
  signal_reconnect = false;
  threads_exited = 3;
}

abbrev notices : Notices
notices = record { dials = []; sent = [] }

abbrev new_address : SockaddrIn
new_address = clients_address takeover 167772167

abbrev told : Bytes
unfolding reconnect_packet create_packet send_packet transmit image to_le print_address print_nat
    digits inet_ntop
told = (notice (reconnect_packet new_address)).out

abbrev events : List Event
events = data_in told ∷ []
