-- ===== src/Welcome/Tests.antt =====
-- Tests of the first exchange, and its theorem at a concrete input.
use inf01151_trabalho_final.Base.{true, some, [], Bytes, replicate}
use inf01151_trabalho_final.Text.{pos}
use inf01151_trabalho_final.Address.{no_address}
use inf01151_trabalho_final.SyncBuffer.{invalid}
use inf01151_trabalho_final.Sessions.Users.{no_contexts}
use inf01151_trabalho_final.Server.{Server}
use inf01151_trabalho_final.Commands.Samples.{no_replicas}
use inf01151_trabalho_final.Welcome.{Accepted, Arrival}

abbrev accepted : Accepted
accepted = record { sock_receive = pos 5; sock_send = pos 6; cli_send_addr = no_address }

abbrev arrival : Arrival
arrival = record { sock_interface = pos 4; accepted = some accepted; memory = replicate 10 invalid }

-- A name of 33 characters.
abbrev long_name : Bytes
long_name = replicate 33 b'n'

abbrev empty_server : Server
empty_server = record {
  manager = true;
  contexts = no_contexts 30;
  replicas = no_replicas;
  fs = record { files = []; writable = λ p. true };
}
