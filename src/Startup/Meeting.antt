-- ===== src/Startup/Meeting.antt =====
-- A client is started with the name and the port of a server: `main` of src/client/client.c and the
-- ports of `main` of src/server/server.c.
use inf01151_trabalho_final.Base.{
  ℕ, ◌+◌, ◌%◌, ◌^◌, ◌<◌, ◌≡◌, refl, ap, sym, ◌∙◌, true, some, List, ◌∷◌, Bytes, arith, length,
  lt→ltb,
}
use inf01151_trabalho_final.Text.{pos, print_int}
use inf01151_trabalho_final.Text.Decimal.{atoi-print_int}
use inf01151_trabalho_final.Address.{SockaddrIn, af_inet, to_u16}
use inf01151_trabalho_final.Transfer.{done}
use inf01151_trabalho_final.Failover.{
  Client, Network, connected, endpoint, setup_connections, handle_connection,
}
use inf01151_trabalho_final.Startup.{
  server_ports, named_client, with_hostname, parse_client_arguments,
}

with_hostname_lem :
    (hostname : Bytes) (k : Client)
    → length hostname < 20
    → with_hostname hostname k ≡ done (record k { hostname = hostname })
unfolding with_hostname
with_hostname_lem hostname k fits = rw (lt→ltb (length hostname) 20 fits, with_hostname) refl

abbrev pub client_of : Bytes → Bytes → ℕ → Client
client_of username hostname port = record (named_client username) {
  hostname = hostname;
  console_socket_port = port;
}

parse_client_lem :
    (program username hostname : Bytes) (port : ℕ) (more : List Bytes)
    → length hostname < 20
    → port < 2 ^ 16
    → parse_client_arguments (program ∷ username ∷ hostname ∷ print_int (pos port) ∷ more)
      ≡ done (some (client_of username hostname port))
unfolding parse_client_arguments
parse_client_lem program username hostname port more fits small =
    rw (with_hostname_lem hostname (named_client username) fits, parse_client_arguments)
      (ap (λ n. done (some (client_of username hostname n)))
        (ap to_u16 (atoi-print_int (pos port)) ∙ omega arith))

endpoint_mod : (address n : ℕ) → endpoint address (n % 2 ^ 16) ≡ endpoint address n
endpoint_mod address n = ap (endpoint_at address) (omega arith)
  where
    endpoint_at : ℕ → ℕ → SockaddrIn
    endpoint_at a p = record { sin_family = af_inet; sin_addr = a; sin_port = p }

setup_connections_lem :
    (net : Network) (address port : ℕ)
    → net.accepts (endpoint address port) ≡ true
    → net.accepts (endpoint address (port + 1)) ≡ true
    → net.accepts (endpoint address (port + 2)) ≡ true
    → setup_connections net address port
      ≡ connected
          (endpoint address port)
          (endpoint address (port + 1))
          (endpoint address (port + 2))
unfolding setup_connections
setup_connections_lem net address port a b c = rw (a, setup_connections) (rw c (rw b refl))

-- A client that is started with a user's name, the host of a server and the port that the server
-- printed connects to the three ports on which that server listens for it: what the client sends
-- goes where the server receives, and what it receives comes from where the server sends. The host's
-- name fits the 20 bytes of `hostname`, and the server accepts.
pub meeting_lem :
    (program username hostname : Bytes) (port address : ℕ) (more : List Bytes) (net : Network)
    → length hostname < 20
    → port < 2 ^ 16
    → net.resolve hostname ≡ some address
    → net.accepts (endpoint address (server_ports port).interface) ≡ true
    → net.accepts (endpoint address (server_ports port).receive) ≡ true
    → net.accepts (endpoint address (server_ports port).send) ≡ true
    → (k : Client) × (parse_client_arguments
          (program ∷ username ∷ hostname ∷ print_int (pos port) ∷ more)
        ≡ done (some k))
      × (k.username ≡ username)
      × ((handle_connection net k).0
          ≡ connected
              (endpoint address (server_ports port).interface)
              (endpoint address (server_ports port).receive)
              (endpoint address (server_ports port).send))
unfolding handle_connection
meeting_lem program username hostname port address more net fits small resolves takes_interface
      takes_receive takes_send =
    (
      client_of username hostname port,
      parse_client_lem program username hostname port more fits small,
      refl,
      rw (resolves, handle_connection)
          (setup_connections_lem net address port takes_interface
              (ap net.accepts (sym (endpoint_mod address (port + 1))) ∙ takes_receive)
              (ap net.accepts (sym (endpoint_mod address (port + 2))) ∙ takes_send)
            ∙ ap (λ e. connected (endpoint address port) e (endpoint address (port + 2)))
                (sym (endpoint_mod address (port + 1)))
            ∙ ap (connected (endpoint address port) (endpoint address ((port + 1) % 2 ^ 16)))
                (sym (endpoint_mod address (port + 2)))),
    )
