-- ===== src/Failover/Follow.antt =====
-- How a client follows the server that a notification names: `notification_listener` and
-- `handle_connection` of src/client/client.c.
use inf01151_trabalho_final.Base.{
  ℕ, zero, suc, ◌+◌, ◌/◌, ◌%◌, ◌^◌, ◌≤◌, ◌<◌, ◌≡◌, refl, ap, subst, sym, ◌∙◌, true, false, some,
  List, [], ◌∷◌, ◌++◌, append_assoc, append-nil, arith, Bytes, Lacks, length, length-append,
  c_string, c_string-zero, eqb_ne, lt→ltb,
}
use inf01151_trabalho_final.Text.{pos, scan_int, digits, print_nat, print_int, inet_ntop}
use inf01151_trabalho_final.Text.Decimal.{print_nat_head, scan_int-print_int}
use inf01151_trabalho_final.Text.Ip.{inet_ntop-Lacks}
use inf01151_trabalho_final.Address.{SockaddrIn, print_address}
use inf01151_trabalho_final.Address.Laws.{print_address-Lacks}
use inf01151_trabalho_final.Packet.Socket.{Event, transmit}
use inf01151_trabalho_final.Packet.{packet_reconnect, send_packet, image}
use inf01151_trabalho_final.Packet.Stream.{arriving, IsStream}
use inf01151_trabalho_final.Packet.Framing.{
  packet_of, packet_of-IsPacket, create_packet_lem, read_packet-image,
}
use inf01151_trabalho_final.Transfer.{done}
use inf01151_trabalho_final.Failover.{
  reconnect_packet, until_colon, port_behind, port_of, scan_host_port, Client, Network, Connection,
  connected, endpoint, setup_connections, handle_connection, follow, notification_turn,
}
use inf01151_trabalho_final.Failover.Told.{notice}

-- A number of up to three digits.
digits_one :
    (fuel n : ℕ) (behind : Bytes) → n < 10 → length (digits fuel n behind) ≤ 1 + length behind
unfolding digits
digits_one zero n behind h = omega arith
digits_one (suc fuel) n behind h = ground arith

digits_two :
    (fuel n : ℕ) (behind : Bytes) → n < 100 → length (digits fuel n behind) ≤ 2 + length behind
unfolding digits
digits_two zero n behind h = omega arith
digits_two (suc fuel) n behind h =
    ground (arith, digits_one fuel (n / 10) ((b'0' + n % 10) ∷ behind))

digits_three :
    (fuel n : ℕ) (behind : Bytes) → n < 1000 → length (digits fuel n behind) ≤ 3 + length behind
unfolding digits
digits_three zero n behind h = omega arith
digits_three (suc fuel) n behind h =
    ground (arith, digits_two fuel (n / 10) ((b'0' + n % 10) ∷ behind))

print_byte : (n : ℕ) → length (print_nat (n % 256)) ≤ 3
unfolding print_nat
print_byte n = digits_three (suc (n % 256)) (n % 256) [] (omega arith)

-- A dotted address has at most 15 characters.
pub length-inet_ntop : (a : ℕ) → length (inet_ntop a) ≤ 15
unfolding inet_ntop
length-inet_ntop a =
    let d = print_nat (a % 256) in
    let c = print_nat (a / 256 % 256) in
    let b = print_nat (a / 65536 % 256) in
    omega (
      arith,
      length-append (print_nat (a / 16777216 % 256)) (b'.' ∷ (b ++ b'.' ∷ (c ++ b'.' ∷ d))),
      length-append b (b'.' ∷ (c ++ b'.' ∷ d)),
      length-append c (b'.' ∷ d),
      print_byte a,
      print_byte (a / 256),
      print_byte (a / 65536),
      print_byte (a / 16777216),
    )

until_colon_at :
    (n : ℕ) (host rest : Bytes)
    → length host ≤ n
    → Lacks b':' host
    → until_colon n (host ++ b':' ∷ rest) ≡ (host, b':' ∷ rest)
unfolding until_colon
until_colon_at zero [] rest h lacks = refl
until_colon_at (suc n) [] rest h lacks = refl
until_colon_at zero (c ∷ host) rest h lacks = absurd (omega arith)
until_colon_at (suc n) (c ∷ host) rest h lacks =
    rw (eqb_ne lacks.0) (
      ap (λ (r : Bytes × Bytes). (c ∷ r.0, r.1)) (until_colon_at n host rest (omega arith) lacks.1))

port_of_lem :
    (host : Bytes) (port : ℕ)
    → (c : ℕ) × (rest : Bytes) × (host ≡ c ∷ rest)
    → port_of (host, b':' ∷ print_nat port) ≡ some (host, pos port)
unfolding port_of port_behind
port_of_lem host port (c, rest, e) =
    subst (λ h. port_of (h, b':' ∷ print_nat port) ≡ some (h, pos port)) (sym e)
      (rw (scan_port, port_behind) refl)
  where
    scan_port : scan_int (print_nat port) ≡ some (pos port, [])
    scan_port =
        ap scan_int (sym (append-nil (print_nat port)))
        ∙ unfold print_int in scan_int-print_int (pos port) [] tt

ip_head : (n : ℕ) → (c : ℕ) × (rest : Bytes) × (inet_ntop n ≡ c ∷ rest)
unfolding inet_ntop
ip_head n = let (c, rest, shape, d) = print_nat_head (n / 16777216 % 256) _ in (c, rest, shape)

digits_five :
    (fuel n : ℕ) (behind : Bytes) → n < 100000 → length (digits fuel n behind) ≤ 5 + length behind
unfolding digits
digits_five zero n behind h = omega arith
digits_five (suc zero) n behind h = ground arith
digits_five (suc (suc fuel)) n behind h =
    ground
      (arith, digits_three fuel (n / 10 / 10) ((b'0' + n / 10 % 10) ∷ ((b'0' + n % 10) ∷ behind)))

port_length : (n : ℕ) → n < 2 ^ 16 → length (print_nat n) ≤ 5
unfolding print_nat
port_length n h = digits_five (suc n) n [] (omega arith)

-- The host and the port of a printed address.
scan_host_port-print :
    (a : SockaddrIn)
    → scan_host_port (print_address a) ≡ some (inet_ntop a.sin_addr, pos a.sin_port)
unfolding scan_host_port print_address
scan_host_port-print a =
    ap port_of (
      until_colon_at 63 (inet_ntop a.sin_addr) (print_nat a.sin_port)
        (omega (arith, length-inet_ntop a.sin_addr))
        (inet_ntop-Lacks a.sin_addr b':' (λ d. absurd (omega arith)) (omega arith)))
    ∙ port_of_lem (inet_ntop a.sin_addr) a.sin_port (ip_head a.sin_addr)

-- The packet of a change of server, as a connection takes it.
reconnect_text : SockaddrIn → Bytes
reconnect_text a = print_address a ++ 0 ∷ []

fits : (a : SockaddrIn) → a.sin_port < 2 ^ 16 → length (reconnect_text a) < 2 ^ 16
unfolding reconnect_text print_address print_nat
fits a h = omega (
  arith,
  length-append (inet_ntop a.sin_addr ++ b':' ∷ print_nat a.sin_port) (0 ∷ []),
  length-append (inet_ntop a.sin_addr) (b':' ∷ print_nat a.sin_port),
  length-inet_ntop a.sin_addr,
  port_length a.sin_port,
)

notice_lem :
    (a : SockaddrIn)
    → a.sin_port < 2 ^ 16
    → (notice (reconnect_packet a)).out ≡ image (packet_of packet_reconnect (reconnect_text a))
unfolding reconnect_packet send_packet transmit reconnect_text
notice_lem a h = rw (create_packet_lem packet_reconnect (reconnect_text a) (fits a h)) refl

text_read :
    (a : SockaddrIn)
    → c_string (packet_of packet_reconnect (reconnect_text a)).body ≡ print_address a
unfolding reconnect_text
text_read a =
    ap c_string (append_assoc (print_address a) (0 ∷ []) (0 ∷ 0 ∷ []))
    ∙ c_string-zero (print_address a) (0 ∷ 0 ∷ [])
        (print_address-Lacks a 0 (λ d. absurd (omega arith)) (omega arith) (omega arith))

-- What the client becomes, and with whom it is connected.
abbrev pub following : SockaddrIn → Client → Client
following a k = record k {
  hostname = inet_ntop a.sin_addr;
  console_socket_port = a.sin_port;
  signal_reconnect = false;
  threads_exited = 0;
}

abbrev pub connections : SockaddrIn → Connection
connections a =
    connected (endpoint a.sin_addr a.sin_port) (endpoint a.sin_addr (a.sin_port + 1))
      (endpoint a.sin_addr (a.sin_port + 2))

-- The network lets the client reach a server: gethostbyname gives the address of a dotted name, and
-- the three connections are accepted.
pub record IsReachable (net : Network) (a : SockaddrIn) : Type 0 where
  pub resolves : net.resolve (inet_ntop a.sin_addr) ≡ some a.sin_addr
  pub takes_interface : net.accepts (endpoint a.sin_addr a.sin_port) ≡ true
  pub takes_send : net.accepts (endpoint a.sin_addr (a.sin_port + 1)) ≡ true
  pub takes_receive : net.accepts (endpoint a.sin_addr (a.sin_port + 2)) ≡ true

module _ (net : Network) (a : SockaddrIn) (r : IsReachable net a) where
  sets_up : setup_connections net a.sin_addr a.sin_port ≡ connections a
  unfolding setup_connections
  sets_up = rw (r.takes_interface) (rw (r.takes_receive) (rw (r.takes_send) refl))

  connects :
      (k : Client)
      → handle_connection net (record k {
        hostname = inet_ntop a.sin_addr;
        console_socket_port = a.sin_port;
        threads_exited = 0;
      })
        ≡ (connections a, following a k)
  unfolding handle_connection
  connects k = rw (r.resolves, handle_connection) (rw sets_up refl)

  follow_lem :
      (k : Client)
      → a.sin_port < 2 ^ 16
      → follow net (inet_ntop a.sin_addr) (pos a.sin_port) k ≡ done (connections a, following a k)
  unfolding follow
  follow_lem k h =
      rw (lt→ltb (length (inet_ntop a.sin_addr)) 20 (omega (arith, length-inet_ntop a.sin_addr))) (
        ap
          (λ port. done (
            handle_connection net (record k {
              hostname = inet_ntop a.sin_addr;
              console_socket_port = port;
              threads_exited = 0;
            })))
          (omega arith)
        ∙ ap done (connects k))

  -- A client that reads the packet of a change of server, however the stream is cut into reads,
  -- takes over its address and port and connects to these and the two ports behind it.
  pub notification_lem :
      (k : Client) (after : Bytes) (events : List Event)
      → a.sin_port < 2 ^ 16
      → IsStream events
      → arriving events ≡ (notice (reconnect_packet a)).out ++ after
      → notification_turn net events k ≡ done (connections a, following a k)
  unfolding notification_turn
  notification_lem k after events h s e =
      let text = reconnect_text a in
      let p = packet_of packet_reconnect text in
      let (result, _, _) =
        read_packet-image p after events (packet_of-IsPacket packet_reconnect text (fits a h)) s
          (e ∙ ap (λ t. t ++ after) (notice_lem a h)) in
      rw (result, notification_turn)
        (rw (ap scan_host_port (text_read a) ∙ scan_host_port-print a)
          (follow_lem (record k { signal_reconnect = true }) h))
