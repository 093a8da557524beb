-- ===== src/Net/Sockets.antt =====
-- The functions of networks.c. A call that succeeds is noted in `sockets`; every failing call ends the
-- process, but for the one of `getsockname` that `udpServerSetup` does not test.
use selective_reject.Base.{
  ℕ, ◌+◌, ◌%◌, ◌^◌, Bool, none, some, List, [], ◌∷◌, ◌++◌, replicate, if◌then◌else◌, ℤ, unsigned32,
  be16,
}
use selective_reject.Machine.{
  World, Env, M, ◌>>=◌, ◌>>◌, pure, returned, exited, tick, SocketAddress, SocketKind, stream,
  datagram, SocketCall, opened, bound, listening, connected,
}
use selective_reject.Net.Names.{gethostbyname6}

-- `in6addr_any`
abbrev pub any_address : List ℕ
any_address = replicate 16 0

abbrev pub listen_backlog : ℕ
listen_backlog = 10

-- The `uint16_t` that an `int` converts to, in network order: `htons(port)`. `ntohs(port)` is the same
-- swap of the two bytes.
unfoldable pub port_bytes : ℤ → List ℕ
port_bytes port = be16 (unsigned32 port % 2 ^ 16)

abbrev pub noted : SocketCall → World → World
noted c w = record w { clock = w.clock + 1; sockets = w.sockets ++ c ∷ [] }

-- A call that fails, or is noted.
abbrev pub socket_call : Bool → SocketCall → M (Unit {0})
socket_call fails c w = if fails then exited (tick w) else returned tt (noted c w)

module _ (env : Env) where
  -- `socket(AF_INET6, kind, 0)` and its test.
  unfoldable pub open_socket : SocketKind → M ℕ
  open_socket kind w = elim (env.socket_answer w) [
    | none ↦ exited (tick w)
    | some fd ↦ returned fd (noted (opened kind fd) w)
  ]

  unfoldable pub create_udp_socket : M ℕ
  create_udp_socket = open_socket datagram

  unfoldable pub bind_socket : ℕ → SocketAddress → M (Unit {0})
  bind_socket fd address w = socket_call (env.bind_fails w) (bound fd address) w

  unfoldable pub listen_on : ℕ → M (Unit {0})
  listen_on fd w = socket_call (env.listen_fails w) (listening fd listen_backlog) w

  unfoldable pub connect_to : ℕ → SocketAddress → M (Unit {0})
  connect_to fd address w = socket_call (env.connect_fails w) (connected fd address) w

  -- `getsockname` and its test, for the number that is printed.
  unfoldable pub get_socket_name : M (Unit {0})
  get_socket_name w = if env.getsockname_fails w then exited (tick w) else returned tt (tick w)

  unfoldable pub udp_server_setup : ℤ → M ℕ
  udp_server_setup server_port = do
    socket_num ← create_udp_socket
    bind_socket socket_num (record { address = any_address; port = port_bytes server_port })
    pure socket_num

  -- The socket, and `*serverAddress`.
  unfoldable pub setup_udp_client_to_server : List ℕ → ℤ → M (ℕ × SocketAddress)
  setup_udp_client_to_server host_name server_port = do
    socket_num ← create_udp_socket
    ip_address ← gethostbyname6 env host_name
    elim ip_address [
      | none ↦ (λ w. exited w)
      | some ip ↦ pure (socket_num, record { address = ip; port = port_bytes server_port })
    ]

  unfoldable pub tcp_server_setup : ℤ → M ℕ
  tcp_server_setup server_port = do
    main_server_socket ← open_socket stream
    bind_socket main_server_socket (record { address = any_address; port = port_bytes server_port })
    get_socket_name
    listen_on main_server_socket
    pure main_server_socket

  unfoldable pub tcp_accept : M ℕ
  tcp_accept w = elim (env.accept_answer w) [
    | none ↦ exited (tick w)
    | some client_socket ↦ returned client_socket (tick w)
  ]

  -- `atoi` is the C library's.
  unfoldable pub tcp_client_setup : (List ℕ → ℤ) → List ℕ → List ℕ → M ℕ
  tcp_client_setup atoi server_name server_port = do
    socket_num ← open_socket stream
    ip_address ← gethostbyname6 env server_name
    elim ip_address [
      | none ↦ (λ w. exited w)
      | some ip ↦ do
        connect_to socket_num (record { address = ip; port = port_bytes (atoi server_port) })
        pure socket_num
    ]
