-- ===== src/Net/Tcp.antt =====
-- Where a TCP server listens and a TCP client connects to (networks.c).
use selective_reject.Base.{
  ℕ, ◌^◌, ◌≤◌, ◌<◌, ◌≡◌, ◌∙◌, refl, ap, arith, inl, inr, some, true, List, [], ◌∷◌, ◌++◌,
  append_assoc, length, take, ℤ, pos, leb, Bool-cases, Option-cases,
}
use selective_reject.Machine.{
  World, Env, Ends, Never, Ends-and_then, Ends-mapped, SocketAddress, SocketCall, tick, stream,
  opened, bound, listening, connected,
}
use selective_reject.Net.Names.{get_ip_address46, gethostbyname6}
use selective_reject.Net.Sockets.{
  any_address, port_bytes, listen_backlog, open_socket, bind_socket, get_socket_name, listen_on,
  connect_to, tcp_server_setup, tcp_client_setup,
}
use selective_reject.Net.Ports.{
  IsPort, port_bytes-IsPort, Fails, no_bind, no_name, open_socket-Ends,
}

-- A call that only TCP makes has failed, or another one.
pub data TcpFails (env : Env) : Type 0 where
  no_call : Fails env → TcpFails env
  no_own_name : (w : World) → env.getsockname_fails w ≡ true → TcpFails env
  no_listen : (w : World) → env.listen_fails w ≡ true → TcpFails env
  no_connect : (w : World) → env.connect_fails w ≡ true → TcpFails env

three :
    (xs : List SocketCall) (a b c : SocketCall)
    → ((xs ++ a ∷ []) ++ b ∷ []) ++ c ∷ [] ≡ xs ++ a ∷ b ∷ c ∷ []
three xs a b c =
    append_assoc (xs ++ a ∷ []) (b ∷ []) (c ∷ []) ∙ append_assoc xs (a ∷ []) (b ∷ c ∷ [])

module _ (env : Env) where
  abbrev Lost : World → Type 0
  Lost v = TcpFails env

  open_stream-Ends :
      (w : World)
      → Ends Lost Never
          (λ fd v. v.sockets ≡ w.sockets ++ opened stream fd ∷ [])
          (open_socket env stream w)
  open_stream-Ends w =
      Ends-mapped (λ v. Fails env) Lost Never Never _ _ (open_socket env stream w)
        (λ v fails. no_call fails) (λ v z. z) (λ fd v s. s) (open_socket-Ends env stream w)

  bind_socket-Ends :
      (fd : ℕ) (a : SocketAddress) (w : World)
      → Ends Lost Never (λ _ v. v.sockets ≡ w.sockets ++ bound fd a ∷ []) (bind_socket env fd a w)
  unfolding bind_socket
  bind_socket-Ends fd a w = elim (Bool-cases (env.bind_fails w)) [
    | inl fails ↦ rw fails (no_call (no_bind w fails))
    | inr works ↦ rw works refl
  ]

  get_socket_name-Ends :
      (w : World) → Ends Lost Never (λ _ v. v.sockets ≡ w.sockets) (get_socket_name env w)
  unfolding get_socket_name
  get_socket_name-Ends w = elim (Bool-cases (env.getsockname_fails w)) [
    | inl fails ↦ rw fails (no_own_name w fails)
    | inr works ↦ rw works refl
  ]

  listen_on-Ends :
      (fd : ℕ) (w : World)
      → Ends Lost Never
          (λ _ v. v.sockets ≡ w.sockets ++ listening fd listen_backlog ∷ [])
          (listen_on env fd w)
  unfolding listen_on
  listen_on-Ends fd w = elim (Bool-cases (env.listen_fails w)) [
    | inl fails ↦ rw fails (no_listen w fails)
    | inr works ↦ rw works refl
  ]

  connect_to-Ends :
      (fd : ℕ) (a : SocketAddress) (w : World)
      → Ends Lost Never
          (λ _ v. v.sockets ≡ w.sockets ++ connected fd a ∷ [])
          (connect_to env fd a w)
  unfolding connect_to
  connect_to-Ends fd a w = elim (Bool-cases (env.connect_fails w)) [
    | inl fails ↦ rw fails (no_connect w fails)
    | inr works ↦ rw works refl
  ]

  -- `tcpServerSetup` for a port below 2^16 ends in a process exit only if a call has failed; otherwise it
  -- has opened one stream socket, bound it, at any address of the host, to that port, and listens on it,
  -- in this order.
  pub tcp_server_setup-IsPort :
      (n : ℕ) (w : World)
      → n < 2 ^ 16
      → Ends
          (λ v. TcpFails env)
          Never
          (λ fd v.
            (a : SocketAddress) × (v.sockets
              ≡ w.sockets ++ opened stream fd ∷ bound fd a ∷ listening fd listen_backlog ∷ [])
            × (a.address ≡ any_address)
            × IsPort n a)
          (tcp_server_setup env (pos n) w)
  unfolding tcp_server_setup
  tcp_server_setup-IsPort n w h =
      let a : SocketAddress = record { address = any_address; port = port_bytes (pos n) } in
      Ends-and_then Lost Never _ _ (open_socket env stream w) _ (open_stream-Ends w) (λ fd v s.
        Ends-and_then Lost Never _ _ (bind_socket env fd a v) _ (bind_socket-Ends fd a v) (λ _ u s'.
          Ends-and_then Lost Never _ _ (get_socket_name env u) _ (get_socket_name-Ends u)
            (λ _ x s''.
              Ends-and_then Lost Never _ _ (listen_on env fd x) _ (listen_on-Ends fd x) (λ _ y last.
                (
                  a,
                  last
                      ∙ (ap (λ z. z ++ listening fd listen_backlog ∷ [])
                            (s'' ∙ (s' ∙ ap (λ z. z ++ bound fd a ∷ []) s))
                          ∙ three w.sockets (opened stream fd) (bound fd a)
                              (listening fd listen_backlog)),
                  refl,
                  port_bytes-IsPort n any_address h,
                )))))

  -- `tcpClientSetup` for a port below 2^16, where the resolver gives whole IPv6 addresses, ends in a
  -- process exit only if a call has failed; otherwise it has opened one stream socket and connected it to
  -- the first of the server's addresses, at the port that `atoi` reads.
  pub tcp_client_setup-IsPort :
      (atoi : List ℕ → ℤ) (server_name server_port : List ℕ) (n : ℕ) (w : World)
      → atoi server_port ≡ pos n
      → n < 2 ^ 16
      → ((v : World) (bytes : List ℕ)
          → env.getaddrinfo_answer v true server_name ≡ some bytes
          → 16 ≤ length bytes)
      → Ends
          (λ v. TcpFails env)
          Never
          (λ fd v.
            (a : SocketAddress) × (v.sockets ≡ w.sockets ++ opened stream fd ∷ connected fd a ∷ [])
            × ((u : World) × (bytes : List ℕ) × (env.getaddrinfo_answer u true server_name
                  ≡ some bytes)
                × (a.address ≡ take 16 bytes))
            × IsPort n a)
          (tcp_client_setup env atoi server_name server_port w)
  unfolding tcp_client_setup gethostbyname6 get_ip_address46
  tcp_client_setup-IsPort atoi server_name server_port n w reads h whole =
      Ends-and_then Lost Never _ _ (open_socket env stream w) _ (open_stream-Ends w) (λ fd v s.
        elim (Option-cases (env.getaddrinfo_answer v true server_name)) [
          | inl e ↦ rw (e, get_ip_address46) (no_call (no_name v true server_name e))
          | inr (bytes, e) ↦
              let enough : leb 16 (length bytes) ≡ true = ground (arith, whole v bytes e) in
              let a : SocketAddress = record {
                address = take 16 bytes;
                port = port_bytes (pos n);
              } in
              rw (e, get_ip_address46, enough, reads)
                (Ends-and_then Lost Never _ _ (connect_to env fd a (tick v)) _
                  (connect_to-Ends fd a (tick v))
                  (λ _ u last. (
                    a,
                    last
                        ∙ (ap (λ z. z ++ connected fd a ∷ []) s
                            ∙ append_assoc w.sockets (opened stream fd ∷ []) (connected fd a ∷ [])),
                    (v, bytes, e, refl),
                    port_bytes-IsPort n (take 16 bytes) h,
                  )))
        ])
