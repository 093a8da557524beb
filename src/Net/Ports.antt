-- ===== src/Net/Ports.antt =====
-- Where a server listens and a client sends to (networks.c).
use selective_reject.Base.{
  ◌≤◌, take, Bool, ℕ, ◌^◌, ◌<◌, ◌≡◌, refl, arith, inl, inr, some, true, List, [], ◌∷◌, ◌++◌,
  append_assoc, length, read_be16, pos, leb, Bool-cases, Option-cases, none, ap, ◌∙◌,
}
use selective_reject.Machine.{
  World, Env, Ends, Never, Ends-and_then, SocketAddress, datagram, opened, bound, SocketKind,
}
use selective_reject.Net.Names.{get_ip_address46, gethostbyname6}
use selective_reject.Net.Sockets.{
  any_address, port_bytes, open_socket, create_udp_socket, bind_socket, udp_server_setup,
  setup_udp_client_to_server,
}

-- The port that the bytes of `sin6_port` stand for.
abbrev pub IsPort : ℕ → SocketAddress → Type 0
IsPort n address = read_be16 address.port ≡ some n

pub port_bytes-IsPort :
    (n : ℕ) (ip : List ℕ)
    → n < 2 ^ 16
    → IsPort n (record { address = ip; port = port_bytes (pos n) })
unfolding port_bytes
port_bytes-IsPort n ip h = ap (λ (m : ℕ). some m) (omega arith)

-- A call of the socket interface has failed.
pub data Fails (env : Env) : Type 0 where
  no_socket : (w : World) → env.socket_answer w ≡ none → Fails env
  no_bind : (w : World) → env.bind_fails w ≡ true → Fails env
  no_name :
      (w : World) (v6 : Bool) (host_name : List ℕ)
      → env.getaddrinfo_answer w v6 host_name ≡ none
      → Fails env

module _ (env : Env) where
  pub open_socket-Ends :
      (kind : SocketKind) (w : World)
      → Ends
          (λ v. Fails env)
          Never
          (λ fd v. v.sockets ≡ w.sockets ++ opened kind fd ∷ [])
          (open_socket env kind w)
  unfolding open_socket
  open_socket-Ends kind w = elim (Option-cases (env.socket_answer w)) [
    | inl e ↦ rw (e, open_socket) (Fails.no_socket w e)
    | inr (fd, e) ↦ rw (e, open_socket) refl
  ]

  -- `udpServerSetup` for a port below 2^16 ends in a process exit only if a call has failed; otherwise it
  -- has opened one datagram socket and bound it, at any address of the host, to that port.
  pub udp_server_setup-IsPort :
      (n : ℕ) (w : World)
      → n < 2 ^ 16
      → Ends
          (λ v. Fails env)
          Never
          (λ fd v.
            (a : SocketAddress) × (v.sockets ≡ w.sockets ++ opened datagram fd ∷ bound fd a ∷ [])
            × (a.address ≡ any_address)
            × IsPort n a)
          (udp_server_setup env (pos n) w)
  unfolding udp_server_setup create_udp_socket bind_socket
  udp_server_setup-IsPort n w h =
      Ends-and_then (λ v. Fails env) Never _ _ (open_socket env datagram w) _
        (open_socket-Ends datagram w)
        (λ fd v s. elim (Bool-cases (env.bind_fails v)) [
          | inl fails ↦ rw fails (Fails.no_bind v fails)
          | inr works ↦
              let address : SocketAddress = record {
                address = any_address;
                port = port_bytes (pos n);
              } in
              rw works (
                address,
                ap (λ x. x ++ bound fd address ∷ []) s
                    ∙ append_assoc w.sockets (opened datagram fd ∷ []) (bound fd address ∷ []),
                refl,
                port_bytes-IsPort n any_address h,
              )
        ])

  -- `setupUdpClientToServer` for a port below 2^16, where the resolver gives whole IPv6 addresses, ends in
  -- a process exit only if a call has failed; otherwise it has opened one datagram socket, and the
  -- address that it fills in is the first of the host's, with that port.
  pub setup_udp_client_to_server-IsPort :
      (host_name : List ℕ) (n : ℕ) (w : World)
      → n < 2 ^ 16
      → ((v : World) (bytes : List ℕ)
          → env.getaddrinfo_answer v true host_name ≡ some bytes
          → 16 ≤ length bytes)
      → Ends
          (λ v. Fails env)
          Never
          (λ (fd, a) v.
            (v.sockets ≡ w.sockets ++ opened datagram fd ∷ [])
            × ((u : World) × (bytes : List ℕ) × (env.getaddrinfo_answer u true host_name
                  ≡ some bytes)
                × (a.address ≡ take 16 bytes))
            × IsPort n a)
          (setup_udp_client_to_server env host_name (pos n) w)
  unfolding setup_udp_client_to_server create_udp_socket gethostbyname6 get_ip_address46
  setup_udp_client_to_server-IsPort host_name n w h whole =
      Ends-and_then (λ v. Fails env) Never _ _ (open_socket env datagram w) _
        (open_socket-Ends datagram w)
        (λ fd v s. elim (Option-cases (env.getaddrinfo_answer v true host_name)) [
          | inl e ↦ rw (e, get_ip_address46) (Fails.no_name v true host_name e)
          | inr (bytes, e) ↦
              let enough : leb 16 (length bytes) ≡ true = ground (arith, whole v bytes e) in
              rw (e, get_ip_address46, enough)
                (s, (v, bytes, e, refl), port_bytes-IsPort n (take 16 bytes) h)
        ])
