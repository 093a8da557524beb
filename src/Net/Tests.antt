-- ===== src/Net/Tests.antt =====
-- The theorems about networks.c for a port, with every call working.
use selective_reject.Base.{
  ◌≡◌, refl, arith, true, pos, [], ◌∷◌, take, codes, List, ℕ, some, subst, some_inj, ◌≤◌, length,
}
use selective_reject.Machine.{
  World, Ends, Never, SocketAddress, stream, listening, connected, datagram, opened, bound,
}
use selective_reject.Receiver.Example.{sample_env, start}
use selective_reject.Net.Names.{AddressFamily, inet6, print_ip_info}
use selective_reject.Net.Tcp.{TcpFails, tcp_server_setup-IsPort, tcp_client_setup-IsPort}
use selective_reject.Net.Print.{print_ip_info-setup_udp_client_to_server}
use selective_reject.Net.Sockets.{
  listen_backlog, tcp_server_setup, tcp_client_setup, any_address, udp_server_setup,
  setup_udp_client_to_server,
}
use selective_reject.Net.Ports.{
  IsPort, Fails, udp_server_setup-IsPort, setup_udp_client_to_server-IsPort,
}

udp_server_setup-IsPort_example :
    Ends
      (λ v. Fails sample_env)
      Never
      (λ fd v.
        (a : SocketAddress) × (v.sockets ≡ opened datagram fd ∷ bound fd a ∷ [])
        × (a.address ≡ any_address)
        × IsPort 4000 a)
      (udp_server_setup sample_env (pos 4000) start)
udp_server_setup-IsPort_example = udp_server_setup-IsPort sample_env 4000 start (omega arith)

setup_udp_client_to_server-IsPort_example :
    Ends
      (λ v. Fails sample_env)
      Never
      (λ (fd, a) v.
        (v.sockets ≡ opened datagram fd ∷ [])
        × ((u : World) × (bytes : List ℕ) × (sample_env.getaddrinfo_answer u true (codes "host")
              ≡ some bytes)
            × (a.address ≡ take 16 bytes))
        × IsPort 4000 a)
      (setup_udp_client_to_server sample_env (codes "host") (pos 4000) start)
setup_udp_client_to_server-IsPort_example =
    setup_udp_client_to_server-IsPort sample_env (codes "host") 4000 start (omega arith)
      (λ v bytes got. subst (λ (b : List ℕ). 16 ≤ length b) (some_inj got) (omega arith))

-- A text of an address: its bytes as they are.
abbrev plain : AddressFamily → List ℕ → List ℕ
plain family bytes = bytes

print_ip_info-setup_udp_client_to_server_example :
    Ends
      (λ v. Fails sample_env)
      Never
      (λ (fd, a) v.
        (u : World) × (bytes : List ℕ) × (sample_env.getaddrinfo_answer u true (codes "host")
          ≡ some bytes)
        × (print_ip_info plain a
            ≡ some (record { ip_string = plain inet6 (take 16 bytes); port = 4000 })))
      (setup_udp_client_to_server sample_env (codes "host") (pos 4000) start)
print_ip_info-setup_udp_client_to_server_example =
    print_ip_info-setup_udp_client_to_server sample_env plain (codes "host") 4000 start
      (omega arith)
      (λ v bytes got. subst (λ (b : List ℕ). 16 ≤ length b) (some_inj got) (omega arith))

tcp_server_setup-IsPort_example :
    Ends
      (λ v. TcpFails sample_env)
      Never
      (λ fd v.
        (a : SocketAddress) × (v.sockets
          ≡ opened stream fd ∷ bound fd a ∷ listening fd listen_backlog ∷ [])
        × (a.address ≡ any_address)
        × IsPort 4000 a)
      (tcp_server_setup sample_env (pos 4000) start)
tcp_server_setup-IsPort_example = tcp_server_setup-IsPort sample_env 4000 start (omega arith)

tcp_client_setup-IsPort_example :
    Ends
      (λ v. TcpFails sample_env)
      Never
      (λ fd v.
        (a : SocketAddress) × (v.sockets ≡ opened stream fd ∷ connected fd a ∷ [])
        × ((u : World) × (bytes : List ℕ) × (sample_env.getaddrinfo_answer u true (codes "host")
              ≡ some bytes)
            × (a.address ≡ take 16 bytes))
        × IsPort 4000 a)
      (tcp_client_setup sample_env (λ bytes. pos 4000) (codes "host") (codes "4000") start)
tcp_client_setup-IsPort_example =
    tcp_client_setup-IsPort sample_env (λ bytes. pos 4000) (codes "host") (codes "4000") 4000 start
      refl (omega arith)
      (λ v bytes got. subst (λ (b : List ℕ). 16 ≤ length b) (some_inj got) (omega arith))
