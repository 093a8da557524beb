-- ===== src/Net/Print.antt =====
-- What `printIPInfo` (gethostbyname.c) shows of an address that networks.c has filled in.
use selective_reject.Base.{ℕ, ◌^◌, ◌≤◌, ◌<◌, ◌≡◌, refl, true, some, List, length, take, pos}
use selective_reject.Machine.{World, Env, Ends, Ends-mono, Never}
use selective_reject.Net.Names.{AddressFamily, inet6, print_ip_info, ip_address_to_string}
use selective_reject.Net.Sockets.{setup_udp_client_to_server}
use selective_reject.Net.Ports.{Fails, setup_udp_client_to_server-IsPort}

-- The address that `setupUdpClientToServer` fills in for a port below 2^16, where the resolver gives
-- whole IPv6 addresses, is printed as the text of the host's first address with that port, unless a
-- call has failed and ended the process.
pub print_ip_info-setup_udp_client_to_server :
    (env : Env) (inet_ntop : AddressFamily → List ℕ → List ℕ) (host_name : List ℕ) (n : ℕ)
    (w : World)
    → n < 2 ^ 16
    → ((v : World) (bytes : List ℕ)
        → env.getaddrinfo_answer v true host_name ≡ some bytes
        → 16 ≤ length bytes)
    → Ends
        (λ v. Fails env)
        Never
        (λ (fd, a) v.
          (u : World) × (bytes : List ℕ) × (env.getaddrinfo_answer u true host_name ≡ some bytes)
          × (print_ip_info inet_ntop a
              ≡ some (record { ip_string = inet_ntop inet6 (take 16 bytes); port = n })))
        (setup_udp_client_to_server env host_name (pos n) w)
unfolding print_ip_info ip_address_to_string
print_ip_info-setup_udp_client_to_server env inet_ntop host_name n w h whole =
    Ends-mono (λ v. Fails env) Never _ _ (setup_udp_client_to_server env host_name (pos n) w)
      (setup_udp_client_to_server-IsPort env host_name n w h whole)
      (λ (fd, a) v (s, (u, bytes, found, same), port).
        (u, bytes, found, rw (port, print_ip_info, ip_address_to_string, same) refl))
