-- ===== src/Net/Names.antt =====
-- gethostbyname.c: the look-ups of `getIPAddress46`, and the texts of addresses. `inet_ntop` is the
-- C library's; the copy of the address that is kept in a static array is the result.
use selective_reject.Base.{
  ℕ, Bool, true, false, Option, none, some, List, [], ◌∷◌, ◌++◌, length, take, leb, if◌then◌else◌,
  codes, read_be16,
}
use selective_reject.Machine.{Env, M, ◌>>=◌, pure, returned, undefined, tick, SocketAddress}

-- AF_INET or AF_INET6.
pub data AddressFamily : Type 0 where
  inet inet6 : AddressFamily

abbrev pub address_length : AddressFamily → ℕ
address_length inet = 4
address_length inet6 = 16

abbrev pub is_inet6 : AddressFamily → Bool
is_inet6 inet = false
is_inet6 inet6 = true

module _ (env : Env) where
  -- The result is `none` for NULL, and otherwise the address in the caller's structure, which is also
  -- the static array's contents. A structure of the resolver that is shorter than the address is read
  -- past its end.
  unfoldable pub get_ip_address46 : AddressFamily → List ℕ → M (Option (List ℕ))
  get_ip_address46 family host_name w =
      elim (env.getaddrinfo_answer w (is_inet6 family) host_name) [
        | none ↦ returned none (tick w)
        | some bytes ↦
            if leb (address_length family) (length bytes)
            then returned (some (take (address_length family) bytes)) (tick w)
            else undefined w
      ]

  -- The structure that the caller passes keeps its other bytes.
  unfoldable pub gethostbyname4 : List ℕ → M (Option (List ℕ))
  gethostbyname4 host_name = get_ip_address46 inet host_name

  unfoldable pub gethostbyname6 : List ℕ → M (Option (List ℕ))
  gethostbyname6 host_name = get_ip_address46 inet6 host_name

-- The text of an address, by the C library's `inet_ntop`.
unfoldable pub get_ip_address_string46 :
    (AddressFamily → List ℕ → List ℕ) → Option (List ℕ) → AddressFamily → List ℕ
get_ip_address_string46 inet_ntop none family = codes "(IP not found)"
get_ip_address_string46 inet_ntop (some ip_address) family = inet_ntop family ip_address

-- What `printIPInfo` prints.
pub record PrintedAddress : Type 0 where
  pub ip_string : List ℕ
  pub port : ℕ

-- `inet_ntop` is the C library's.
module _ (inet_ntop : AddressFamily → List ℕ → List ℕ) where
  unfoldable pub ip_address_to_string : SocketAddress → List ℕ
  ip_address_to_string ip_address_struct = inet_ntop inet6 ip_address_struct.address

  -- `none` for a port of fewer than two bytes, which no structure has.
  unfoldable pub print_ip_info : SocketAddress → Option PrintedAddress
  print_ip_info ip_address_struct = elim (read_be16 ip_address_struct.port) [
    | none ↦ none
    | some port ↦ some (record { ip_string = ip_address_to_string ip_address_struct; port = port })
  ]

  unfoldable pub get_ip_address_string4 : Option (List ℕ) → List ℕ
  get_ip_address_string4 ip_address = get_ip_address_string46 inet_ntop ip_address inet

  unfoldable pub get_ip_address_string6 : Option (List ℕ) → List ℕ
  get_ip_address_string6 ip_address = get_ip_address_string46 inet_ntop ip_address inet6

  -- A line of `gethostbyname_test_lookup`, printed where a look-up has found an address.
  unfoldable pub lookup_line : List ℕ → List ℕ → List ℕ → Option (List ℕ) → List ℕ
  lookup_line title hostname ip_string none = []
  lookup_line title hostname ip_string (some ip_address) =
      title ++ (hostname ++ (codes " IP: " ++ (ip_string ++ (codes " " ++ 10 ∷ []))))

  -- The text that `gethostbyname_test_lookup` prints.
  unfoldable pub gethostbyname_test_lookup : Env → List ℕ → M (List ℕ)
  gethostbyname_test_lookup env hostname = do
    six ← gethostbyname6 env hostname
    four ← gethostbyname4 env hostname
    pure (
        lookup_line (codes "IPV6 Host: ") hostname (get_ip_address_string6 six) six
        ++ (lookup_line (codes "IPv4 Host: ") hostname (get_ip_address_string4 four) four
            ++ 10 ∷ []))

  unfoldable pub gethostbyname_test : Env → M (List ℕ)
  gethostbyname_test env = do
    google ← gethostbyname_test_lookup env (codes "www.google.com")
    google6 ← gethostbyname_test_lookup env (codes "ipv6.google.com")
    calpoly ← gethostbyname_test_lookup env (codes "my.calpoly.edu")
    missing ← gethostbyname_test_lookup env (codes "does not exist")
    pure (google ++ (google6 ++ (calpoly ++ missing)))
