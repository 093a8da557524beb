-- ===== src/Machine/Defs.antt =====
-- The world of one process, the answers of its environment, and the monad of the code that runs in
-- it (safeUtil.c; `write`, `read`, `malloc`).
use selective_reject.Base.{
  ℕ, ◌+◌, Bool, Option, none, some, List, [], ◌∷◌, ◌++◌, take, if◌then◌else◌, ℤ, pos, negsuc,
}

-- A `struct sockaddr_in6`: the address's 16 bytes, and `sin6_port` as it stands in memory.
pub record SocketAddress : Type 0 where
  pub address : List ℕ
  pub port : List ℕ

pub data SocketKind : Type 0 where
  stream datagram : SocketKind

-- A call of the socket interface that succeeded, with the descriptor that it is on.
pub data SocketCall : Type 0 where
  opened : SocketKind → ℕ → SocketCall
  bound : ℕ → SocketAddress → SocketCall
  listening : ℕ → ℕ → SocketCall
  connected : ℕ → SocketAddress → SocketCall

-- What one process has done so far. `clock` counts its calls, so that an environment can answer two
-- equal calls differently.
pub record World : Type 0 where
  pub clock : ℕ
  -- the datagrams handed to `sendto`, oldest first
  pub sent : List (List ℕ)
  -- the bytes that this process has put into the output file since it opened it, empty
  pub file : List ℕ
  -- the bytes that `read` has taken from the input file
  pub input : List ℕ
  -- the datagrams taken from `recvfrom`, oldest first
  pub received : List (List ℕ)
  -- the calls that set up sockets, oldest first
  pub sockets : List SocketCall

-- MAXBUF: the longest datagram, and the size of every buffer for one.
abbrev pub maxbuf : ℕ
maxbuf = 1407

-- The answers of everything that the program calls and does not implement, each as a function of the
-- whole history of the process.
pub record Env : Type 0 where
  -- the checksum of libcpe464
  pub in_cksum : List ℕ → ℕ
  -- the contents of an automatic array or a malloc'ed one before the first store
  pub garbage : List ℕ
  pub malloc_fails : World → Bool
  -- `none`: an error; otherwise the number of bytes written
  pub write_answer : World → List ℕ → Option ℕ
  -- `none`: an error; otherwise the bytes read, none at the end of the file
  pub read_answer : World → ℕ → Option (List ℕ)
  -- `none`: an error; otherwise the count that poll returns, with the `revents` that it fills in
  pub poll_answer : World → Option (ℕ × List ℕ)
  -- `none`: an error; otherwise the datagram received
  pub recvfrom_answer : World → Option (List ℕ)
  pub sendto_fails : World → Bool
  -- of a file name: `none`: an error; otherwise a descriptor
  pub open_answer : World → List ℕ → Option ℕ
  -- `open` of the input file
  pub open_input_answer : World → List ℕ → Option ℕ
  -- `recv` and `send` on a connected socket
  pub recv_answer : World → Option (List ℕ)
  pub send_fails : World → Bool
  -- `socket`, `accept`: `none`: an error; otherwise a descriptor
  pub socket_answer : World → Option ℕ
  pub accept_answer : World → Option ℕ
  pub bind_fails : World → Bool
  pub getsockname_fails : World → Bool
  pub listen_fails : World → Bool
  pub connect_fails : World → Bool
  -- `getaddrinfo`: of an IPv4 (false) or an IPv6 (true) lookup of a host name, the first address's bytes
  pub getaddrinfo_answer : World → Bool → List ℕ → Option (List ℕ)
  -- `none`: an error; 0 in the child; otherwise the child's number
  pub fork_answer : World → Option ℕ

-- How a run of a piece of code ends.
pub data Run (A : Type 0) : Type 0 where
  -- with a result
  returned : A → World → Run A
  -- by `exit`
  exited : World → Run A
  -- at an operation whose behaviour C does not define, or that traps
  undefined : World → Run A
  -- not yet: the rounds allowed are used up
  unfinished : World → Run A

abbrev pub M : Type 0 → Type 0
M A = World → Run A

abbrev pub and_then : {A B : Type 0} → Run A → (A → World → Run B) → Run B
and_then (returned a w) f = f a w
and_then (exited w) f = exited w
and_then (undefined w) f = undefined w
and_then (unfinished w) f = unfinished w

abbrev pub pure : {A : Type 0} → A → M A
pure a w = returned a w

infixl 5 ◌>>=◌ ◌>>◌
abbrev pub ◌>>=◌ : {A B : Type 0} → M A → (A → M B) → M B
◌>>=◌ m f w = and_then (m w) f

abbrev pub ◌>>◌ : {B : Type 0} → M (Unit {0}) → M B → M B
m >> k = m >>= λ _. k

abbrev pub trap : {A : Type 0} → M A
trap w = undefined w

-- A value that is there, or undefined behaviour.
abbrev pub defined : {A : Type 0} → Option A → M A
defined none = trap
defined (some a) = pure a

abbrev pub tick : World → World
tick w = record w { clock = w.clock + 1 }

module _ (env : Env) where
  -- An error of the kernel ends the process. The address to which a datagram goes is not part of the
  -- state: which process receives it is for the network to say.
  unfoldable pub safe_sendto : List ℕ → M (Unit {0})
  safe_sendto d w =
      if env.sendto_fails w
      then exited (tick w)
      else returned tt (record w { clock = w.clock + 1; sent = w.sent ++ d ∷ [] })

  -- A datagram longer than the buffer of MAXBUF bytes is cut off by the kernel. The sender's address,
  -- which is stored too, is left out.
  unfoldable pub safe_recvfrom : M (List ℕ)
  safe_recvfrom w = elim (env.recvfrom_answer w) [
    | none ↦ exited (tick w)
    | some d ↦
        returned (take maxbuf d)
          (record w { clock = w.clock + 1; received = w.received ++ take maxbuf d ∷ [] })
  ]

  -- `write(fd, bytes, length bytes)`: -1 for an error, else the count.
  unfoldable pub write : List ℕ → M ℤ
  write bytes w = elim (env.write_answer w bytes) [
    | none ↦ returned (negsuc 0) (tick w)
    | some k ↦ returned (pos k) (record w { clock = w.clock + 1; file = w.file ++ take k bytes })
  ]

  -- `read(fd, buffer, size)`: `none` for -1, else the bytes read.
  unfoldable pub read : ℕ → M (Option (List ℕ))
  read size w = elim (env.read_answer w size) [
    | none ↦ returned none (tick w)
    | some bytes ↦
        returned (some (take size bytes))
          (record w { clock = w.clock + 1; input = w.input ++ take size bytes })
  ]

  -- A failing `malloc` ends the process.
  unfoldable pub malloc : M (Unit {0})
  malloc w = if env.malloc_fails w then exited (tick w) else returned tt (tick w)

  -- `open(name, O_CREAT | O_TRUNC | O_WRONLY, 0600)`: `none` for -1, else a descriptor of an empty file.
  unfoldable pub open_output : List ℕ → M (Option ℕ)
  open_output name w = elim (env.open_answer w name) [
    | none ↦ returned none (tick w)
    | some fd ↦ returned (some fd) (record w { clock = w.clock + 1; file = [] })
  ]
