-- ===== src/Server/Parent.antt =====
-- The server's `main`, `checkArgs` and `processServer` (server.c): one child for every datagram.
use selective_reject.Base.{
  ℕ, zero, suc, Option, none, some, List, [], ◌∷◌, ◌==◌, if◌then◌else◌, ℤ, pos,
}
use selective_reject.Machine.{
  Env, M, ◌>>=◌, ◌>>◌, returned, exited, unfinished, tick, safe_recvfrom,
}
use selective_reject.Net.Sockets.{udp_server_setup}
use selective_reject.Server.Child.{process_file}

-- The port, if `checkArgs` lets `argv` through; `none` where it exits. `atoi` is the C library's.
unfoldable pub server_check_args : (List ℕ → ℤ) → List (List ℕ) → Option ℤ
server_check_args atoi (program ∷ error_rate ∷ []) = some (pos 0)
server_check_args atoi (program ∷ error_rate ∷ port ∷ []) = some (atoi port)
server_check_args atoi _ = none

module _ (env : Env) where
  -- The two processes of a `fork` run the same code: the environment says in which one this run is.
  unfoldable pub fork : M ℕ
  fork w = elim (env.fork_answer w) [ none ↦ exited (tick w) | some pid ↦ returned pid (tick w) ]

  -- The endless loop, for so many rounds; `rounds` bounds the child's own loops too.
  unfoldable pub process_server : ℕ → M (Unit {0})
  process_server zero w = unfinished w
  process_server (suc rounds) w =
      (do
        buffer ← safe_recvfrom env
        pid ← fork
        if pid == 0
            then (do process_file env rounds buffer; (λ v. exited v))
            else process_server rounds)
        w

  -- `main` behind the initialisation of the library that loses packets.
  unfoldable pub server_main : (List ℕ → ℤ) → List (List ℕ) → ℕ → M (Unit {0})
  server_main atoi argv rounds = elim (server_check_args atoi argv) [
    | none ↦ (λ w. exited w)
    | some port_number ↦ do
      server_socket_num ← udp_server_setup env port_number
      process_server rounds
  ]
