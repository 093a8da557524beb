-- ===== src/Sender/Main.antt =====
-- `main` and `processFile` of rcopy.c around the states: the arguments, the input file, the socket and
-- the poll set. `argv` is the list of the arguments' bytes; `atoi` is the C library's.
use selective_reject.Base.{
  ℕ, Option, none, some, List, [], ◌∷◌, ◌++◌, length, ltb, if◌then◌else◌, codes, ℤ, pos, negsuc,
}
use selective_reject.Machine.{Env, M, ◌>>=◌, trap, returned, exited, tick}
use selective_reject.Net.Sockets.{setup_udp_client_to_server}
use selective_reject.Poll.Set.{no_poll_set, setup_poll_set, add_to_poll_set}
use selective_reject.Sender.Steps.{Args, check_args}
use selective_reject.Sender.Loops.{send_file}

-- The arguments of a call that `checkArgs` lets through: the input file's name, the host's, the rest.
-- A negative window size, of which `malloc` would be asked for almost all of the memory, is left out.
unfoldable pub parse_args : (List ℕ → ℤ) → List (List ℕ) → Option (List ℕ × List ℕ × Args)
parse_args atoi (program ∷ from_file ∷ to_file ∷ window ∷ buffer ∷ rate ∷ host ∷ port ∷ []) =
    elim (atoi window) [
      | negsuc n ↦ none
      | pos window_size ↦ elim (atoi buffer) [
        | negsuc n ↦ none
        | pos buffer_size ↦ some (
          from_file,
          host,
          record { to_filename = to_file; window_size = window_size; buffer_size = buffer_size },
        )
      ]
    ]
parse_args atoi _ = none

module _ (env : Env) where
  -- `open(from_file, O_RDONLY)`: `none` for -1.
  unfoldable pub open_input : List ℕ → M (Option ℕ)
  open_input name w = returned (env.open_input_answer w name) (tick w)

  -- `sprintf(file_error_str, "Error file [%s] not found", from_file)` into an array of 64 bytes, and the
  -- exit.
  unfoldable pub input_not_found : List ℕ → M (Unit {0})
  input_not_found from_file w =
      if ltb (length (codes "Error file [" ++ (from_file ++ codes "] not found"))) 64
      then exited w
      else trap w

  unfoldable pub rcopy_process_file : ℕ → List ℕ → Args → ℕ → M (Unit {0})
  rcopy_process_file rounds from_file args socket_num = do
    from_file_fd ← open_input from_file
    elim from_file_fd [
      | none ↦ input_not_found from_file
      | some fd ↦ do
        empty ← setup_poll_set env no_poll_set
        poll_set ← add_to_poll_set env socket_num empty
        send_file env rounds args
    ]

  -- `main` behind the initialisation of the library that loses packets.
  unfoldable pub rcopy_main : (List ℕ → ℤ) → List (List ℕ) → ℕ → M (Unit {0})
  rcopy_main atoi argv rounds = elim (check_args atoi argv) [
    | none ↦ (λ w. exited w)
    | some port_number ↦ elim (parse_args atoi argv) [
      | none ↦ trap
      | some (from_file, host_name, args) ↦ do
        (socket_num, server) ← setup_udp_client_to_server env host_name port_number
        rcopy_process_file rounds from_file args socket_num
    ]
  ]
