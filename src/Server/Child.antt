-- ===== src/Server/Child.antt =====
-- A child of the server: the states of `processFile` (server.c), from the first packet.
use selective_reject.Base.{ℕ, zero, suc, List, none}
use selective_reject.Machine.{Env, M, ◌>>=◌, pure, unfinished}
use selective_reject.Net.Sockets.{create_udp_socket}
use selective_reject.Receiver.States.{BufferInfo}
use selective_reject.Server.Setup.{
  ServerState, accept_filename, manage_incoming, done, receive_initial_pdu,
}
use selective_reject.Server.Receive.{manage_incoming_data}

module _ (env : Env) where
  -- The `switch` of the loop.
  unfoldable pub child_step :
      ℕ → ℕ → List ℕ → ServerState → BufferInfo → M (ServerState × BufferInfo)
  child_step rounds socket_num first_pdu accept_filename info =
      receive_initial_pdu env first_pdu info
  child_step rounds socket_num first_pdu manage_incoming info = do
    next ← manage_incoming_data env rounds socket_num info
    pure (next, info)
  child_step rounds socket_num first_pdu done info = pure (done, info)

  -- The loop `while (NS != DONE)`.
  unfoldable pub child_loop : ℕ → ℕ → ℕ → List ℕ → ServerState → BufferInfo → M (Unit {0})
  child_loop turns rounds socket_num first_pdu done info w = pure tt w
  child_loop zero rounds socket_num first_pdu state info w = unfinished w
  child_loop (suc turns) rounds socket_num first_pdu state info w =
      (do
        (next, after) ← child_step rounds socket_num first_pdu state info
        child_loop turns rounds socket_num first_pdu next after)
        w

  -- The first state leads to the second or to DONE and the second to DONE, so two turns are enough. The
  -- fields of the structure are not initialised; the numbers are set before they are read.
  unfoldable pub process_file : ℕ → List ℕ → M (Unit {0})
  process_file rounds first_pdu = do
    socket_num ← create_udp_socket env
    child_loop 2 rounds socket_num first_pdu accept_filename
        (record { window_size = 0; buffer_size = 0; file_fd = none })
