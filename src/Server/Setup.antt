-- ===== src/Server/Setup.antt =====
-- `receive_initial_PDU` and `sendErrorPacket` (server.c).
use selective_reject.Base.{
  ℕ, Option, none, some, List, [], ◌∷◌, ◌++◌, take, drop, length, ltb, not, ◌==◌, if◌then◌else◌,
  read_be16, codes,
}
use selective_reject.Machine.{Env, M, ◌>>=◌, ◌>>◌, pure, trap, defined, safe_sendto, open_output}
use selective_reject.Pdu.Build.{
  create_pdu, flag_of, payload_of, rcopy_to_server, server_to_rcopy, err_flag,
}
use selective_reject.Receiver.States.{BufferInfo}

-- enum State of server.c
pub data ServerState : Type 0 where
  accept_filename manage_incoming done : ServerState

-- A C string: the bytes before the first 0; `none` if there is none, where the code reads on.
unfoldable pub c_string : List ℕ → Option (List ℕ)
c_string [] = none
c_string (c ∷ cs) =
    if c == 0 then some [] else elim (c_string cs) [ none ↦ none | some s ↦ some (c ∷ s) ]

module _ (env : Env) where
  -- The payload is a C string, sent with its last 0.
  unfoldable pub send_error_packet : List ℕ → M (Unit {0})
  send_error_packet payload = do
    (pdu, pdu_len) ← defined (create_pdu env.in_cksum env.garbage 0 err_flag (payload ++ 0 ∷ []))
    safe_sendto env (take pdu_len pdu)

  -- `sprintf(payload, "Error on open of output file: %s", filename)` into an array of 1024 bytes.
  unfoldable pub open_failed : List ℕ → M (Unit {0})
  open_failed filename =
      let message = codes "Error on open of output file: " ++ filename in
      if ltb (length message) 1024 then send_error_packet message else trap

  unfoldable pub send_server_response : M (Unit {0})
  send_server_response = do
    (pdu, pdu_len) ← defined (create_pdu env.in_cksum env.garbage 0 server_to_rcopy (0 ∷ []))
    safe_sendto env (take pdu_len pdu)

  -- The next state and `*buffer_struct`. `pdu` is the datagram received; reading behind its end is
  -- not defined.
  unfoldable pub receive_initial_pdu : List ℕ → BufferInfo → M (ServerState × BufferInfo)
  receive_initial_pdu pdu info = if not (env.in_cksum pdu == 0) then pure (done, info) else (do
    flag ← defined (flag_of pdu)
    if not (flag == rcopy_to_server) then pure (done, info) else (do
      window_size ← defined (read_be16 (payload_of pdu))
      buffer_size ← defined (read_be16 (drop 2 (payload_of pdu)))
      filename ← defined (c_string (drop 4 (payload_of pdu)))
      opened ← open_output env filename
      elim opened [
        | none ↦ do
          open_failed filename
          pure (
            manage_incoming,
            record info { window_size = window_size; buffer_size = buffer_size },
          )
        | some fd ↦ do
          send_server_response
          pure (
            manage_incoming,
            record { window_size = window_size; buffer_size = buffer_size; file_fd = some fd },
          )
      ]))
