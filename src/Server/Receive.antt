-- ===== src/Server/Receive.antt =====
-- `manage_incoming_data` and `processFile` (server.c).
use selective_reject.Base.{
  ◌||◌, ℕ, zero, suc, Option, none, some, List, not, ◌==◌, if◌then◌else◌, pos, negsuc, signed32,
  Bool, true, false,
}
use selective_reject.Machine.{Env, M, ◌>>=◌, ◌>>◌, pure, defined, unfinished, safe_recvfrom}
use selective_reject.Pdu.Build.{seq_num_of, flag_of, payload_of, data_pkt, eof_flag}
use selective_reject.Poll.Set.{no_poll_set, setup_poll_set, add_to_poll_set}
use selective_reject.Receiver.Slots.{initialize_buffer}
use selective_reject.Receiver.Replies.{send_srej}
use selective_reject.Receiver.States.{
  ReceiverState, inorder, buffer_done, BufferInfo, ServerStateData, buffer_management,
}
use selective_reject.Server.Setup.{ServerState, done}

abbrev pub is_buffer_done : ReceiverState → Bool
is_buffer_done buffer_done = true
is_buffer_done _ = false

-- What is read of a packet whose checksum holds: the number, the flag, the payload. A packet that is
-- shorter than its header has them read from memory that the packet did not fill.
unfoldable pub parse_pdu : List ℕ → Option (ℕ × ℕ × List ℕ)
parse_pdu pdu = elim (seq_num_of pdu) [
  | none ↦ none
  | some seq_num ↦ elim (flag_of pdu) [
    | none ↦ none
    | some flag ↦ some (seq_num, flag, payload_of pdu)
  ]
]

-- `tracker.eofSeqNum = seqNum` where the packet is an EOF packet.
unfoldable pub note_eof : ℕ → ℕ → ServerStateData → ServerStateData
note_eof flag seq_num tracker =
    if flag == eof_flag then record tracker { eof_seq_num = signed32 seq_num } else tracker

module _ (env : Env) where
  -- The part of a round behind the test of the checksum; true where it breaks out of the loop.
  unfoldable pub accept_pdu : ℕ → BufferInfo → ServerStateData → List ℕ → M (Bool × ServerStateData)
  accept_pdu rounds info tracker pdu = do
    (seq_num, flag, payload) ← defined (parse_pdu pdu)
    if flag == eof_flag || flag == data_pkt
        then (do
          next ←
              buffer_management env rounds (signed32 seq_num) flag payload info
                (note_eof flag seq_num tracker)
          pure (is_buffer_done next.state, next))
        else pure (false, tracker)

  -- A round behind the receipt.
  unfoldable pub handle_pdu : ℕ → BufferInfo → ServerStateData → List ℕ → M (Bool × ServerStateData)
  handle_pdu rounds info tracker pdu =
      if not (env.in_cksum pdu == 0)
      then (do send_srej env (pos tracker.expected_seq_num); pure (false, tracker))
      else accept_pdu rounds info tracker pdu

  -- The endless loop, for so many rounds; the tracker at the `break`.
  unfoldable pub receive_loop : ℕ → BufferInfo → ServerStateData → M ServerStateData
  receive_loop zero info tracker w = unfinished w
  receive_loop (suc rounds) info tracker w =
      (do
        pdu ← safe_recvfrom env
        (over, next) ← handle_pdu rounds info tracker pdu
        if over then pure next else receive_loop rounds info next)
        w

  -- The values that `manage_incoming_data` gives the tracker; the buffer is allocated first, and the
  -- socket is put into the poll set, which the process has not set up before.
  unfoldable pub manage_incoming_data : ℕ → ℕ → BufferInfo → M ServerState
  manage_incoming_data rounds child_socket_num info = do
    buffer ← initialize_buffer env info.window_size
    empty ← setup_poll_set env no_poll_set
    poll_set ← add_to_poll_set env child_socket_num empty
    last ←
        receive_loop rounds info (record {
          state = inorder;
          expected_seq_num = 1;
          eof_seq_num = negsuc 0;
          buffer = buffer;
        })
    pure done
