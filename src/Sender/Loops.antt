-- ===== src/Sender/Loops.antt =====
-- The loops of rcopy.c: `dataTransfer`, `waitOnEOFAck` and the state machine of `processFile`, each for
-- so many rounds.
use selective_reject.Base.{
  ◌∷◌, ◌&&◌, ℕ, zero, suc, ◌+◌, none, some, List, [], take, not, ltb, ◌==◌, if◌then◌else◌, pos,
  ltb_ℤ, int_max, Bool, true, false,
}
use selective_reject.Machine.{
  trap, Env, M, ◌>>=◌, ◌>>◌, pure, defined, unfinished, safe_sendto, safe_recvfrom, read,
}
use selective_reject.Poll.{poll_call}
use selective_reject.Pdu.Build.{create_window_packet, flag_of, rr_packet, srej_packet, eof_ack}
use selective_reject.Receiver.Slots.{initialize_buffer}
use selective_reject.Window.Defs.{
  Window, check_window_open, window_store_packet, get_next_seq_num, process_rr_packet,
  process_srej_packet,
}
use selective_reject.Sender.Steps.{
  RcopyState, filename, file_ok, send_data, wait_on_ack, wait_on_eof_ack, done, Transfer, Args,
  send_eof_packet, send_setup_packet, process_rr_or_srej, wait_for_ack,
}

module _ (env : Env) where
  -- The loop `while (pollCall(0) > 0)`.
  unfoldable pub drain : ℕ → Window → ℕ → M Window
  drain zero win window_size w = unfinished w
  drain (suc rounds) win window_size w =
      (do
        ready ← poll_call env
        if ltb_ℤ (pos 0) ready
            then (do
              (return_val, after) ← process_rr_or_srej env win window_size
              drain rounds after window_size)
            else pure win)
        w

  -- The part of a round behind the `read`: the bytes read are a packet, which is stored and sent.
  unfoldable pub send_packet : ℕ → List ℕ → Window → M Window
  send_packet window_size bytes win = do
    next ← defined (get_next_seq_num win)
    (pdu, pdu_len) ← defined (create_window_packet env.in_cksum env.garbage next.sequence_num bytes)
    stored ← defined (window_store_packet next next.sequence_num (take pdu_len pdu) window_size)
    safe_sendto env (take pdu_len pdu)
    pure stored

  -- The end of the file: the EOF packet has the number behind the last packet.
  unfoldable pub end_of_file : Transfer → RcopyState × Transfer
  end_of_file t =
      let eof_seq_num = t.window.sequence_num + 1 in
      (
        (if t.window.lower == eof_seq_num then wait_on_eof_ack else wait_on_ack),
        record t { eof = true; eof_seq_num = eof_seq_num },
      )

  -- A `read` that fails is undefined behaviour: the window's buffer is freed there, and once more at the
  -- end of `processFile`.
  unfoldable pub data_transfer : ℕ → Args → Transfer → M (RcopyState × Transfer)
  data_transfer zero args t w = unfinished w
  data_transfer (suc rounds) args t w =
      (do
        window_open ← defined (
            if ltb t.window.sequence_num int_max
            then check_window_open t.window (t.window.sequence_num + 1) args.window_size
            else none)
        if not t.eof && window_open
            then (do
              bytes_read ← read env args.buffer_size
              elim bytes_read [
                | none ↦ trap
                | some [] ↦ pure (end_of_file t)
                | some (b ∷ bs) ↦ do
                  sent ← send_packet args.window_size (b ∷ bs) t.window
                  drained ← drain rounds sent args.window_size
                  data_transfer rounds args (record t { window = drained })
              ])
            else pure (wait_on_ack, t))
        w

  -- What `waitOnEOFAck` does with a packet whose checksum holds: true at the EOF acknowledgement.
  unfoldable pub answer_at_end : ℕ → ℕ → List ℕ → Window → M (Bool × Window)
  answer_at_end sequence_num window_size received win = do
    flag ← defined (flag_of received)
    if flag == eof_ack
        then pure (true, win)
        else if flag == rr_packet
        then (do
          after ← defined (process_rr_packet win received window_size)
          send_eof_packet env sequence_num
          pure (false, after))
        else if flag == srej_packet
        then (do
          process_srej_packet env win received window_size
          send_eof_packet env sequence_num
          pure (false, win))
        else pure (false, win)

  -- The loop of `waitOnEOFAck`.
  unfoldable pub eof_loop : ℕ → ℕ → ℕ → ℕ → Window → M Window
  eof_loop zero counter sequence_num window_size win w = unfinished w
  eof_loop (suc rounds) counter sequence_num window_size win w =
      (if ltb counter 10
          then (do
            poll_result ← poll_call env
            if ltb_ℤ poll_result (pos 0)
                then (do
                  send_eof_packet env sequence_num
                  eof_loop rounds (counter + 1) sequence_num window_size win)
                else (do
                  received ← safe_recvfrom env
                  if not (env.in_cksum received == 0)
                      then eof_loop rounds counter sequence_num window_size win
                      else (do
                        (over, after) ← answer_at_end sequence_num window_size received win
                        if over
                            then pure after
                            else eof_loop rounds counter sequence_num window_size after)))
          else pure win)
        w

  unfoldable pub wait_for_eof_ack : ℕ → ℕ → Transfer → M (RcopyState × Transfer)
  wait_for_eof_ack rounds window_size t = do
    send_eof_packet env t.eof_seq_num
    win ← eof_loop rounds 0 t.eof_seq_num window_size t.window
    pure (done, record t { window = win })

  -- The `switch` of `processFile`.
  unfoldable pub rcopy_step : ℕ → Args → RcopyState → Transfer → M (RcopyState × Transfer)
  rcopy_step rounds args filename t = do next ← send_setup_packet env args; pure (next, t)
  rcopy_step rounds args file_ok t = pure (send_data, t)
  rcopy_step rounds args send_data t = data_transfer rounds args t
  rcopy_step rounds args wait_on_ack t = wait_for_ack env args.window_size t
  rcopy_step rounds args wait_on_eof_ack t = wait_for_eof_ack rounds args.window_size t
  rcopy_step rounds args done t = pure (done, t)

  -- The loop `while (NS != DONE)`.
  unfoldable pub rcopy_loop : ℕ → Args → RcopyState → Transfer → M Transfer
  rcopy_loop rounds args done t w = pure t w
  rcopy_loop zero args state t w = unfinished w
  rcopy_loop (suc rounds) args state t w =
      (do (next, after) ← rcopy_step rounds args state t; rcopy_loop rounds args next after) w

  -- `processFile` from where the input file is open and the arguments are parsed.
  unfoldable pub send_file : ℕ → Args → M (Unit {0})
  send_file rounds args = do
    buffer ← initialize_buffer env args.window_size
    last ← rcopy_loop rounds args filename (record {
      window = record { lower = 1; sequence_num = 0; buffer = buffer };
      eof = false;
      counter = 0;
      eof_seq_num = 0;
    })
    pure tt
