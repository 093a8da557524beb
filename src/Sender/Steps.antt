-- ===== src/Sender/Steps.antt =====
-- The functions that rcopy.c calls in its states, but for the loops that are in Sender/Loops.antt.
use selective_reject.Base.{
  ℕ, zero, suc, ◌+◌, ◌%◌, ◌^◌, Option, none, some, List, [], ◌∷◌, ◌++◌, length, take, not, ltb, leb,
  ◌==◌, ◌&&◌, ◌||◌, if◌then◌else◌, ℤ, pos, negsuc, ltb_ℤ, be16, Bool,
}
use selective_reject.Machine.{Env, M, ◌>>=◌, ◌>>◌, pure, trap, defined, safe_sendto, safe_recvfrom}
use selective_reject.Poll.{poll_call}
use selective_reject.Pdu.Build.{
  create_pdu, flag_of, rr_packet, srej_packet, eof_flag, rcopy_to_server, server_to_rcopy,
}
use selective_reject.Window.Defs.{
  Window, get_packet_to_resend, process_rr_packet, process_srej_packet,
}

-- enum State of rcopy.c
pub data RcopyState : Type 0 where
  filename file_ok send_data wait_on_ack wait_on_eof_ack done : RcopyState

-- The local variables of `processFile` that its states share, with the window.
pub record Transfer : Type 0 where
  pub window : Window
  pub eof : Bool
  pub counter : ℕ
  pub eof_seq_num : ℕ

-- The arguments that a transfer uses, parsed.
pub record Args : Type 0 where
  pub to_filename : List ℕ
  pub window_size : ℕ
  pub buffer_size : ℕ

-- The port, if `checkArgs` lets `argv` through; `none` where it exits. `atoi` is the C library's.
unfoldable pub check_args : (List ℕ → ℤ) → List (List ℕ) → Option ℤ
check_args atoi (program ∷ from_file ∷ to_file ∷ window ∷ buffer ∷ rate ∷ host ∷ port ∷ []) =
    if ltb 1000 (length from_file)
    then none
    else if ltb 1000 (length to_file)
    then none
    else if ltb_ℤ (atoi buffer) (pos 400) || ltb_ℤ (pos 1400) (atoi buffer)
    then none
    else if ltb_ℤ (atoi rate) (pos 0) || ltb_ℤ (pos 1) (atoi rate)
    then none
    else some (atoi port)
check_args atoi _ = none

-- The payload of the setup packet: window size, buffer size, each as a `uint16_t`, and the file name
-- with its last 0.
abbrev pub setup_payload : Args → List ℕ
setup_payload args =
    be16 (args.window_size % 2 ^ 16)
    ++ (be16 (args.buffer_size % 2 ^ 16) ++ (args.to_filename ++ 0 ∷ []))

module _ (env : Env) where
  unfoldable pub send_eof_packet : ℕ → M (Unit {0})
  send_eof_packet sequence_num = do
    (pdu, pdu_len) ← defined (create_pdu env.in_cksum env.garbage sequence_num eof_flag (0 ∷ []))
    safe_sendto env (take pdu_len pdu)

  -- The payload stands in an array of MAXPAYLOAD bytes.
  unfoldable pub setup_pdu : Args → M (List ℕ)
  setup_pdu args =
      if leb (length (setup_payload args)) 1400
      then (do
        (pdu, pdu_len) ←
            defined (create_pdu env.in_cksum env.garbage 0 rcopy_to_server (setup_payload args))
        pure (take pdu_len pdu))
      else trap

  -- The loop of `sendSetupPacket`, for 10 - `counter` rounds: each of its ways round counts one more.
  unfoldable pub setup_loop : ℕ → List ℕ → M RcopyState
  setup_loop zero pdu w = pure done w
  setup_loop (suc rounds) pdu w =
      (do
        safe_sendto env pdu
        poll_socket ← poll_call env
        if ltb_ℤ poll_socket (pos 0) then setup_loop rounds pdu else (do
          received ← safe_recvfrom env
          flag ← defined (flag_of received)
          if flag == server_to_rcopy then pure file_ok else setup_loop rounds pdu))
        w

  unfoldable pub send_setup_packet : Args → M RcopyState
  send_setup_packet args = do pdu ← setup_pdu args; setup_loop 10 pdu

  -- The result of `processRRorSREJ`, behind the test of the checksum.
  unfoldable pub answer_packet : Window → ℕ → List ℕ → M (ℤ × Window)
  answer_packet win window_size received = do
    flag ← defined (flag_of received)
    if flag == rr_packet
        then (do
          after ← defined (process_rr_packet win received window_size)
          pure ((if ltb win.lower after.lower then pos 1 else pos 0), after))
        else if flag == srej_packet
        then (do process_srej_packet env win received window_size; pure (pos 0, win))
        else pure (pos 0, win)

  unfoldable pub process_rr_or_srej : Window → ℕ → M (ℤ × Window)
  process_rr_or_srej win window_size = do
    received ← safe_recvfrom env
    if not (env.in_cksum received == 0)
        then pure (negsuc 0, win)
        else answer_packet win window_size received

  -- Whether to wait for the end: everything before the EOF packet is acknowledged.
  unfoldable pub all_acked : Transfer → Bool
  all_acked t = t.eof && t.window.lower == t.eof_seq_num

  unfoldable pub after_ack : ℤ → Transfer → RcopyState × Transfer
  after_ack (pos (suc zero)) t =
      ((if all_acked t then wait_on_eof_ack else send_data), record t { counter = 0 })
  after_ack (pos zero) t = ((if all_acked t then wait_on_eof_ack else wait_on_ack), t)
  after_ack _ t = (wait_on_ack, t)

  -- A timeout: the lowest packet is sent again, if the buffer has it.
  unfoldable pub resend_lowest : ℕ → Transfer → M (RcopyState × Transfer)
  resend_lowest window_size t = do
    resend ← defined (get_packet_to_resend t.window (pos t.window.lower) window_size)
    elim resend [
      | none ↦ pure tt
      | some pdu ↦ if ltb 0 (length pdu) then safe_sendto env pdu else pure tt
    ]
    pure (wait_on_ack, record t { counter = t.counter + 1 })

  unfoldable pub wait_for_ack : ℕ → Transfer → M (RcopyState × Transfer)
  wait_for_ack window_size t = do
    poll_result ← poll_call env
    if ltb_ℤ poll_result (pos 0) && ltb t.counter 10
        then resend_lowest window_size t
        else if leb 10 t.counter
        then pure (done, t)
        else (do
          (return_val, win) ← process_rr_or_srej t.window window_size
          pure (after_ack return_val (record t { window = win })))
