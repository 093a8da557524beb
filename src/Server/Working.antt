-- ===== src/Server/Working.antt =====
-- A round of `manage_incoming_data` (server.c) with calls that work, on the packet that is waited for.
use selective_reject.Base.{
  ℕ, suc, ◌+◌, ◌<◌, ◌≡◌, refl, arith, true, false, some, List, [], ◌∷◌, ◌++◌, length, ◌==◌, ◌||◌, ℤ,
  pos, signed32, signed32_small, unsigned32, le→ltb, int_max, ==_iff, take_all,
}
use selective_reject.Machine.{World, Env, returned, HasRoom, safe_sendto, write}
use selective_reject.Pdu.Build.{frame, data_pkt, eof_flag, eof_ack, rr_packet, srej_packet}
use selective_reject.Pdu.Layout.{sent_create_pdu, sent_receiver_ready}
use selective_reject.Receiver.Replies.{send_rr, send_srej, send_eof_ack}
use selective_reject.Receiver.Slots.{Slot, free_slot}
use selective_reject.Receiver.Stored.{Stream}
use selective_reject.Receiver.Delivered.{rr_pdu, srej_pdu, eof_ack_pdu}
use selective_reject.Receiver.InTurn.{increment_lt}
use selective_reject.Receiver.States.{
  ReceiverState, inorder, sending_eof_ack, BufferInfo, ServerStateData, write_to, write_in_turn,
  inorder_function, dispatch, buffer_management,
}
use selective_reject.Server.Receive.{handle_pdu, accept_pdu, note_eof, parse_pdu, is_buffer_done}
use selective_reject.Server.Network.{parse_pdu-frame}

-- Every call succeeds.
pub record Works (env : Env) : Type 0 where
  pub room : HasRoom env
  pub sends : (w : World) → env.sendto_fails w ≡ false
  pub writes : (w : World) (bytes : List ℕ) → env.write_answer w bytes ≡ some (length bytes)
  pub allocates : (w : World) → env.malloc_fails w ≡ false

-- After a datagram was sent, and after bytes were written.
abbrev pub replied : World → List ℕ → World
replied w d = record w { clock = w.clock + 1; sent = w.sent ++ d ∷ [] }

abbrev pub wrote : World → List ℕ → World
wrote w bytes = record w { clock = w.clock + 1; file = w.file ++ bytes }

abbrev pub tracker : ReceiverState → ℕ → ℤ → List Slot → ServerStateData
tracker state e eof buffer = record {
  state = state;
  expected_seq_num = e;
  eof_seq_num = eof;
  buffer = buffer;
}

module _ (env : Env) (works : Works env) where
  pub sends_datagram : (d : List ℕ) (w : World) → safe_sendto env d w ≡ returned tt (replied w d)
  unfolding safe_sendto
  sends_datagram d w = rw (works.sends w) refl

  send_rr-replied :
      (r : ℕ) (w : World)
      → send_rr env (pos r) w ≡ returned tt (replied w (rr_pdu env.in_cksum (pos r)))
  unfolding send_rr
  send_rr-replied r w =
      let (pdu, made, front) =
        sent_receiver_ready env.in_cksum env.garbage (unsigned32 (pos r)) rr_packet
          (omega (arith, works.room)) (omega arith) in
      rw (made, front) (sends_datagram (rr_pdu env.in_cksum (pos r)) w)

  send_srej-replied :
      (r : ℕ) (w : World)
      → send_srej env (pos r) w ≡ returned tt (replied w (srej_pdu env.in_cksum (pos r)))
  unfolding send_srej
  send_srej-replied r w =
      let (pdu, made, front) =
        sent_receiver_ready env.in_cksum env.garbage (unsigned32 (pos r)) srej_packet
          (omega (arith, works.room)) (omega arith) in
      rw (made, front) (sends_datagram (srej_pdu env.in_cksum (pos r)) w)

  send_eof_ack-replied :
      (n : ℕ) (w : World)
      → send_eof_ack env (pos n) w ≡ returned tt (replied w (eof_ack_pdu env.in_cksum (pos n)))
  unfolding send_eof_ack
  send_eof_ack-replied n w =
      let (pdu, made, front) =
        sent_create_pdu env.in_cksum env.garbage (unsigned32 (pos n)) eof_ack (0 ∷ [])
          (omega (arith, works.room)) (omega arith) in
      rw (made, front) (sends_datagram (eof_ack_pdu env.in_cksum (pos n)) w)

  write-wrote :
      (bytes : List ℕ) (w : World)
      → write env bytes w ≡ returned (pos (length bytes)) (wrote w bytes)
  unfolding write
  write-wrote bytes w =
      rw (works.writes w bytes, write, take_all (length bytes) bytes (omega arith)) refl

  -- A damaged packet is asked for once more.
  pub handle_pdu_damaged :
      (rounds : ℕ) (info : BufferInfo) (t : ServerStateData) (pdu : List ℕ) (w : World)
      → (env.in_cksum pdu == 0) ≡ false
      → handle_pdu env rounds info t pdu w
        ≡ returned (false, t) (replied w (srej_pdu env.in_cksum (pos t.expected_seq_num)))
  unfolding handle_pdu
  handle_pdu_damaged rounds info t pdu w damaged =
      rw (damaged, send_srej-replied t.expected_seq_num w) refl

  -- The test of the checksum and the reading of the header.
  handle_pdu_parsed :
      (rounds : ℕ) (info : BufferInfo) (t : ServerStateData) (pdu : List ℕ) (n flag : ℕ)
      (payload : List ℕ) (next : ServerStateData) (w v : World)
      → env.in_cksum pdu ≡ 0
      → parse_pdu pdu ≡ some (n, flag, payload)
      → (flag == eof_flag || flag == data_pkt) ≡ true
      → buffer_management env rounds (signed32 n) flag payload info (note_eof flag n t) w
        ≡ returned next v
      → handle_pdu env rounds info t pdu w ≡ returned (is_buffer_done next.state, next) v
  unfolding handle_pdu accept_pdu
  handle_pdu_parsed rounds info t pdu n flag payload next w v good parsed accepted step =
      rw (good, parsed, accepted, step) refl

  module _ (info : BufferInfo) (fd : ℕ) (opened : info.file_fd ≡ some fd) where
    write_in_turn-wrote :
        (n : ℕ) (payload : List ℕ) (buffer freed : List Slot) (w : World)
        → free_slot (pos n) info.window_size buffer ≡ some freed
        → write_in_turn env info (pos n) data_pkt payload buffer w
          ≡ returned (some freed) (wrote w payload)
    unfolding write_in_turn write_to
    write_in_turn-wrote n payload buffer freed w free =
        rw (opened, write-wrote payload w, le→ltb (length payload) 0 (omega arith), free) refl

    inorder_function_data :
        (e : ℕ) (payload : List ℕ) (buffer freed : List Slot) (eof : ℤ) (w : World)
        → free_slot (pos e) info.window_size buffer ≡ some freed
        → e < int_max
        → inorder_function env e (pos e) data_pkt payload info buffer eof w
          ≡ returned
              (inorder, suc e, freed)
              (replied (wrote w payload) (rr_pdu env.in_cksum (pos (suc e))))
    unfolding inorder_function
    inorder_function_data e payload buffer freed eof w free small =
        rw
          (
            (==_iff e e).1 refl,
            write_in_turn-wrote e payload buffer freed w free,
            increment_lt e (wrote w payload) small,
            send_rr-replied (suc e) (wrote w payload),
          )
          refl

  inorder_function_eof :
      (info : BufferInfo) (e : ℕ) (payload : List ℕ) (buffer : List Slot) (w : World)
      → e < int_max
      → inorder_function env e (pos e) eof_flag payload info buffer (pos e) w
        ≡ returned (sending_eof_ack, suc e, buffer) (replied w (eof_ack_pdu env.in_cksum (pos e)))
  unfolding inorder_function write_in_turn
  inorder_function_eof info e payload buffer w small =
      rw ((==_iff e e).1 refl, increment_lt e w small, send_eof_ack-replied e w) refl

  module _ (rounds : ℕ) (info : BufferInfo) (fd : ℕ) (opened : info.file_fd ≡ some fd)
      (stream : Stream) (buffer freed : List Slot) (w : World) (pdu : List ℕ)
      (good : env.in_cksum pdu ≡ 0) where
    -- The data packet that is expected is written, and the next one asked for.
    pub handle_pdu_in_turn :
        (e : ℕ) (eof : ℤ)
        → e < stream.last
        → pdu ≡ frame env.in_cksum e data_pkt (stream.bytes e)
        → free_slot (pos e) info.window_size buffer ≡ some freed
        → handle_pdu env rounds info (tracker inorder e eof buffer) pdu w
          ≡ returned
              (false, tracker inorder (suc e) eof freed)
              (replied (wrote w (stream.bytes e)) (rr_pdu env.in_cksum (pos (suc e))))
    unfolding buffer_management dispatch note_eof
    handle_pdu_in_turn e eof inside same free =
        let small : e < int_max = omega (arith, stream.bounded) in
        handle_pdu_parsed rounds info (tracker inorder e eof buffer) pdu e data_pkt (stream.bytes e)
          (tracker inorder (suc e) eof freed) w
          (replied (wrote w (stream.bytes e)) (rr_pdu env.in_cksum (pos (suc e)))) good
          (rw same (parse_pdu-frame env.in_cksum e data_pkt (stream.bytes e) (omega arith))) refl
          (rw
            (
              signed32_small e (omega arith),
              inorder_function_data info fd opened e (stream.bytes e) buffer freed eof w free small,
            )
            refl)

    -- The EOF packet behind the last data packet.
    pub handle_pdu_eof :
        (e : ℕ) (eof : ℤ)
        → stream.last ≡ e
        → pdu ≡ frame env.in_cksum stream.last eof_flag (0 ∷ [])
        → handle_pdu env rounds info (tracker inorder e eof buffer) pdu w
          ≡ returned
              (false, tracker sending_eof_ack (suc stream.last) (pos stream.last) buffer)
              (replied w (eof_ack_pdu env.in_cksum (pos stream.last)))
    unfolding buffer_management dispatch note_eof
    handle_pdu_eof e eof number same = rw (← number) (
        handle_pdu_parsed rounds info (tracker inorder stream.last eof buffer) pdu stream.last
          eof_flag (0 ∷ []) (tracker sending_eof_ack (suc stream.last) (pos stream.last) buffer) w
          (replied w (eof_ack_pdu env.in_cksum (pos stream.last))) good
          (rw same (
            parse_pdu-frame env.in_cksum stream.last eof_flag (0 ∷ [])
              (omega (arith, stream.bounded))))
          refl
          (rw
            (
              signed32_small stream.last (omega (arith, stream.bounded)),
              inorder_function_eof info stream.last (0 ∷ []) buffer w stream.bounded,
            )
            refl))
