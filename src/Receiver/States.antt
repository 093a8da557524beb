-- ===== src/Receiver/States.antt =====
-- The receiver's state machine: `bufferManagement` and the function of each state (bufferMngment.c).
-- A function that updates `*expectedSeqNum` and `buffer` returns their new values behind the next
-- state.
use selective_reject.Base.{
  ℕ, zero, suc, ◌+◌, Option, none, some, List, Bool, true, false, ◌==◌, if◌then◌else◌, ltb, length,
  take, ℤ, pos, negsuc, ◌==ℤ◌, ltb_ℤ, int_max,
}
use selective_reject.Machine.{
  Env, M, ◌>>=◌, ◌>>◌, pure, trap, defined, unfinished, write, safe_recvfrom,
}
use selective_reject.Poll.{poll_call}
use selective_reject.Pdu.Build.{data_pkt, eof_flag}
use selective_reject.Receiver.Slots.{
  Slot, slot_at, check_if_buffered, store_packet_in_buffer, free_slot,
}
use selective_reject.Receiver.Replies.{send_rr, send_srej, send_eof_ack}

pub data ReceiverState : Type 0 where
  inorder buffering flushing sending_eof_ack buffer_done : ReceiverState

-- `struct bufferInfo`; the descriptor is `none` while the field is not initialised.
pub record BufferInfo : Type 0 where
  pub window_size : ℕ
  pub buffer_size : ℕ
  pub file_fd : Option ℕ

-- `struct serverStateData`. `expectedSeqNum` starts at 1 and is only incremented.
pub record ServerStateData : Type 0 where
  pub state : ReceiverState
  pub expected_seq_num : ℕ
  pub eof_seq_num : ℤ
  pub buffer : List Slot

abbrev pub Progress : Type 0
Progress = ReceiverState × ℕ × List Slot

-- `(*expectedSeqNum)++`, an `int`
unfoldable pub increment : ℕ → M ℕ
increment n = if ltb n int_max then pure (n + 1) else trap

-- The test `(*expectedSeqNum == eofSeqNum + 1) && (eofSeqNum != -1)`, where `eofSeqNum + 1` is an
-- `int`: at INT_MAX it is not defined.
unfoldable pub past_eof : ℕ → ℤ → M Bool
past_eof expected (pos n) = if ltb n int_max then pure (expected == n + 1) else trap
past_eof expected (negsuc n) = pure false

module _ (env : Env) where
  -- `write(file_fd, bytes, length bytes)`
  unfoldable pub write_to : Option ℕ → List ℕ → M ℤ
  write_to file_fd bytes = do fd ← defined file_fd; write env bytes

  -- The write of a packet that arrives in its turn; `none` if it fails, else the buffer with the slot
  -- freed. (The code stands in both functions below.)
  unfoldable pub write_in_turn : BufferInfo → ℤ → ℕ → List ℕ → List Slot → M (Option (List Slot))
  write_in_turn info actual_seq_num flag payload buffer =
      if flag == data_pkt
      then (do
        w_bytes ← write_to info.file_fd payload
        if ltb_ℤ w_bytes (pos 0) then pure none else (do
          freed ← defined (free_slot actual_seq_num info.window_size buffer)
          pure (some freed)))
      else pure (some buffer)

  unfoldable pub inorder_function : ℕ → ℤ → ℕ → List ℕ → BufferInfo → List Slot → ℤ → M Progress
  inorder_function expected actual flag payload info buffer eof =
      if actual ==ℤ pos expected
      then (do
        written ← write_in_turn info actual flag payload buffer
        elim written [
          | none ↦ pure (buffer_done, expected, buffer)
          | some freed ↦ do
            next ← increment expected
            if flag == eof_flag
                then (do send_eof_ack env eof; pure (sending_eof_ack, next, freed))
                else (do send_rr env (pos next); pure (inorder, next, freed))
        ])
      else if ltb_ℤ (pos expected) actual
      then (do
        stored ← defined (store_packet_in_buffer buffer actual payload info.window_size)
        send_srej env (pos expected)
        pure (buffering, expected, stored))
      else (do send_rr env (pos expected); pure (inorder, expected, buffer))

  unfoldable pub buffering_function : ℕ → ℤ → ℕ → List ℕ → BufferInfo → List Slot → ℤ → M Progress
  buffering_function expected actual flag payload info buffer eof =
      if actual ==ℤ pos expected
      then (do
        written ← write_in_turn info actual flag payload buffer
        elim written [
          | none ↦ pure (buffer_done, expected, buffer)
          | some freed ↦ do
            next ← increment expected
            if flag == eof_flag
                then (do send_eof_ack env eof; pure (sending_eof_ack, next, freed))
                else pure (flushing, next, freed)
        ])
      else if ltb_ℤ (pos expected) actual
      then (do
        stored ← defined (store_packet_in_buffer buffer actual payload info.window_size)
        send_rr env (pos expected)
        pure (buffering, expected, stored))
      else (do send_rr env (pos expected); pure (buffering, expected, buffer))

  -- The loop of `flushingFunction`, for so many rounds; false if a write fails.
  unfoldable pub flush_loop : ℕ → ℕ → BufferInfo → List Slot → M (Bool × ℕ × List Slot)
  flush_loop zero expected info buffer w = unfinished w
  flush_loop (suc rounds) expected info buffer w =
      (do
        buffered ← defined (check_if_buffered (pos expected) info.window_size buffer)
        elim buffered [
          | false ↦ pure (true, expected, buffer)
          | true ↦ do
            (i, slot) ← defined (slot_at (pos expected) info.window_size buffer)
            w_bytes ← write_to info.file_fd (take slot.pdu_len slot.buff)
            if ltb_ℤ w_bytes (pos 0) then pure (false, expected, buffer) else (do
              freed ← defined (free_slot (pos expected) info.window_size buffer)
              next ← increment expected
              flush_loop rounds next info freed)
        ])
        w

  -- The part of `flushingFunction` behind the loop.
  unfoldable pub end_flush : ℤ → Bool × ℕ × List Slot → M Progress
  end_flush eof (written, next, freed) =
      if written
      then (do
        over ← past_eof next eof
        if over
            then (do send_eof_ack env eof; pure (buffer_done, next, freed))
            else (do send_rr env (pos next); pure (inorder, next, freed)))
      else pure (buffer_done, next, freed)

  -- A round of the loop frees a slot, so one round more than there are slots is enough.
  unfoldable pub flushing_function : ℕ → BufferInfo → List Slot → ℤ → M Progress
  flushing_function expected info buffer eof = do
    flushed ← flush_loop (suc (length buffer)) expected info buffer
    end_flush eof flushed

  -- The loop of `continuouslySendEOFAck`, for so many rounds.
  unfoldable pub eof_ack_loop : ℕ → ℕ → ℤ → M ReceiverState
  eof_ack_loop zero counter eof w = unfinished w
  eof_ack_loop (suc rounds) counter eof w =
      (if ltb counter 10
          then (do
            poll_result ← poll_call env
            if ltb_ℤ poll_result (pos 0) then eof_ack_loop rounds (counter + 1) eof else (do
              pdu ← safe_recvfrom env
              send_eof_ack env eof
              eof_ack_loop rounds counter eof))
          else pure buffer_done)
        w

  unfoldable pub continuously_send_eof_ack : ℕ → ℤ → M ReceiverState
  continuously_send_eof_ack rounds eof = do send_eof_ack env eof; eof_ack_loop rounds 0 eof

abbrev pub with_progress : ServerStateData → Progress → ServerStateData
with_progress tracker (state, expected, buffer) = record tracker {
  state = state;
  expected_seq_num = expected;
  buffer = buffer;
}

module _ (env : Env) (rounds : ℕ) where
  unfoldable pub dispatch :
      ReceiverState → ℤ → ℕ → List ℕ → BufferInfo → ServerStateData → M ServerStateData
  dispatch inorder seq_num flag payload info tracker = do
    p ←
        inorder_function env tracker.expected_seq_num seq_num flag payload info tracker.buffer
          tracker.eof_seq_num
    pure (with_progress tracker p)
  dispatch buffering seq_num flag payload info tracker = do
    p ←
        buffering_function env tracker.expected_seq_num seq_num flag payload info tracker.buffer
          tracker.eof_seq_num
    pure (with_progress tracker p)
  dispatch flushing seq_num flag payload info tracker = do
    p ← flushing_function env tracker.expected_seq_num info tracker.buffer tracker.eof_seq_num
    pure (with_progress tracker p)
  dispatch sending_eof_ack seq_num flag payload info tracker = do
    s ← continuously_send_eof_ack env rounds tracker.eof_seq_num
    pure (record tracker { state = s })
  dispatch buffer_done seq_num flag payload info tracker = pure tracker

  -- The `switch` on the tracker's state.
  unfoldable pub buffer_management :
      ℤ → ℕ → List ℕ → BufferInfo → ServerStateData → M ServerStateData
  unfolding dispatch
  buffer_management seq_num flag payload info tracker =
      dispatch tracker.state seq_num flag payload info tracker
