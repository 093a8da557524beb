-- ===== src/Receiver/Manage.antt =====
-- `continuouslySendEOFAck` and `bufferManagement` (bufferMngment.c): a step of the whole machine.
use selective_reject.Receiver.Arrivals.{
  inorder_function-SoundProgress, buffering_function-SoundProgress,
}
use selective_reject.Receiver.Flush.{flushing_function-SoundProgress}
use selective_reject.Receiver.States.{
  with_progress, dispatch, inorder_function, buffering_function, flushing_function,
  continuously_send_eof_ack, buffer_management, Progress, ReceiverState, inorder, buffering,
  flushing, sending_eof_ack, buffer_done, BufferInfo, ServerStateData, eof_ack_loop,
}
use selective_reject.Receiver.InTurn.{SoundProgress, Genuine, Ready, Sound}
use selective_reject.Pdu.Build.{eof_flag}
use selective_reject.Machine.{
  Ends-weaken, World, Env, Ends, Ends-and_then, safe_recvfrom, same_recvfrom,
}
use selective_reject.Base.{
  ◌∙◌, List, arith, ℤ, ℕ, zero, suc, ◌+◌, ◌≤◌, ◌≡◌, refl, inl, inr, ltb, Bool-cases, pos, ltb_ℤ,
}
use selective_reject.Poll.{poll_call, same_poll_call}
use selective_reject.Receiver.Replies.{send_eof_ack}
use selective_reject.Receiver.Stored.{Stream}
use selective_reject.Receiver.Delivered.{Delivered, Delivered-same, Stops, send_eof_ack-Delivered}

-- What holds of the tracker between two packets.
pub record Tracks (env : Env) (info : BufferInfo) (stream : Stream) (t : ServerStateData)
    (w : World) : Type 0 where
  pub sound : Sound env info stream t.expected_seq_num t.expected_seq_num t.buffer w
  pub over :
      t.state ≡ sending_eof_ack → (n : ℕ) × (t.eof_seq_num ≡ pos n) × (suc n ≤ t.expected_seq_num)
  pub known : (n : ℕ) → t.eof_seq_num ≡ pos n → n ≡ stream.last

module _ (env : Env) (info : BufferInfo) (ready : Ready env info) (stream : Stream) where
  eof_ack_loop-Delivered :
      (rounds counter n e : ℕ) (w : World)
      → stream.last ≤ n
      → suc n ≤ e
      → Delivered stream env.in_cksum e w
      → Ends
          (Stops stream env.in_cksum)
          (Stops stream env.in_cksum)
          (λ s v. (s ≡ buffer_done) × Delivered stream env.in_cksum e v)
          (eof_ack_loop env rounds counter (pos n) w)
  unfolding eof_ack_loop
  eof_ack_loop-Delivered zero counter n e w late past d = (e, d)
  eof_ack_loop-Delivered (suc rounds) counter n e w late past d =
      elim (Bool-cases (ltb counter 10)) [
        | inl more ↦ rw more (
            Ends-and_then (Stops stream env.in_cksum) (Stops stream env.in_cksum)
              (λ _ v. Delivered stream env.in_cksum e v) _ (poll_call env w) _
              (same_poll_call env _ _ (Delivered stream env.in_cksum e) w
                (λ v f s. Delivered-same stream env.in_cksum e w v d f s) (λ v d'. (e, d')))
              (λ r v d'. elim (Bool-cases (ltb_ℤ r (pos 0))) [
                | inl timeout ↦
                    rw timeout (eof_ack_loop-Delivered rounds (counter + 1) n e v late past d')
                | inr ready_fd ↦ rw ready_fd (
                    Ends-and_then (Stops stream env.in_cksum) (Stops stream env.in_cksum)
                      (λ _ u. Delivered stream env.in_cksum e u) _ (safe_recvfrom env v) _
                      (same_recvfrom env _ _ (Delivered stream env.in_cksum e) v
                        (λ u f s. Delivered-same stream env.in_cksum e v u d' f s)
                        (λ u d''. (e, d'')))
                      (λ pdu u d''.
                        Ends-and_then (Stops stream env.in_cksum) (Stops stream env.in_cksum)
                          (λ _ x. Delivered stream env.in_cksum e x) _ (send_eof_ack env (pos n) u)
                          _
                          (send_eof_ack-Delivered env ready.room stream (Stops stream env.in_cksum)
                            e u n late past d'')
                          (λ _ x d3. eof_ack_loop-Delivered rounds counter n e x late past d3)))
              ]))
        | inr done ↦ rw done (refl, d)
      ]

  continuously_send_eof_ack-Delivered :
      (rounds n e : ℕ) (w : World)
      → stream.last ≤ n
      → suc n ≤ e
      → Delivered stream env.in_cksum e w
      → Ends
          (Stops stream env.in_cksum)
          (Stops stream env.in_cksum)
          (λ s v. (s ≡ buffer_done) × Delivered stream env.in_cksum e v)
          (continuously_send_eof_ack env rounds (pos n) w)
  unfolding continuously_send_eof_ack
  continuously_send_eof_ack-Delivered rounds n e w late past d =
      Ends-and_then (Stops stream env.in_cksum) (Stops stream env.in_cksum) _ _
        (send_eof_ack env (pos n) w) _
        (send_eof_ack-Delivered env ready.room stream (Stops stream env.in_cksum) e w n late past d)
        (λ _ v d'. eof_ack_loop-Delivered rounds 0 n e v late past d')

  module _ (rounds : ℕ) (t : ServerStateData) where
    open t use {expected_seq_num, eof_seq_num, buffer}

    -- The tracker that a step's result gives.
    Tracks-progress :
        (p : Progress) (v : World)
        → ((n : ℕ) → eof_seq_num ≡ pos n → n ≡ stream.last)
        → SoundProgress env info stream expected_seq_num eof_seq_num p v
        → Tracks env info stream (with_progress t p) v
    Tracks-progress (state, next, b) v known ((le, top, d, full, h), over) = record {
      sound = (omega arith, top, d, full, h);
      over = over;
      known = known;
    }

    dispatch-Tracks :
        (state : ReceiverState) (seq_num : ℤ) (flag : ℕ) (payload : List ℕ) (w : World)
        → t.state ≡ state
        → (flag ≡ eof_flag → eof_seq_num ≡ seq_num)
        → Genuine stream expected_seq_num seq_num flag payload
        → Tracks env info stream t w
        → Ends
            (Stops stream env.in_cksum)
            (Stops stream env.in_cksum)
            (Tracks env info stream)
            (dispatch env rounds state seq_num flag payload info t w)
    unfolding dispatch
    dispatch-Tracks inorder seq_num flag payload w at last g k =
        Ends-and_then (Stops stream env.in_cksum) (Stops stream env.in_cksum) _
          (Tracks env info stream)
          (inorder_function env expected_seq_num seq_num flag payload info buffer eof_seq_num w) _
          (inorder_function-SoundProgress env info ready stream (Stops stream env.in_cksum)
            expected_seq_num seq_num flag payload buffer eof_seq_num w last g k.sound)
          (λ p v q. Tracks-progress p v k.known q)
    dispatch-Tracks buffering seq_num flag payload w at last g k =
        Ends-and_then (Stops stream env.in_cksum) (Stops stream env.in_cksum) _
          (Tracks env info stream)
          (buffering_function env expected_seq_num seq_num flag payload info buffer eof_seq_num w) _
          (buffering_function-SoundProgress env info ready stream (Stops stream env.in_cksum)
            expected_seq_num seq_num flag payload buffer eof_seq_num w last g k.sound)
          (λ p v q. Tracks-progress p v k.known q)
    dispatch-Tracks flushing seq_num flag payload w at last g k =
        Ends-and_then (Stops stream env.in_cksum) (Stops stream env.in_cksum) _
          (Tracks env info stream)
          (flushing_function env expected_seq_num info buffer eof_seq_num w) _
          (Ends-weaken {A = Progress} (Stops stream env.in_cksum) (Stops stream env.in_cksum)
            (SoundProgress env info stream expected_seq_num eof_seq_num)
            (flushing_function env expected_seq_num info buffer eof_seq_num w)
            (flushing_function-SoundProgress env info ready stream expected_seq_num buffer
              eof_seq_num w k.known k.sound))
          (λ p v q. Tracks-progress p v k.known q)
    dispatch-Tracks sending_eof_ack seq_num flag payload w at last g k =
        let (n, same, past) = k.over at in
        let (le, top, d, full, h) = k.sound in
        rw same (
          Ends-and_then (Stops stream env.in_cksum) (Stops stream env.in_cksum) _
            (Tracks env info stream) (continuously_send_eof_ack env rounds (pos n) w) _
            (continuously_send_eof_ack-Delivered rounds n expected_seq_num w
              (omega (arith, k.known n same)) past d)
            (λ s v q. record {
              sound = (le, top, q.1, full, h);
              over = λ z. cc (q.0);
              known = λ m e. k.known m (same ∙ e);
            }))
    dispatch-Tracks buffer_done seq_num flag payload w at last g k = k

    -- A step of `bufferManagement` on a genuine packet, in whatever state: it runs without undefined
    -- behaviour, and afterwards the output file again holds exactly the packets before the expected
    -- number, every valid slot holds its packet, and no reply sent claims more; where the process exits
    -- or is cut short, the file holds whole packets in order. It needs a window of at least one packet,
    -- an open file and no short write, and that an EOF packet's number has been stored.
    pub buffer_management-Tracks :
        (seq_num : ℤ) (flag : ℕ) (payload : List ℕ) (w : World)
        → (flag ≡ eof_flag → eof_seq_num ≡ seq_num)
        → Genuine stream expected_seq_num seq_num flag payload
        → Tracks env info stream t w
        → Ends
            (Stops stream env.in_cksum)
            (Stops stream env.in_cksum)
            (Tracks env info stream)
            (buffer_management env rounds seq_num flag payload info t w)
    unfolding buffer_management
    buffer_management-Tracks seq_num flag payload w last g k =
        dispatch-Tracks t.state seq_num flag payload w refl last g k
