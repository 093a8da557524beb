-- ===== src/Receiver/Arrivals.antt =====
-- `inorderFunction` and `bufferingFunction` (bufferMngment.c) on every genuine packet: in turn, ahead
-- of its turn, or late.
use selective_reject.Base.{
  ◌≢◌, ℕ, ◌%◌, lt→ltb, ltb→lt, ◌≤◌, ◌<◌, ◌≡◌, refl, ◌∙◌, ap, ◌⊎◌, inl, inr, arith, false, List,
  length, ◌==◌, ==_iff, ltb, Bool-cases, ℤ, pos, negsuc, ◌==ℤ◌, ltb_ℤ, length-set,
}
use selective_reject.Machine.{World, Env, M, ◌>>=◌, ◌>>◌, defined, pure, Ends, Ends-and_then}
use selective_reject.Pdu.Build.{data_pkt, eof_flag}
use selective_reject.Receiver.Slots.{Slot, store_packet_in_buffer}
use selective_reject.Receiver.Replies.{send_rr, send_srej}
use selective_reject.Receiver.States.{
  sending_eof_ack, BufferInfo, ReceiverState, inorder_function, buffering_function, inorder,
  buffering,
}
use selective_reject.Receiver.Stored.{Stream, store_packet_in_buffer_pos}
use selective_reject.Receiver.InTurn.{
  Ready, Genuine, Sound, SoundProgress, inorder_in_turn, buffering_in_turn,
}
use selective_reject.Receiver.Delivered.{Delivered, Stops, send_rr-Delivered, send_srej-Delivered}

-- A number is the expected one, a later one, or neither.
pub arrival :
    (actual : ℤ) (e : ℕ)
    → (actual ≡ pos e)
      ⊎ ((n : ℕ) × (e < n) × (actual ≡ pos n))
      ⊎ (((actual ==ℤ pos e) ≡ false) × (ltb_ℤ (pos e) actual ≡ false))
arrival (negsuc k) e = inr (inr (refl, refl))
arrival (pos n) e = elim (Bool-cases (n == e)) [
  | inl same ↦ inl (ap pos ((==_iff n e).0 same))
  | inr other ↦ elim (Bool-cases (ltb e n)) [
    | inl less ↦ inr (inl (n, ltb→lt e n less, refl))
    | inr more ↦ inr (inr (other, more))
  ]
]

other_number : (n e : ℕ) → e < n → (n == e) ≡ false
other_number n e h = ground arith

module _ (env : Env) (info : BufferInfo) (ready : Ready env info) (stream : Stream)
    (U : World → Type 0) (e : ℕ) where
  -- A later packet is stored, whatever reply follows.
  module _ (reply : M (Unit {0})) (state : ReceiverState) (eof : ℤ)
      (goes_on : state ≢ sending_eof_ack) where
    ahead :
        (n : ℕ) (payload : List ℕ) (buffer : List Slot) (w : World)
        → ((v : World)
            → Delivered stream env.in_cksum e v
            → Ends
                (Stops stream env.in_cksum)
                U
                (λ _ u. Delivered stream env.in_cksum e u)
                (reply v))
        → length payload ≤ 1400
        → n < stream.last
        → payload ≡ stream.bytes n
        → Sound env info stream e e buffer w
        → Ends (Stops stream env.in_cksum) U (SoundProgress env info stream e eof) (
            (do
              stored ← defined (store_packet_in_buffer buffer (pos n) payload info.window_size)
              reply
              pure (state, e, stored))
              w)
    ahead n payload buffer w replies fits inside same (le, top, d, full, h) =
        let (s, stored, v, k, h') =
          store_packet_in_buffer_pos ready.window buffer full stream n payload h (omega arith)
            inside same in
        rw stored (
          Ends-and_then (Stops stream env.in_cksum) U _ (SoundProgress env info stream e eof)
            (reply w) _ (replies w d)
            (λ _ u d'. (
              (omega arith, top, d', length-set buffer (n % info.window_size) s ∙ full, h'),
              λ z. absurd (goes_on z),
            )))

    late :
        (buffer : List Slot) (w : World)
        → ((v : World)
            → Delivered stream env.in_cksum e v
            → Ends
                (Stops stream env.in_cksum)
                U
                (λ _ u. Delivered stream env.in_cksum e u)
                (reply v))
        → Sound env info stream e e buffer w
        → Ends
            (Stops stream env.in_cksum)
            U
            (SoundProgress env info stream e eof)
            ((do reply; pure (state, e, buffer)) w)
    late buffer w replies (le, top, d, full, h) =
        Ends-and_then (Stops stream env.in_cksum) U _ (SoundProgress env info stream e eof)
          (reply w) _ (replies w d)
          (λ _ u d'. ((omega arith, top, d', full, h), λ z. absurd (goes_on z)))

  -- A packet ahead of its turn is a data packet.
  ahead_carries :
      (n flag : ℕ) (payload : List ℕ)
      → e < n
      → Genuine stream e (pos n) flag payload
      → (n < stream.last) × (payload ≡ stream.bytes n)
  ahead_carries n flag payload less g = elim (Bool-cases (flag == data_pkt)) [
    | inl is_data ↦ g.carries ((==_iff flag data_pkt).0 is_data) n refl
    | inr other ↦
        absurd
          (omega (arith, (g.ends (λ z. cc ((==_iff flag data_pkt).1 z)) n refl (omega arith)).0))
  ]

  -- `inorderFunction` on a genuine packet, data or EOF, in turn, ahead or late: it runs without
  -- undefined behaviour; where it returns, the output file holds exactly the packets before the new
  -- expected number, which is not below the old one, every valid slot holds its packet, and no reply
  -- sent claims more; where the process exits, the file holds whole packets in order. It needs a
  -- window of at least one packet, an open file, no short write, and that the number of an EOF packet
  -- has been stored.
  pub inorder_function-SoundProgress :
      (actual : ℤ) (flag : ℕ) (payload : List ℕ) (buffer : List Slot) (eof : ℤ) (w : World)
      → (flag ≡ eof_flag → eof ≡ actual)
      → Genuine stream e actual flag payload
      → Sound env info stream e e buffer w
      → Ends
          (Stops stream env.in_cksum)
          U
          (SoundProgress env info stream e eof)
          (inorder_function env e actual flag payload info buffer eof w)
  unfolding inorder_function
  inorder_function-SoundProgress actual flag payload buffer eof w last g s =
      elim (arrival actual e) [
        | inl turn ↦ rw turn (
            inorder_in_turn env info ready stream U e flag payload buffer eof w (rw turn at last)
              (rw turn at g) s)
        | inr (inl (n, less, later)) ↦
            rw (later, other_number n e less, lt→ltb e n less)
              (ahead (send_srej env (pos e)) buffering eof (λ z. cc) n payload buffer w
                (λ v d. send_srej-Delivered env ready.room stream U e v e (omega arith) d) g.fits
                (ahead_carries n flag payload less (rw later at g)).0
                (ahead_carries n flag payload less (rw later at g)).1 s)
        | inr (inr (other, more)) ↦
            rw (other, more)
              (late (send_rr env (pos e)) inorder eof (λ z. cc) buffer w
                (λ v d. send_rr-Delivered env ready.room stream U e v e (omega arith) d) s)
      ]

  -- `bufferingFunction` on a genuine packet, data or EOF, in turn, ahead or late: it runs without
  -- undefined behaviour; where it returns, the output file holds exactly the packets before the new
  -- expected number, which is not below the old one, every valid slot holds its packet, and no reply
  -- sent claims more; where the process exits, the file holds whole packets in order. It needs a
  -- window of at least one packet, an open file, no short write, and that the number of an EOF packet
  -- has been stored.
  pub buffering_function-SoundProgress :
      (actual : ℤ) (flag : ℕ) (payload : List ℕ) (buffer : List Slot) (eof : ℤ) (w : World)
      → (flag ≡ eof_flag → eof ≡ actual)
      → Genuine stream e actual flag payload
      → Sound env info stream e e buffer w
      → Ends
          (Stops stream env.in_cksum)
          U
          (SoundProgress env info stream e eof)
          (buffering_function env e actual flag payload info buffer eof w)
  unfolding buffering_function
  buffering_function-SoundProgress actual flag payload buffer eof w last g s =
      elim (arrival actual e) [
        | inl turn ↦ rw turn (
            buffering_in_turn env info ready stream U e flag payload buffer eof w (rw turn at last)
              (rw turn at g) s)
        | inr (inl (n, less, later)) ↦
            rw (later, other_number n e less, lt→ltb e n less)
              (ahead (send_rr env (pos e)) buffering eof (λ z. cc) n payload buffer w
                (λ v d. send_rr-Delivered env ready.room stream U e v e (omega arith) d) g.fits
                (ahead_carries n flag payload less (rw later at g)).0
                (ahead_carries n flag payload less (rw later at g)).1 s)
        | inr (inr (other, more)) ↦
            rw (other, more)
              (late (send_rr env (pos e)) buffering eof (λ z. cc) buffer w
                (λ v d. send_rr-Delivered env ready.room stream U e v e (omega arith) d) s)
      ]
