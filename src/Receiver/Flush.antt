-- ===== src/Receiver/Flush.antt =====
-- `flushingFunction` (bufferMngment.c): its loop ends within a round more than there are valid slots,
-- and it writes the packets that are buffered behind each other.
use selective_reject.Base.{
  ℕ, zero, suc, ◌+◌, ◌%◌, ◌≤◌, ◌<◌, ◌≡◌, refl, ◌∙◌, inl, inr, arith, some, Bool, true, false, List,
  [], ◌∷◌, length, take, ◌==◌, Bool-cases, if◌then◌else◌, le→ltb, lt→ltb, ℤ, pos, negsuc, int_max,
  set, get_elem?, length-set,
}
use selective_reject.Machine.{World, Env, returned, Ends, Ends-and_then, Ends-mono, Never}
use selective_reject.Receiver.Slots.{Slot, check_if_buffered}
use selective_reject.Receiver.Replies.{send_rr, send_eof_ack}
use selective_reject.Receiver.States.{
  BufferInfo, write_to, flush_loop, past_eof, end_flush, flushing_function,
}
use selective_reject.Receiver.Stored.{Stream, check_if_buffered-free_slot, check_if_buffered_total}
use selective_reject.Receiver.Delivered.{Stops, send_rr-Delivered, send_eof_ack-Delivered}
use selective_reject.Receiver.InTurn.{Ready, Sound, SoundProgress, write_to-Delivered, increment_lt}

abbrev pub valid_count : List Slot → ℕ
valid_count [] = 0
valid_count (s ∷ b) = if s.valid_flag == 1 then suc (valid_count b) else valid_count b

pub valid_count-le-length : (b : List Slot) → valid_count b ≤ length b
valid_count-le-length [] = omega arith
valid_count-le-length (s ∷ b) = ground (arith, valid_count-le-length b)

-- Freeing a valid slot lowers the count by one.
valid_count-free :
    (b : List Slot) (i : ℕ) (s : Slot)
    → get_elem? b i ≡ some s
    → s.valid_flag ≡ 1
    → suc (valid_count (set b i (record s { valid_flag = 0 }))) ≡ valid_count b
valid_count-free [] i s h v = absurd (cc)
valid_count-free (x ∷ b) zero s h v = ground arith
valid_count-free (x ∷ b) (suc i) s h v = ground (arith, valid_count-free b i s h v)

-- What the loop leaves: a sound state, and, where no write failed, no packet in turn.
abbrev pub Flushed : Env → BufferInfo → Stream → ℕ → Bool × ℕ × List Slot → World → Type 0
Flushed env info stream e (written, next, buffer) w =
    Sound env info stream e next buffer w
    × (written ≡ true → check_if_buffered (pos next) info.window_size buffer ≡ some false)

module _ (env : Env) (info : BufferInfo) (ready : Ready env info) (stream : Stream) where
  Flushed-suc :
      (e : ℕ) (r : Bool × ℕ × List Slot) (w : World)
      → Flushed env info stream (suc e) r w
      → Flushed env info stream e r w
  Flushed-suc e r w ((le, top, d, full, h), stop) = ((omega arith, top, d, full, h), stop)

  -- From a sound state the loop of `flushingFunction` ends without undefined behaviour, and one round
  -- more than there are valid slots is enough. What it leaves is sound for the new expected number,
  -- which is not below the old one: the output file holds exactly the packets before it, and every
  -- valid slot holds its packet. If no write failed, the packet of the new expected number is not in
  -- the buffer. It needs a window of at least one packet, an open file, and no short write.
  pub flush_loop-Flushed :
      (rounds e : ℕ) (buffer : List Slot) (w : World)
      → valid_count buffer < rounds
      → Sound env info stream e e buffer w
      → Ends
          (Stops stream env.in_cksum)
          Never
          (Flushed env info stream e)
          (flush_loop env rounds e info buffer w)
  unfolding flush_loop
  flush_loop-Flushed zero e buffer w enough s = absurd (omega arith)
  flush_loop-Flushed (suc rounds) e buffer w enough (le, top, d, full, h) =
      let (b, found) = check_if_buffered_total ready.window buffer full e in
      elim (Bool-cases b) [
        | inl yes_b ↦
            let c = rw yes_b at found in
            let (s, at, got, valid, inside, held, freed, h') =
              check_if_buffered-free_slot ready.window buffer full stream e h c in
            let fewer = valid_count-free buffer (e % info.window_size) s got valid in
            rw (c, at)
              (Ends-and_then (Stops stream env.in_cksum) Never _ (Flushed env info stream e)
                (write_to env info.file_fd (take s.pdu_len s.buff) w) _
                (write_to-Delivered env info ready stream Never e (take s.pdu_len s.buff) w held d)
                (λ n v p. elim p [
                  | inl (failed, d') ↦ rw failed ((omega arith, top, d', full, h), λ z. cc)
                  | inr (done, d') ↦
                      rw
                        (
                          done,
                          le→ltb (length (take s.pdu_len s.buff)) 0 (omega arith),
                          freed,
                          increment_lt e v (omega (arith, stream.bounded)),
                        )
                        (Ends-mono (Stops stream env.in_cksum) Never _ (Flushed env info stream e) _
                          (flush_loop-Flushed rounds (suc e)
                            (set buffer (e % info.window_size) (record s { valid_flag = 0 })) v
                            (omega arith)
                            (
                              omega arith,
                              omega arith,
                              d',
                              length-set buffer (e % info.window_size) _ ∙ full,
                              h',
                            ))
                          (λ r u q. Flushed-suc e r u q))
                ]))
        | inr no_b ↦ let c = rw no_b at found in rw c ((omega arith, top, d, full, h), λ _. c)
      ]

  -- The test for the end: past EOF means that the EOF number is just behind.
  past_eof_lem :
      (next : ℕ) (eof : ℤ) (w : World)
      → ((n : ℕ) → eof ≡ pos n → n ≡ stream.last)
      → (over : Bool) × (past_eof next eof w ≡ returned over w)
        × (over ≡ true → (n : ℕ) × (eof ≡ pos n) × (suc n ≡ next))
  unfolding past_eof
  past_eof_lem next (pos n) w small = (
    next == n + 1,
    rw (lt→ltb n int_max (omega (arith, small n refl, stream.bounded))),
    λ z. (n, refl, ground arith),
  )
  past_eof_lem next (negsuc n) w small = (false, refl, λ z. cc)

  end_flush-SoundProgress :
      (e : ℕ) (eof : ℤ) (r : Bool × ℕ × List Slot) (w : World)
      → ((n : ℕ) → eof ≡ pos n → n ≡ stream.last)
      → Flushed env info stream e r w
      → Ends
          (Stops stream env.in_cksum)
          Never
          (SoundProgress env info stream e eof)
          (end_flush env eof r w)
  unfolding end_flush
  end_flush-SoundProgress e eof (false, next, freed) w last (s, stop) = (s, λ z. cc)
  end_flush-SoundProgress e eof (true, next, freed) w last ((le, top, d, full, h), stop) =
      let (over, tested, says) = past_eof_lem next eof w last in
      elim (Bool-cases over) [
        | inl yes_over ↦
            let (n, same, past) = says yes_over in
            rw (tested, yes_over, same)
              (Ends-and_then (Stops stream env.in_cksum) Never _
                (SoundProgress env info stream e (pos n)) (send_eof_ack env (pos n) w) _
                (send_eof_ack-Delivered env ready.room stream Never next w n
                  (omega (arith, last n same)) (omega arith) d)
                (λ _ u d'. ((le, top, d', full, h), λ z. cc)))
        | inr no_over ↦
            rw (tested, no_over)
              (Ends-and_then (Stops stream env.in_cksum) Never _
                (SoundProgress env info stream e eof) (send_rr env (pos next) w) _
                (send_rr-Delivered env ready.room stream Never next w next (omega arith) d)
                (λ _ u d'. ((le, top, d', full, h), λ z. cc)))
      ]

  -- `flushingFunction` from a sound state: it runs without undefined behaviour and ends; the output
  -- file then holds exactly the packets before the new expected number, and no reply sent claims more.
  -- It needs a window of at least one packet, an open file, no short write, and that the number of an
  -- EOF packet, if one has been stored, is the sender's.
  pub flushing_function-SoundProgress :
      (e : ℕ) (buffer : List Slot) (eof : ℤ) (w : World)
      → ((n : ℕ) → eof ≡ pos n → n ≡ stream.last)
      → Sound env info stream e e buffer w
      → Ends
          (Stops stream env.in_cksum)
          Never
          (SoundProgress env info stream e eof)
          (flushing_function env e info buffer eof w)
  unfolding flushing_function
  flushing_function-SoundProgress e buffer eof w last s =
      Ends-and_then (Stops stream env.in_cksum) Never (Flushed env info stream e)
        (SoundProgress env info stream e eof) (flush_loop env (suc (length buffer)) e info buffer w)
        _
        (flush_loop-Flushed (suc (length buffer)) e buffer w
          (omega (arith, valid_count-le-length buffer)) s)
        (λ r v p. end_flush-SoundProgress e eof r v last p)
