-- ===== src/Receiver/InTurn.antt =====
-- `inorderFunction` and `bufferingFunction` (bufferMngment.c) on a genuine packet: no undefined
-- behaviour, and the output file stays the stream's packets in order.
use selective_reject.Base.{
  true, false, ℕ, ◌%◌, lt→ltb, le→ltb, suc, ◌≤◌, ◌<◌, ◌≡◌, ◌≢◌, refl, sym, ◌∙◌, ◌⊎◌, inl, inr,
  arith, Option, none, some, true, List, append-nil, length, All, ◌==◌, ==_iff, Bool-cases, ℤ, pos,
  negsuc, int_max, length-set,
}
use native.Mathlib.Numerals.{add-one}
use selective_reject.Machine.{
  World, Env, returned, Ends, Ends-and_then, HasRoom, NoShortWrite, write,
}
use selective_reject.Pdu.Build.{data_pkt, eof_flag}
use selective_reject.Receiver.Slots.{Slot}
use selective_reject.Receiver.Replies.{send_rr, send_eof_ack}
use selective_reject.Receiver.States.{
  sending_eof_ack, BufferInfo, Progress, write_to, write_in_turn, increment, inorder_function,
  buffering_function,
}
use selective_reject.Receiver.Stored.{Stream, SlotHolds, free_slot_pos}
use selective_reject.Receiver.Delivered.{
  Delivered, Delivered-next, Stops, send_rr-Delivered, send_eof_ack-Delivered, write-Delivered,
}

-- What the receiver needs of its surroundings: room for a packet in an array of MAXBUF bytes, writes
-- that fail or are complete, an output file that was opened, and a window of at least one packet.
pub record Ready (env : Env) (info : BufferInfo) : Type 0 where
  pub room : HasRoom env
  pub whole : NoShortWrite env
  pub fd : ℕ
  pub opened : info.file_fd ≡ some fd
  pub window : 0 < info.window_size

-- A packet of the sender of `stream` that arrives while `e` is expected. A data packet carries the
-- bytes of its number. Any other is an EOF packet: its number is past the data, and it is sent only
-- when everything before it has been acknowledged, so that it is late or in turn.
pub record Genuine (stream : Stream) (e : ℕ) (actual : ℤ) (flag : ℕ) (payload : List ℕ)
    : Type 0 where
  pub fits : length payload ≤ 1400
  pub carries :
      flag ≡ data_pkt → (n : ℕ) → actual ≡ pos n → (n < stream.last) × (payload ≡ stream.bytes n)
  pub ends : flag ≢ data_pkt → (n : ℕ) → actual ≡ pos n → e ≤ n → (n ≡ e) × (n ≡ stream.last)

-- The receiver's state after a step that began with `e` expected.
abbrev pub Sound : Env → BufferInfo → Stream → ℕ → ℕ → List Slot → World → Type 0
Sound env info stream e next buffer w =
    (e ≤ next)
    × (next ≤ suc stream.last)
    × Delivered stream env.in_cksum next w
    × ◌≡◌ {A = ℕ} (length buffer) info.window_size
    × All (SlotHolds stream) buffer

-- The same with the next state: to repeat the EOF acknowledgement, everything must be written.
abbrev pub SoundProgress : Env → BufferInfo → Stream → ℕ → ℤ → Progress → World → Type 0
SoundProgress env info stream e eof (state, next, buffer) w =
    Sound env info stream e next buffer w
    × (state ≡ sending_eof_ack → (n : ℕ) × (eof ≡ pos n) × (suc n ≤ next))

opened_fd :
    (env : Env) (file_fd : Option ℕ) (fd : ℕ) (bytes : List ℕ) (w : World)
    → file_fd ≡ some fd
    → write_to env file_fd bytes w ≡ write env bytes w
unfolding write_to
opened_fd env file_fd fd bytes w e = rw e

module _ (env : Env) (info : BufferInfo) (ready : Ready env info) (stream : Stream)
    (U : World → Type 0) (e : ℕ) where
  pub write_to-Delivered :
      (payload : List ℕ) (w : World)
      → payload ≡ stream.bytes e
      → Delivered stream env.in_cksum e w
      → Ends
          (Stops stream env.in_cksum)
          U
          (λ n v.
            ((n ≡ negsuc 0) × Delivered stream env.in_cksum e v
              ⊎ (n ≡ pos (length payload)) × Delivered stream env.in_cksum (suc e) v))
          (write_to env info.file_fd payload w)
  unfolding write_to
  write_to-Delivered payload w same d =
      rw (opened_fd env info.file_fd ready.fd payload w ready.opened)
        (write-Delivered env ready.room stream U e w ready.whole payload same d)

  abbrev Written : Option (List Slot) → World → Type 0
  Written none v = Delivered stream env.in_cksum e v
  Written (some b) v =
      (e ≤ stream.last)
      × Delivered stream env.in_cksum (suc e) v
      × ◌≡◌ {A = ℕ} (length b) info.window_size
      × All (SlotHolds stream) b

  -- An EOF packet in turn has no bytes to write.
  skips :
      (w : World) (flag : ℕ) (payload : List ℕ)
      → flag ≢ data_pkt
      → Genuine stream e (pos e) flag payload
      → Delivered stream env.in_cksum e w
      → Delivered stream env.in_cksum (suc e) w
  skips w flag payload other g d =
      Delivered-next stream env.in_cksum e w w d
        (rw ((g.ends other e refl (omega arith)).1, stream.ended stream.last (omega arith))
          (sym (append-nil w.file)))
        refl

  le_of_lt_carried :
      (flag : ℕ) (payload : List ℕ)
      → Genuine stream e (pos e) flag payload
      → (flag == data_pkt) ≡ true
      → e ≤ stream.last
  le_of_lt_carried flag payload g is_data =
      omega (arith, (g.carries ((==_iff flag data_pkt).0 is_data) e refl).0)

  ends_in_turn :
      (flag : ℕ) (payload : List ℕ)
      → Genuine stream e (pos e) flag payload
      → (flag == data_pkt) ≡ false
      → e ≤ stream.last
  ends_in_turn flag payload g other =
      omega (arith, (g.ends (λ z. cc ((==_iff flag data_pkt).1 z)) e refl (omega arith)).1)

  write_in_turn-Written :
      (flag : ℕ) (payload : List ℕ) (buffer : List Slot) (w : World)
      → Genuine stream e (pos e) flag payload
      → Delivered stream env.in_cksum e w
      → length buffer ≡ info.window_size
      → All (SlotHolds stream) buffer
      → Ends
          (Stops stream env.in_cksum)
          U
          Written
          (write_in_turn env info (pos e) flag payload buffer w)
  unfolding write_in_turn
  write_in_turn-Written flag payload buffer w g d full h = elim (Bool-cases (flag == data_pkt)) [
    | inl is_data ↦ rw is_data (
        Ends-and_then (Stops stream env.in_cksum) U _ Written (write_to env info.file_fd payload w)
          _ (write_to-Delivered payload w (g.carries ((==_iff flag data_pkt).0 is_data) e refl).1 d)
          (λ n v p. elim p [
            | inl (failed, d') ↦ rw failed d'
            | inr (done, d') ↦
                let (s, freed, at, h') = free_slot_pos ready.window buffer full stream e h in
                rw (done, le→ltb (length payload) 0 (omega arith), freed)
                  (
                    le_of_lt_carried flag payload g is_data,
                    d',
                    length-set buffer (e % info.window_size) _ ∙ full,
                    h',
                  )
          ]))
    | inr other ↦ rw other (
      ends_in_turn flag payload g other,
      skips w flag payload (λ z. cc ((==_iff flag data_pkt).1 z)) g d,
      full,
      h,
    )
  ]

pub increment_lt : (e : ℕ) (w : World) → e < int_max → increment e w ≡ returned (suc e) w
unfolding increment
increment_lt e w h = rw (lt→ltb e int_max h, add-one)

same_number : (e : ℕ) → (e == e) ≡ true
same_number e = (==_iff e e).1 refl

module _ (env : Env) (info : BufferInfo) (ready : Ready env info) (stream : Stream)
    (U : World → Type 0) (e : ℕ) where
  -- An EOF packet that is in turn has the number of the EOF packet.
  in_turn_last :
      (flag : ℕ) {payload : List ℕ}
      → Genuine stream e (pos e) flag payload
      → (flag == eof_flag) ≡ true
      → stream.last ≤ e
  in_turn_last flag g over =
      let is : flag ≡ eof_flag = (==_iff flag eof_flag).0 over in
      omega (arith, (g.ends (λ z. absurd (omega arith)) e refl (omega arith)).1)

  -- The part of `inorderFunction` behind the write.
  pub inorder_in_turn :
      (flag : ℕ) (payload : List ℕ) (buffer : List Slot) (eof : ℤ) (w : World)
      → (flag ≡ eof_flag → eof ≡ pos e)
      → Genuine stream e (pos e) flag payload
      → Sound env info stream e e buffer w
      → Ends
          (Stops stream env.in_cksum)
          U
          (SoundProgress env info stream e eof)
          (inorder_function env e (pos e) flag payload info buffer eof w)
  unfolding inorder_function
  inorder_in_turn flag payload buffer eof w last g (le, top, d, full, h) = rw (same_number e) (
      Ends-and_then (Stops stream env.in_cksum) U (Written env info ready stream U e)
        (SoundProgress env info stream e eof) (write_in_turn env info (pos e) flag payload buffer w)
        _ (write_in_turn-Written env info ready stream U e flag payload buffer w g d full h)
        (elim [
          | none ↦ λ v p. ((omega arith, top, p, full, h), λ z. cc)
          | some b ↦ λ v (inside, d', full', h').
              rw (increment_lt e v (omega (arith, stream.bounded)))
                (elim (Bool-cases (flag == eof_flag)) [
                  | inl over ↦
                      rw (over, last ((==_iff flag eof_flag).0 over))
                        (Ends-and_then (Stops stream env.in_cksum) U _
                          (SoundProgress env info stream e (pos e)) (send_eof_ack env (pos e) v) _
                          (send_eof_ack-Delivered env ready.room stream U (suc e) v e
                            (in_turn_last flag g over) (omega arith) d')
                          (λ _ u d''. (
                            (omega arith, omega arith, d'', full', h'),
                            λ _. (e, refl, omega arith),
                          )))
                  | inr more ↦ rw more (
                      Ends-and_then (Stops stream env.in_cksum) U _
                        (SoundProgress env info stream e eof) (send_rr env (pos (suc e)) v) _
                        (send_rr-Delivered env ready.room stream U (suc e) v (suc e) (omega arith)
                          d')
                        (λ _ u d''. ((omega arith, omega arith, d'', full', h'), λ z. cc)))
                ])
        ]))

  pub buffering_in_turn :
      (flag : ℕ) (payload : List ℕ) (buffer : List Slot) (eof : ℤ) (w : World)
      → (flag ≡ eof_flag → eof ≡ pos e)
      → Genuine stream e (pos e) flag payload
      → Sound env info stream e e buffer w
      → Ends
          (Stops stream env.in_cksum)
          U
          (SoundProgress env info stream e eof)
          (buffering_function env e (pos e) flag payload info buffer eof w)
  unfolding buffering_function
  buffering_in_turn flag payload buffer eof w last g (le, top, d, full, h) = rw (same_number e) (
      Ends-and_then (Stops stream env.in_cksum) U (Written env info ready stream U e)
        (SoundProgress env info stream e eof) (write_in_turn env info (pos e) flag payload buffer w)
        _ (write_in_turn-Written env info ready stream U e flag payload buffer w g d full h)
        (elim [
          | none ↦ λ v p. ((omega arith, top, p, full, h), λ z. cc)
          | some b ↦ λ v (inside, d', full', h').
              rw (increment_lt e v (omega (arith, stream.bounded)))
                (elim (Bool-cases (flag == eof_flag)) [
                  | inl over ↦
                      rw (over, last ((==_iff flag eof_flag).0 over))
                        (Ends-and_then (Stops stream env.in_cksum) U _
                          (SoundProgress env info stream e (pos e)) (send_eof_ack env (pos e) v) _
                          (send_eof_ack-Delivered env ready.room stream U (suc e) v e
                            (in_turn_last flag g over) (omega arith) d')
                          (λ _ u d''. (
                            (omega arith, omega arith, d'', full', h'),
                            λ _. (e, refl, omega arith),
                          )))
                  | inr more ↦ rw more ((omega arith, omega arith, d', full', h'), λ z. cc)
                ])
        ]))
