-- ===== src/Receiver/Stored.antt =====
-- The slots of a buffer (bufferMngment.c): in a buffer of `window_size` slots every access of a
-- nonnegative number is in bounds, and a slot changes only by the store or the release at its number.
use selective_reject.Base.{
  int_max, ℕ, ◌+◌, ◌%◌, ◌≤◌, ◌<◌, ◌≡◌, refl, arith, some, Bool, true, ◌&&◌, List, [], length, take,
  drop, get_elem?, set, All, All-set, All-get_elem?, take-append, length-copy_at, get_elem?-lt,
  copy_at, ◌==◌, pos, ◌==ℤ◌,
}
use native.Mathlib.Nat.{mod-lt}
use selective_reject.Receiver.Slots.{
  Slot, slot_at, check_if_buffered, store_packet_in_buffer, free_slot,
}

-- What a sender transfers: the bytes of packet n, for n = 1, …, last - 1, and the number of the EOF
-- packet behind them; from there on there are no bytes of the file.
pub record Stream : Type 0 where
  pub bytes : ℕ → List ℕ
  pub last : ℕ
  pub ended : (n : ℕ) → last ≤ n → bytes n ≡ []
  pub bounded : last < int_max

-- A slot that is marked valid holds the data packet of its number.
abbrev pub SlotHolds : Stream → Slot → Type 0
SlotHolds stream s =
    ◌≡◌ {A = ℕ} (length s.buff) 1407
    × (s.valid_flag ≡ 1
        → (n : ℕ) → s.sequence_number ≡ pos n
        → (n < stream.last) × (take s.pdu_len s.buff ≡ stream.bytes n))

test_passed :
    (s : Slot) (n : ℕ)
    → (s.valid_flag == 1 && s.sequence_number ==ℤ pos n) ≡ true
    → (s.valid_flag ≡ 1) × (s.sequence_number ≡ pos n)
test_passed s n h = ground arith

module _ {window_size : ℕ} (some_room : 0 < window_size) (buffer : List Slot)
    (full : length buffer ≡ window_size) where
  pub slot_at_pos :
      (n : ℕ)
      → (s : Slot) × (slot_at (pos n) window_size buffer ≡ some (n % window_size, s))
        × (get_elem? buffer (n % window_size) ≡ some s)
  unfolding slot_at
  slot_at_pos n =
      let (s, e) = get_elem?-lt buffer (n % window_size) (omega (arith, mod-lt n some_room)) in
      (s, ground (arith, e), e)

  -- Freeing the slot of a number always succeeds, and keeps what the other slots hold.
  pub free_slot_pos :
      (stream : Stream) (n : ℕ)
      → All (SlotHolds stream) buffer
      → (s : Slot) × (free_slot (pos n) window_size buffer
          ≡ some (set buffer (n % window_size) (record s { valid_flag = 0 })))
        × (get_elem? buffer (n % window_size) ≡ some s)
        × All (SlotHolds stream) (set buffer (n % window_size) (record s { valid_flag = 0 }))
  unfolding free_slot
  free_slot_pos stream n h =
      let (s, e, g) = slot_at_pos n in
      let old = All-get_elem? (SlotHolds stream) buffer (n % window_size) h g in
      (
        s,
        ground (arith, e),
        g,
        All-set (SlotHolds stream) buffer (n % window_size) (old.0, λ z. absurd (omega arith)) h,
      )

  -- Storing a packet that fits always succeeds, and the slot then holds it.
  pub store_packet_in_buffer_pos :
      (stream : Stream) (n : ℕ) (payload : List ℕ)
      → All (SlotHolds stream) buffer
      → length payload ≤ 1407
      → n < stream.last
      → payload ≡ stream.bytes n
      → (s : Slot) × (store_packet_in_buffer buffer (pos n) payload window_size
          ≡ some (set buffer (n % window_size) s))
        × (s.valid_flag ≡ 1)
        × (s.sequence_number ≡ pos n)
        × All (SlotHolds stream) (set buffer (n % window_size) s)
  unfolding store_packet_in_buffer
  store_packet_in_buffer_pos stream n payload h fits inside e =
      let (s, at, g) = slot_at_pos n in
      let old = All-get_elem? (SlotHolds stream) buffer (n % window_size) h g in
      let new : Slot = record {
        buff = copy_at s.buff 0 payload;
        pdu_len = length payload;
        sequence_number = pos n;
        valid_flag = 1;
      } in
      (
        new,
        ground (arith, at, old.0),
        refl,
        refl,
        All-set (SlotHolds stream) buffer (n % window_size)
            (
              ground (arith, length-copy_at s.buff 0 payload, old.0),
              λ _ m same. ground (arith, take-append payload (drop (0 + length payload) s.buff)),
            )
            h,
      )

  -- What a successful `checkIfBuffered` says of the slot.
  pub check_if_buffered-true :
      (stream : Stream) (n : ℕ)
      → All (SlotHolds stream) buffer
      → check_if_buffered (pos n) window_size buffer ≡ some true
      → (s : Slot) × (slot_at (pos n) window_size buffer ≡ some (n % window_size, s))
        × (get_elem? buffer (n % window_size) ≡ some s)
        × (s.valid_flag ≡ 1)
        × (n < stream.last)
        × (take s.pdu_len s.buff ≡ stream.bytes n)
  unfolding check_if_buffered
  check_if_buffered-true stream n h c =
      let (s, e, g) = slot_at_pos n in
      let old = All-get_elem? (SlotHolds stream) buffer (n % window_size) h g in
      let (valid, number) = test_passed s n (ground (arith, e)) in
      (s, e, g, valid, (old.1 valid n number).0, (old.1 valid n number).1)

  pub check_if_buffered_total :
      (n : ℕ) → (b : Bool) × (check_if_buffered (pos n) window_size buffer ≡ some b)
  unfolding check_if_buffered
  check_if_buffered_total n =
      let (s, e, g) = slot_at_pos n in
      (s.valid_flag == 1 && s.sequence_number ==ℤ pos n, ground (arith, e))

  -- A number that is buffered: its slot, what it holds, and the buffer with the slot freed.
  pub check_if_buffered-free_slot :
      (stream : Stream) (n : ℕ)
      → All (SlotHolds stream) buffer
      → check_if_buffered (pos n) window_size buffer ≡ some true
      → (s : Slot) × (slot_at (pos n) window_size buffer ≡ some (n % window_size, s))
        × (get_elem? buffer (n % window_size) ≡ some s)
        × (s.valid_flag ≡ 1)
        × (n < stream.last)
        × (take s.pdu_len s.buff ≡ stream.bytes n)
        × (free_slot (pos n) window_size buffer
            ≡ some (set buffer (n % window_size) (record s { valid_flag = 0 })))
        × All (SlotHolds stream) (set buffer (n % window_size) (record s { valid_flag = 0 }))
  unfolding free_slot
  check_if_buffered-free_slot stream n h c =
      let (s, at, got, valid, inside, held) = check_if_buffered-true stream n h c in
      let old = All-get_elem? (SlotHolds stream) buffer (n % window_size) h got in
      (
        s,
        at,
        got,
        valid,
        inside,
        held,
        ground (arith, at),
        All-set (SlotHolds stream) buffer (n % window_size) (old.0, λ z. absurd (omega arith)) h,
      )
