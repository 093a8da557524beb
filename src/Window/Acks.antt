-- ===== src/Window/Acks.antt =====
-- The acknowledgements (windowing.c): `validateBuffer` and the loop of `processRRpacket`, on a buffer
-- that holds the packets sent.
use Prim.Native.Nat.{max}
use selective_reject.Base.{
  zero, [], ◌∷◌, ap, ◌∷◌, int_max, some_inj, ℕ, suc, ◌%◌, ◌<◌, ◌≤◌, ◌≡◌, refl, sym, ◌∙◌, arith,
  some, List, length, get_elem?, set, length-set, All-set, All-get_elem?,
}
use selective_reject.Pdu.Build.{acked_num_of}
use selective_reject.Receiver.Slots.{Slot}
use selective_reject.Window.Defs.{process_rr_packet, Window}
use selective_reject.Window.Marks.{marked, process_rr_packet_keeps}
use selective_reject.Window.Holds.{Holds}

-- Marking one slot changes the number, the length and the bytes of none.
marked_slot :
    (buffer : List Slot) (i j : ℕ) (s t : Slot)
    → get_elem? buffer i ≡ some s
    → get_elem? buffer j ≡ some t
    → (u : Slot) × (get_elem? (set buffer i (marked s)) j ≡ some u)
      × (u.sequence_number ≡ t.sequence_number)
      × (u.pdu_len ≡ t.pdu_len)
      × (u.buff ≡ t.buff)
marked_slot [] i j s t e f = absurd (cc)
marked_slot (x ∷ xs) zero zero s t e f =
    let same : s ≡ t = some_inj (sym e ∙ f) in
    (marked s, refl, ap Slot.sequence_number same, ap Slot.pdu_len same, ap Slot.buff same)
marked_slot (x ∷ xs) zero (suc j) s t e f = (t, f, refl, refl, refl)
marked_slot (x ∷ xs) (suc i) zero s t e f = (t, f, refl, refl, refl)
marked_slot (x ∷ xs) (suc i) (suc j) s t e f = marked_slot xs i j s t e f

marked-Holds :
    (pdu_of : ℕ → List ℕ) (w from stored : ℕ) (buffer : List Slot) (i : ℕ) (s : Slot)
    → get_elem? buffer i ≡ some s
    → Holds pdu_of w from stored buffer
    → Holds pdu_of w from stored (set buffer i (marked s))
marked-Holds pdu_of w from stored buffer i s got h = record {
  full = omega (arith, length-set buffer i (marked s), h.full);
  roomy =
      All-set (λ (t : Slot). ◌≡◌ {A = ℕ} (length t.buff) 1407) buffer i
        (All-get_elem? (λ (t : Slot). ◌≡◌ {A = ℕ} (length t.buff) 1407) buffer i h.roomy got)
        h.roomy;
  packets = λ m low high.
      let (t, found, number, bytes) = h.packets m low high in
      let (u, at, a, b, c) = marked_slot buffer i (m % w) s t got found in
      (u, at, a ∙ number, rw (b, c) bytes);
}

-- Fewer packets are there, too.
later-Holds :
    {pdu_of : ℕ → List ℕ} {w from later stored : ℕ} {buffer : List Slot}
    → from ≤ later
    → Holds pdu_of w from stored buffer
    → Holds pdu_of w later stored buffer
later-Holds less h = record {
  full = h.full;
  roomy = h.roomy;
  packets = λ m low high. h.packets m (omega arith) high;
}

module _ {pdu_of : ℕ → List ℕ} {window_size : ℕ} (some_room : 0 < window_size) where
  -- An RR for a number up to INT_MAX always succeeds, whatever the number: `lower` becomes the larger
  -- of itself and that number, so that it never falls, `sequenceNum` stays, and every packet from the
  -- new `lower` to the last one stored is still in its slot.
  pub process_rr_packet-Holds :
      (win : Window) (stored rr : ℕ) (packet : List ℕ)
      → acked_num_of packet ≡ some rr
      → rr ≤ int_max
      → Holds pdu_of window_size win.lower stored win.buffer
      → (after : Window) × (process_rr_packet win packet window_size ≡ some after)
        × (after.lower ≡ max win.lower rr)
        × (after.sequence_num ≡ win.sequence_num)
        × Holds pdu_of window_size after.lower stored after.buffer
  process_rr_packet-Holds win stored rr packet asked small h =
      let (buffer, run, held) =
        process_rr_packet_keeps some_room (Holds pdu_of window_size win.lower stored)
          (λ b k. k.full)
          (λ b i s got k. marked-Holds pdu_of window_size win.lower stored b i s got k) win rr
          packet asked small h in
      (
        record win { lower = max win.lower rr; buffer = buffer },
        run,
        refl,
        refl,
        later-Holds {from = win.lower} (omega arith) held,
      )
