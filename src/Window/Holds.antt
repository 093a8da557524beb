-- ===== src/Window/Holds.antt =====
-- What the sender's buffer holds (windowing.c): the packets that are sent and not acknowledged, up to
-- the last one stored, each in the slot of its number.
use native.Mathlib.Nat.{mod-lt}
use native.Mathlib.Decide.{dec_lt}
use selective_reject.Base.{
  signed32_small, lt→ltb, int_max, some_inj, ℕ, suc, ◌+◌, ◌%◌, ◌<◌, ◌≤◌, ◌≡◌, refl, sym, subst, ◌∙◌,
  arith, true, some, List, length, take, drop, get_elem?, set, get_elem?-set_self, get_elem?-set_ne,
  length-set, All, All-set, All-get_elem?, take-append, length-copy_at, copy_at, pos,
}
use selective_reject.Machine.{Env, World, safe_sendto}
use selective_reject.Pdu.Build.{acked_num_of}
use selective_reject.Receiver.Slots.{Slot}
use selective_reject.Receiver.Stored.{slot_at_pos}
use selective_reject.Window.Defs.{
  process_srej_packet, get_packet_to_resend, Window, check_window_open, window_store_packet,
}
use selective_reject.Window.Modular.{mod-ne}

abbrev pub Roomy : List Slot → Type 0
Roomy buffer = All (λ (s : Slot). ◌≡◌ {A = ℕ} (length s.buff) 1407) buffer

-- The buffer's slot of a number holds that number's packet.
abbrev pub HasPacket : ℕ → List Slot → ℕ → List ℕ → Type 0
HasPacket window_size buffer n pdu =
    (s : Slot) × (get_elem? buffer (n % window_size) ≡ some s)
    × (s.sequence_number ≡ pos n)
    × (take s.pdu_len s.buff ≡ pdu)

-- Every packet from number `from` to `stored` can be sent again.
pub record Holds (pdu_of : ℕ → List ℕ) (window_size from stored : ℕ) (buffer : List Slot)
    : Type 0 where
  pub full : length buffer ≡ window_size
  pub roomy : Roomy buffer
  pub packets : (n : ℕ) → from ≤ n → n ≤ stored → HasPacket window_size buffer n (pdu_of n)

-- A slot written for a later number of the same window leaves the packet of an earlier one alone.
HasPacket-set_ne :
    (w : ℕ) (buffer : List Slot) (m n : ℕ) (pdu : List ℕ) (new : Slot)
    → m < n
    → n < m + w
    → HasPacket w buffer m pdu
    → HasPacket w (set buffer (n % w) new) m pdu
HasPacket-set_ne w buffer m n pdu new less near (s, got, number, bytes) = (
  s,
  get_elem?-set_ne buffer (n % w) (m % w) new (λ e. mod-ne w m n less near (sym e)) ∙ got,
  number,
  bytes,
)

open_lt :
    (window_size : ℕ) (win : Window) (n : ℕ)
    → check_window_open win n window_size ≡ some true
    → n < win.lower + window_size
unfolding check_window_open
open_lt window_size win n h = ground arith

module _ {pdu_of : ℕ → List ℕ} {window_size : ℕ} (some_room : 0 < window_size) where
  -- Where every packet from `lower` to `stored` is in its slot, the window is open for the next
  -- number and the packet is not longer than a slot, storing it succeeds, every packet from `lower`
  -- to the new one is in its slot, and `lower` and `sequenceNum` are as before.
  pub window_store_packet-Holds :
      (win : Window) (stored : ℕ)
      → Holds pdu_of window_size win.lower stored win.buffer
      → win.lower ≤ suc stored
      → check_window_open win (suc stored) window_size ≡ some true
      → length (pdu_of (suc stored)) ≤ 1407
      → (after : Window) × (window_store_packet win (suc stored) (pdu_of (suc stored)) window_size
          ≡ some after)
        × Holds pdu_of window_size after.lower (suc stored) after.buffer
        × (after.lower ≡ win.lower)
        × (after.sequence_num ≡ win.sequence_num)
  unfolding window_store_packet
  window_store_packet-Holds win stored h started opened fits =
      let n = suc stored in
      let pdu = pdu_of n in
      let (s, at, got) = slot_at_pos some_room win.buffer h.full n in
      let old =
        All-get_elem? (λ (t : Slot). ◌≡◌ {A = ℕ} (length t.buff) 1407) win.buffer (n % window_size)
          h.roomy got in
      let new : Slot = record {
        buff = copy_at s.buff 0 pdu;
        pdu_len = length pdu;
        sequence_number = pos n;
        valid_flag = 0;
      } in
      let after : List Slot = set win.buffer (n % window_size) new in
      (
        record win { buffer = after },
        ground (arith, at, old),
        record {
          full = omega (arith, length-set win.buffer (n % window_size) new, h.full);
          roomy =
              All-set (λ (t : Slot). ◌≡◌ {A = ℕ} (length t.buff) 1407) win.buffer (n % window_size)
                (omega (arith, old, length-copy_at s.buff 0 pdu)) h.roomy;
          packets = λ m low high. elim (dec_lt m n) [
            | yes less ↦
                HasPacket-set_ne window_size win.buffer m n (pdu_of m) new less
                  (omega (arith, open_lt window_size win n opened)) (h.packets m low (omega arith))
            | no over ↦
                let same : n ≡ m = omega arith in
                subst (λ (k : ℕ). HasPacket window_size after k (pdu_of k)) same
                  (
                    new,
                    get_elem?-set_self win.buffer (n % window_size) new
                        (omega (arith, h.full, mod-lt n some_room)),
                    refl,
                    take-append pdu (drop (0 + length pdu) s.buff),
                  )
          ];
        },
        refl,
        refl,
      )

  -- Where the packets up to `stored` are in their slots, the packet to send again for one of those
  -- numbers is the packet that was stored under it.
  pub get_packet_to_resend-Holds :
      (win : Window) (stored n : ℕ)
      → Holds pdu_of window_size win.lower stored win.buffer
      → win.lower ≤ n
      → n ≤ stored
      → get_packet_to_resend win (pos n) window_size ≡ some (some (pdu_of n))
  unfolding get_packet_to_resend
  get_packet_to_resend-Holds win stored n h low high =
      let (s, at, got) = slot_at_pos some_room win.buffer h.full n in
      let (t, found, number, bytes) = h.packets n low high in
      let same : s ≡ t = some_inj (sym got ∙ found) in ground (arith, at, same, number, bytes)

  -- An SREJ for one of the packets from `lower` to the last one stored sends exactly that packet,
  -- byte by byte as it was stored, if it is not empty.
  pub process_srej_packet-Holds :
      (env : Env) (win : Window) (stored n : ℕ) (packet : List ℕ) (w : World)
      → acked_num_of packet ≡ some n
      → n ≤ int_max
      → Holds pdu_of window_size win.lower stored win.buffer
      → win.lower ≤ n
      → n ≤ stored
      → 0 < length (pdu_of n)
      → process_srej_packet env win packet window_size w ≡ safe_sendto env (pdu_of n) w
  unfolding process_srej_packet
  process_srej_packet-Holds env win stored n packet w asked small h low high long =
      rw
        (
          asked,
          signed32_small n small,
          get_packet_to_resend-Holds win stored n h low high,
          lt→ltb 0 (length (pdu_of n)) long,
        )
        refl
