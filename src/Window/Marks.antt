-- ===== src/Window/Marks.antt =====
-- `validateBuffer` and the loop of `processRRpacket` (windowing.c): marking packets as acknowledged keeps
-- whatever does not depend on the marks.
use Prim.Native.Nat.{max}
use native.Mathlib.Decide.{dec_lt}
use selective_reject.Base.{
  ℕ, zero, suc, ◌+◌, ◌-◌, ◌%◌, ◌≤◌, ◌<◌, ◌≡◌, sym, ap, ◌∙◌, subst, arith, inl, inr, some, some_inj,
  List, length, get_elem?, set, Bool-cases, Option-cases, ◌==◌, ◌==ℤ◌, ◌&&◌, pos, int_max, ltb,
  ltb→lt, ltb→le,
}
use selective_reject.Receiver.Slots.{Slot}
use selective_reject.Receiver.Stored.{slot_at_pos}
use selective_reject.Window.Defs.{Window, validate_buffer, validate_loop, process_rr_packet}
use selective_reject.Pdu.Build.{acked_num_of}

abbrev pub marked : Slot → Slot
marked s = record s { valid_flag = 1 }

module _ {w : ℕ} (some_room : 0 < w) (Q : List Slot → Type 0)
    (full : (buffer : List Slot) → Q buffer → length buffer ≡ w)
    (keeps : (buffer : List Slot) (i : ℕ) (s : Slot)
      → get_elem? buffer i ≡ some s
      → Q buffer
      → Q (set buffer i (marked s))) where
  -- Marking one packet always succeeds.
  validate_buffer_keeps :
      (n : ℕ) (buffer : List Slot)
      → Q buffer
      → (after : List Slot) × (validate_buffer buffer n w ≡ some after) × Q after
  unfolding validate_buffer
  validate_buffer_keeps n buffer h =
      let (s, at, got) = slot_at_pos some_room buffer (full buffer h) n in
      elim (Bool-cases (s.sequence_number ==ℤ pos n && s.valid_flag == 0)) [
        | inl shut ↦
            (set buffer (n % w) (marked s), ground (arith, at, shut), keeps buffer (n % w) s got h)
        | inr free ↦ (buffer, ground (arith, at, free), h)
      ]

  -- The loop runs to the number of the RR.
  validate_loop_keeps :
      (rounds rr lower : ℕ) (buffer : List Slot)
      → rr - lower < rounds
      → rr ≤ int_max
      → Q buffer
      → (after : List Slot) × (validate_loop rounds rr w lower buffer ≡ some (max lower rr, after))
        × Q after
  unfolding validate_loop
  validate_loop_keeps zero rr lower buffer more small h = absurd (omega arith)
  validate_loop_keeps (suc rounds) rr lower buffer more small h = elim (dec_lt lower rr) [
    | no over ↦ (buffer, ground arith, h)
    | yes less ↦
        let (touched, step, h') = validate_buffer_keeps lower buffer h in
        let (after, run, h'') =
          validate_loop_keeps rounds rr (lower + 1) touched (omega arith) small h' in
        let same : max (lower + 1) rr ≡ max lower rr = omega arith in
        (after, ground (arith, step, run), h'')
  ]

  -- Where the loop ends with a result, whatever the number, it has run to that number.
  validate_loop_ran :
      (rounds rr lower last : ℕ) (buffer after : List Slot)
      → Q buffer
      → validate_loop rounds rr w lower buffer ≡ some (last, after)
      → (last ≡ max lower rr) × Q after
  unfolding validate_loop
  validate_loop_ran zero rr lower last buffer after h ran = absurd (cc)
  validate_loop_ran (suc rounds) rr lower last buffer after h ran =
      elim (Bool-cases (ltb lower rr)) [
        | inr over ↦
            let same : (lower, buffer) ≡ (last, after) =
              some_inj (rw (over, validate_loop) at ran) in
            (
              omega (arith, ltb→le lower rr over, ap (λ (p : ℕ × List Slot). p.0) same),
              subst Q (ap (λ (p : ℕ × List Slot). p.1) same) h,
            )
        | inl less ↦
            let (touched, step, h') = validate_buffer_keeps lower buffer h in
            elim (Bool-cases (ltb lower int_max)) [
              | inr full_int ↦ absurd (cc (rw (less, step, full_int, validate_loop) at ran))
              | inl room ↦
                  let (end, q) =
                    validate_loop_ran rounds rr (lower + 1) last touched after h'
                      (rw (less, step, room, validate_loop) at ran) in
                  (omega (arith, ltb→lt lower rr less, end), q)
            ]
      ]

  -- So an RR that is processed has a number, raises `lower` to it and keeps it.
  pub process_rr_packet_ran :
      (win after : Window) (packet : List ℕ)
      → Q win.buffer
      → process_rr_packet win packet w ≡ some after
      → (rr : ℕ) × (acked_num_of packet ≡ some rr)
        × (after.lower ≡ max win.lower rr)
        × (after.sequence_num ≡ win.sequence_num)
        × Q after.buffer
  unfolding process_rr_packet
  process_rr_packet_ran win after packet h ran = elim (Option-cases (acked_num_of packet)) [
    | inl nothing ↦ absurd (cc (rw (nothing, process_rr_packet) at ran))
    | inr (rr, asked) ↦
        elim (Option-cases (validate_loop (suc (rr - win.lower)) rr w win.lower win.buffer)) [
          | inl stuck ↦ absurd (cc (rw (asked, stuck, process_rr_packet) at ran))
          | inr ((last, buffer), looped) ↦
              let (end, q) =
                validate_loop_ran (suc (rr - win.lower)) rr win.lower last win.buffer buffer h
                  looped in
              let same : record win { lower = last; buffer = buffer } ≡ after =
                some_inj (rw (asked, looped, process_rr_packet) at ran) in
              (
                rr,
                asked,
                sym (ap (λ (x : Window). x.lower) same) ∙ end,
                sym (ap (λ (x : Window). x.sequence_num) same),
                subst Q (ap (λ (x : Window). x.buffer) same) q,
              )
        ]
  ]

  -- So an RR raises `lower` to its number and keeps it.
  pub process_rr_packet_keeps :
      (win : Window) (rr : ℕ) (packet : List ℕ)
      → acked_num_of packet ≡ some rr
      → rr ≤ int_max
      → Q win.buffer
      → (buffer : List Slot) × (process_rr_packet win packet w
          ≡ some (record win { lower = max win.lower rr; buffer = buffer }))
        × Q buffer
  unfolding process_rr_packet
  process_rr_packet_keeps win rr packet asked small h =
      let (buffer, run, h') =
        validate_loop_keeps (suc (rr - win.lower)) rr win.lower win.buffer (omega arith) small h in
      (buffer, ground (arith, asked, run), h')
