-- ===== src/Sender/Answers.antt =====
-- How rcopy.c answers an RR or an SREJ (`processRRorSREJ`, the timeout of `waitOnAck`): what it sends
-- again is the packet of a piece, and `lower` is a number that a receiver has asked for.
use selective_reject.Base.{
  ℕ, ◌≤◌, ◌≡◌, ◌≢◌, refl, sym, ◌∙◌, arith, ◌⊎◌, inl, inr, Bool, Option, none, some, some_inj, List,
  length, All-get_elem?, Bool-cases, Option-cases, ltb, ℤ, ◌==ℤ◌, pos, if◌then◌else◌, get_elem?,
}
use selective_reject.Machine.{pure, World, Meets, safe_sendto}
use selective_reject.Pdu.Build.{flag_of, acked_num_of, rr_packet, srej_packet}
use selective_reject.Receiver.Slots.{Slot, slot_at}
use selective_reject.Receiver.Stored.{slot_at_pos}
use selective_reject.Window.Defs.{Window, get_packet_to_resend}
use selective_reject.Sender.Retry.{flag_there}
use selective_reject.Sender.Pieces.{PieceOf, SlotSent}
use selective_reject.Sender.Account.{
  Task, Startable, Acks, Excused, Kept, Stopped, Good, Arrived, safe_sendto-Good,
}

slot_at-get_elem? :
    (z : ℤ) (n i : ℕ) (buffer : List Slot) (s : Slot)
    → slot_at z n buffer ≡ some (i, s)
    → get_elem? buffer i ≡ some s
unfolding slot_at
slot_at-get_elem? z n i buffer s at = ground arith

module _ (g : Task) (D : World → Type 0) (begin : Startable g) (excuse : Excused g D)
    (pieces : List (List ℕ)) (over : Bool) where
  -- The answer for a number: none, an empty packet, or the packet of a piece.
  abbrev pub Resendable : Option (List ℕ) → Type 0
  Resendable none = Unit {0}
  Resendable (some pdu) = (length pdu ≡ 0) ⊎ PieceOf g.env.in_cksum pieces pdu

  pub get_packet_to_resend-Resendable :
      (win : Window) (received : List (List ℕ)) (z : ℤ) (r : Option (List ℕ))
      → Kept g pieces win received
      → get_packet_to_resend win z g.args.window_size ≡ some r
      → Resendable r
  unfolding get_packet_to_resend
  get_packet_to_resend-Resendable win received z r k found =
      elim (Option-cases (slot_at z g.args.window_size win.buffer)) [
        | inl out ↦ absurd (cc (rw (out, get_packet_to_resend) at found))
        | inr ((i, s), at) ↦
            let (room, holds) =
              All-get_elem? (SlotSent g.env.in_cksum pieces) win.buffer i k.slots
                (slot_at-get_elem? z g.args.window_size i win.buffer s at) in
            elim (Bool-cases (s.sequence_number ==ℤ z)) [
              | inr other ↦ rw (← some_inj (rw (at, other, get_packet_to_resend) at found)) tt
              | inl same ↦
                  rw (← some_inj (rw (at, same, get_packet_to_resend) at found))
                    (elim holds [ inl empty ↦ inl (rw empty refl) | inr piece ↦ inr piece ])
            ]
      ]

  -- For a number that is an `int` there is an answer.
  pub get_packet_to_resend_there :
      (win : Window) (received : List (List ℕ)) (n : ℕ)
      → Kept g pieces win received
      → get_packet_to_resend win (pos n) g.args.window_size ≢ none
  unfolding get_packet_to_resend
  get_packet_to_resend_there win received n k stuck =
      let (s, at, got) = slot_at_pos begin.some_window win.buffer k.full n in ground (arith, at)

  abbrev Fine : Window → World → Type 0
  Fine = Good g pieces over

  -- A step that lacks what it needs is excused, or the answers that arrive rule it out.
  pub excused : (win : Window) (w : World) → Fine win w → (Acks g → ⊥) → D w
  excused win w h never = elim excuse [
    | inl allow ↦ allow w (pieces, over, h.0)
    | inr net ↦ absurd (never net)
  ]

  -- The packet is sent again if it is not empty.
  pub resend-Good :
      (pdu : List ℕ) (win : Window) (w : World)
      → Resendable (some pdu)
      → Fine win w
      → Meets
          (Stopped g)
          D
          (λ _ v. Fine win v)
          ((if ltb 0 (length pdu) then safe_sendto g.env pdu else pure tt) w)
  resend-Good pdu win w ok h = elim (Bool-cases (ltb 0 (length pdu))) [
    | inr empty ↦ rw empty h
    | inl long ↦ elim ok [
      | inl empty ↦ absurd (ground (arith, long, empty))
      | inr piece ↦ rw long (safe_sendto-Good g D pieces over pdu win w (inr (inl piece)) h)
    ]
  ]

  -- A datagram that has arrived has a flag, and an RR or SREJ a number.
  pub flagged_or :
      (packet : List ℕ) (win : Window) (w : World)
      → Arrived g packet
      → Fine win w
      → flag_of packet ≡ none
      → D w
  flagged_or packet win w (u, d, got, cut) h lost = excused win w h (λ net.
      let (flag, there) = flag_there packet (rw cut (net.headers u d got)) in cc (sym there ∙ lost))

  pub numbered_by :
      (net : Acks g) (flag : ℕ) (packet : List ℕ)
      → Arrived g packet
      → g.env.in_cksum packet ≡ 0
      → flag_of packet ≡ some flag
      → (flag ≡ rr_packet) ⊎ (flag ≡ srej_packet)
      → (n : ℕ) × (acked_num_of packet ≡ some n) × (n ≤ net.top)
  numbered_by net flag packet (u, d, got, cut) good flagged which =
      let (n, asked, le) = net.numbered u d flag got (rw cut at good) (rw cut at flagged) which in
      (n, rw cut asked, le)
