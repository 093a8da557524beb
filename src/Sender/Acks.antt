-- ===== src/Sender/Acks.antt =====
-- How rcopy.c takes an RR or an SREJ that has arrived (`processRRorSREJ`): `lower` moves to a number that
-- a receiver has asked for, and what is sent is the packet of a piece.
use native.Mathlib.Decide.{dec_lt}
use selective_reject.Base.{
  Option-cases, get_elem?, set, ℕ, ◌≡◌, refl, sym, ◌∙◌, ap, subst, arith, ◌⊎◌, inl, inr, Bool, true,
  none, some, some_inj, List, length, length-set, All, All-set, All-get_elem?, ◌==◌, ==_iff,
  signed32, signed32_small,
}
use selective_reject.Machine.{Run, and_then, defined, World, Meets, Meets-defined}
use selective_reject.Pdu.Build.{flag_of, acked_num_of, rr_packet, srej_packet}
use selective_reject.Receiver.Slots.{Slot}
use selective_reject.Window.Defs.{
  Window, get_packet_to_resend, process_rr_packet, process_srej_packet,
}
use selective_reject.Window.Marks.{marked, process_rr_packet_keeps, process_rr_packet_ran}
use selective_reject.Server.Network.{Contains}
use selective_reject.Sender.Pieces.{AckedUpTo, SlotSent}
use selective_reject.Sender.Account.{Task, Startable, Excused, Stopped, Good, Arrived}
use selective_reject.Sender.Answers.{
  get_packet_to_resend-Resendable, get_packet_to_resend_there, excused, resend-Good, numbered_by,
}

module _ (g : Task) (D : World → Type 0) (begin : Startable g) (excuse : Excused g D)
    (pieces : List (List ℕ)) (over : Bool) where
  abbrev Fine : Window → World → Type 0
  Fine = Good g pieces over

  -- What the marks of the slots do not change.
  abbrev Slots : List Slot → Type 0
  Slots b = ◌≡◌ {A = ℕ} (length b) g.args.window_size × All (SlotSent g.env.in_cksum pieces) b

  Slots-marked :
      (b : List Slot) (i : ℕ) (s : Slot)
      → get_elem? b i ≡ some s
      → Slots b
      → Slots (set b i (marked s))
  Slots-marked b i s got q = (
    omega (arith, q.0, length-set b i (marked s)),
    All-set (SlotSent g.env.in_cksum pieces) b i
        (All-get_elem? (SlotSent g.env.in_cksum pieces) b i q.1 got) q.1,
  )

  -- An RR whose checksum is right raises `lower` to its number.
  received_rr-Good :
      (win after : Window) (packet : List ℕ) (w : World)
      → Contains packet w.received
      → Arrived g packet
      → g.env.in_cksum packet ≡ 0
      → flag_of packet ≡ some rr_packet
      → process_rr_packet win packet g.args.window_size ≡ some after
      → Fine win w
      → Fine after w
  received_rr-Good win after packet w there from good flagged ran (h, k) =
      let (n, asked, low, same, (full, slots)) =
        process_rr_packet_ran begin.some_window Slots (λ b q. q.0) Slots-marked win after packet
          (k.full, k.slots) ran in
      (
        h,
        record {
          counted = same ∙ k.counted;
          full = full;
          slots = slots;
          acked = elim (dec_lt win.lower n) [
            | yes less ↦
                let is : n ≡ after.lower = omega (arith, low) in
                inr (packet, there, good, flagged, asked ∙ ap (λ (m : ℕ). some m) is)
            | no more ↦
                let is : win.lower ≡ after.lower = omega (arith, low) in
                subst (λ (m : ℕ). AckedUpTo g.env.in_cksum m w.received) is k.acked
          ];
          low = λ net.
              let (m, asked', le) =
                numbered_by g D begin excuse pieces over net rr_packet packet from good flagged
                  (inl refl) in
              omega (arith, low, k.low net, some_inj (sym asked ∙ asked'));
        },
      )

  received_rr_or :
      (win : Window) (packet : List ℕ) (w : World)
      → Arrived g packet
      → g.env.in_cksum packet ≡ 0
      → flag_of packet ≡ some rr_packet
      → Fine win w
      → process_rr_packet win packet g.args.window_size ≡ none
      → D w
  received_rr_or win packet w from good flagged (h, k) lost =
      excused g D begin excuse pieces over win w (h, k)
        (λ net.
          let (n, asked, le) =
            numbered_by g D begin excuse pieces over net rr_packet packet from good flagged
              (inl refl) in
          let (b, run, q) =
            process_rr_packet_keeps begin.some_window Slots (λ b q. q.0) Slots-marked win n packet
              asked (omega (arith, net.fits)) (k.full, k.slots) in
          cc (sym run ∙ lost))

  -- What follows the RR is given its effect.
  pub take_rr-Meets :
      {B : Type 0} (Q : B → World → Type 0) (f : Window → World → Run B) (flag : ℕ) (win : Window)
      (packet : List ℕ) (w : World)
      → Contains packet w.received
      → Arrived g packet
      → g.env.in_cksum packet ≡ 0
      → flag_of packet ≡ some flag
      → (flag == rr_packet) ≡ true
      → Fine win w
      → ((after : Window) → Fine after w → Meets (Stopped g) D Q (f after w))
      → Meets
          (Stopped g)
          D
          Q
          (and_then (defined (process_rr_packet win packet g.args.window_size) w) f)
  take_rr-Meets Q f flag win packet w there from good flagged is_rr h next =
      let flagged' : flag_of packet ≡ some rr_packet =
        flagged ∙ ap (λ (m : ℕ). some m) ((==_iff flag rr_packet).0 is_rr) in
      Meets-defined (Stopped g) D Q (process_rr_packet win packet g.args.window_size) f w
        (received_rr_or win packet w from good flagged' h)
        (λ after ran.
          next after (received_rr-Good win after packet w there from good flagged' ran h))

  -- An SREJ has the packet of a piece sent again.
  pub process_srej_packet-Good :
      (flag : ℕ) (win : Window) (packet : List ℕ) (w : World)
      → Arrived g packet
      → g.env.in_cksum packet ≡ 0
      → flag_of packet ≡ some flag
      → (flag == srej_packet) ≡ true
      → Fine win w
      → Meets
          (Stopped g)
          D
          (λ _ v. Fine win v)
          (process_srej_packet g.env win packet g.args.window_size w)
  unfolding process_srej_packet
  process_srej_packet-Good flag win packet w from good flagged is_srej h =
      Meets-defined (Stopped g) D (λ _ v. Fine win v) (acked_num_of packet) _ w
        (λ lost. excused g D begin excuse pieces over win w h (λ net.
          let (n, asked, le) =
            numbered_by g D begin excuse pieces over net flag packet from good flagged which in
          cc (sym asked ∙ lost)))
        (λ n asked.
          Meets-defined (Stopped g) D (λ _ v. Fine win v)
            (get_packet_to_resend win (signed32 n) g.args.window_size) _ w
            (λ lost. excused g D begin excuse pieces over win w h (λ net.
              let (m, asked', le) =
                numbered_by g D begin excuse pieces over net flag packet from good flagged which in
              get_packet_to_resend_there g D begin excuse pieces over win w.received n h.1 (
                rw (signed32_small n (omega (arith, net.fits, some_inj (sym asked ∙ asked')))) at
                  lost)))
            (λ r found.
              let ok =
                get_packet_to_resend-Resendable g D begin excuse pieces over win w.received
                  (signed32 n) r h.1 found in
              elim (Option-cases r) [
                | inl nothing ↦ rw nothing h
                | inr (pdu, something) ↦
                    rw something
                      (resend-Good g D begin excuse pieces over pdu win w (rw something at ok) h)
              ]))
    where
      which : (flag ≡ rr_packet) ⊎ (flag ≡ srej_packet)
      which = inr ((==_iff flag srej_packet).0 is_srej)
