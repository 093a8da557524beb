-- ===== src/Sender/Rounds.antt =====
-- `processRRorSREJ` and the loop that takes the answers that wait (`dataTransfer`, rcopy.c).
use selective_reject.Base.{
  ℕ, zero, suc, ◌≡◌, inl, inr, Bool, List, Bool-cases, ◌==◌, ==_iff, pos, ltb_ℤ,
}
use selective_reject.Machine.{World, Meets, Meets-and_then, Meets-defined, safe_recvfrom}
use selective_reject.Poll.{poll_call}
use selective_reject.Pdu.Build.{flag_of, rr_packet, srej_packet}
use selective_reject.Window.Defs.{Window, process_srej_packet}
use selective_reject.Server.Network.{Contains}
use selective_reject.Sender.Steps.{answer_packet, process_rr_or_srej}
use selective_reject.Sender.Loops.{drain}
use selective_reject.Sender.Account.{
  Task, Startable, Excused, Stopped, Good, Arrived, poll_call-Good, safe_recvfrom-Good,
}
use selective_reject.Sender.Answers.{flagged_or}
use selective_reject.Sender.Acks.{take_rr-Meets, process_srej_packet-Good}

module _ (g : Task) (D : World → Type 0) (begin : Startable g) (excuse : Excused g D)
    (pieces : List (List ℕ)) (over : Bool) where
  abbrev Fine : Window → World → Type 0
  Fine = Good g pieces over

  answer_packet-Good :
      (win : Window) (packet : List ℕ) (w : World)
      → Contains packet w.received
      → Arrived g packet
      → g.env.in_cksum packet ≡ 0
      → Fine win w
      → Meets
          (Stopped g)
          D
          (λ r v. Fine r.1 v)
          (answer_packet g.env win g.args.window_size packet w)
  unfolding answer_packet
  answer_packet-Good win packet w there from good h =
      Meets-defined (Stopped g) D (λ r v. Fine r.1 v) (flag_of packet) _ w
        (flagged_or g D begin excuse pieces over packet win w from h)
        (λ flag flagged. elim (Bool-cases (flag == rr_packet)) [
          | inl is_rr ↦ rw is_rr (
              take_rr-Meets g D begin excuse pieces over (λ r v. Fine r.1 v) _ flag win packet w
                there from good flagged is_rr h (λ after h'. h'))
          | inr no_rr ↦ elim (Bool-cases (flag == srej_packet)) [
            | inr no_srej ↦ rw (no_rr, no_srej) h
            | inl is_srej ↦
                rw (no_rr, is_srej)
                  (Meets-and_then (Stopped g) D (λ _ v. Fine win v) (λ r v. Fine r.1 v)
                    (process_srej_packet g.env win packet g.args.window_size w) _
                    (process_srej_packet-Good g D begin excuse pieces over flag win packet w from
                      good flagged is_srej h)
                    (λ _ v h'. h'))
          ]
        ])

  pub process_rr_or_srej-Good :
      (win : Window) (w : World)
      → Fine win w
      → Meets (Stopped g) D (λ r v. Fine r.1 v) (process_rr_or_srej g.env win g.args.window_size w)
  unfolding process_rr_or_srej
  process_rr_or_srej-Good win w h =
      Meets-and_then (Stopped g) D _ (λ r v. Fine r.1 v) (safe_recvfrom g.env w) _
        (safe_recvfrom-Good g D pieces over win w h)
        (λ packet v (h', there, from). elim (Bool-cases (g.env.in_cksum packet == 0)) [
          | inr damaged ↦ rw damaged h'
          | inl good ↦ rw good (
              answer_packet-Good win packet v there from ((==_iff (g.env.in_cksum packet) 0).0 good)
                h')
        ])

  pub drain-Good :
      (rounds : ℕ) (win : Window) (w : World)
      → Fine win w
      → Meets (Stopped g) D (λ after v. Fine after v) (drain g.env rounds win g.args.window_size w)
  unfolding drain
  drain-Good zero win w h = (pieces, over, h.0)
  drain-Good (suc rounds) win w h =
      Meets-and_then (Stopped g) D (λ _ v. Fine win v) (λ after v. Fine after v) (poll_call g.env w)
        _ (poll_call-Good g D pieces over win w h)
        (λ ready v h'. elim (Bool-cases (ltb_ℤ (pos 0) ready)) [
          | inr none_waits ↦ rw none_waits h'
          | inl one_waits ↦ rw one_waits (
              Meets-and_then (Stopped g) D (λ r u. Fine r.1 u) (λ after u. Fine after u)
                (process_rr_or_srej g.env win g.args.window_size v) _
                (process_rr_or_srej-Good win v h') (λ r u h''. drain-Good rounds r.1 u h''))
        ])
