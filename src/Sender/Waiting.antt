-- ===== src/Sender/Waiting.antt =====
-- `waitOnAck` (rcopy.c): a timeout sends the lowest packet again, an answer moves the window.
use selective_reject.Base.{
  ℕ, zero, suc, ◌≡◌, ◌∙◌, arith, inl, inr, Bool, true, List, length, Bool-cases, Option-cases, ltb,
  leb, ◌==◌, ==_iff, ◌&&◌, ℤ, pos, negsuc, ltb_ℤ, subst,
}
use selective_reject.Machine.{World, Meets, Meets-and_then, Meets-defined}
use selective_reject.Poll.{poll_call}
use selective_reject.Window.Defs.{get_packet_to_resend}
use selective_reject.Sender.Steps.{
  RcopyState, Transfer, all_acked, after_ack, resend_lowest, wait_for_ack, process_rr_or_srej,
}
use selective_reject.Sender.Pieces.{AckedUpTo}
use selective_reject.Sender.Account.{Task, Startable, Excused, Stopped, Good, poll_call-Good}
use selective_reject.Sender.Answers.{
  get_packet_to_resend-Resendable, get_packet_to_resend_there, resend-Good,
}
use selective_reject.Sender.Rounds.{process_rr_or_srej-Good}
use selective_reject.Sender.Pumping.{Going}

both_true : (a b : Bool) → (a && b) ≡ true → (a ≡ true) × (b ≡ true)
both_true a b h = ground arith

module _ (g : Task) (D : World → Type 0) (begin : Startable g) (excuse : Excused g D) where
  -- The last state is entered when the number of the EOF packet has been asked for.
  all_acked-AckedUpTo :
      (t : Transfer) (w : World) (pieces : List (List ℕ))
      → Good g pieces t.eof t.window w
      → (t.eof ≡ true → t.eof_seq_num ≡ suc (length pieces))
      → all_acked g.env t ≡ true
      → (t.eof ≡ true) × AckedUpTo g.env.in_cksum (suc (length pieces)) w.received
  unfolding all_acked
  all_acked-AckedUpTo t w pieces (h, k) numbered all =
      let (over, reached) = both_true t.eof (t.window.lower == t.eof_seq_num) all in
      let same : t.window.lower ≡ suc (length pieces) =
        (==_iff t.window.lower t.eof_seq_num).0 reached ∙ numbered over in
      (over, subst (λ (m : ℕ). AckedUpTo g.env.in_cksum m w.received) same k.acked)

  after_ack-Going :
      (z : ℤ) (t : Transfer) (w : World) (pieces : List (List ℕ))
      → Good g pieces t.eof t.window w
      → (t.eof ≡ true → t.eof_seq_num ≡ suc (length pieces))
      → Going g (after_ack g.env z t).0 (after_ack g.env z t).1 w
  unfolding after_ack
  after_ack-Going (pos zero) t w pieces h numbered = (
    pieces,
    h,
    numbered,
    λ closing. elim (Bool-cases (all_acked g.env t)) [
      | inl all ↦ all_acked-AckedUpTo t w pieces h numbered all
      | inr more ↦ absurd (cc (rw more at closing))
    ],
  )
  after_ack-Going (pos (suc zero)) t w pieces h numbered = (
    pieces,
    h,
    numbered,
    λ closing. elim (Bool-cases (all_acked g.env t)) [
      | inl all ↦ all_acked-AckedUpTo t w pieces h numbered all
      | inr more ↦ absurd (cc (rw more at closing))
    ],
  )
  after_ack-Going (pos (suc (suc n))) t w pieces h numbered =
      (pieces, h, numbered, λ z. absurd (cc))
  after_ack-Going (negsuc n) t w pieces h numbered = (pieces, h, numbered, λ z. absurd (cc))

  resend_lowest-Going :
      (t : Transfer) (w : World) (pieces : List (List ℕ))
      → Good g pieces t.eof t.window w
      → (t.eof ≡ true → t.eof_seq_num ≡ suc (length pieces))
      → Meets (Stopped g) D (λ r v. Going g r.0 r.1 v) (resend_lowest g.env g.args.window_size t w)
  unfolding resend_lowest
  resend_lowest-Going t w pieces h numbered =
      Meets-defined (Stopped g) D (λ r v. Going g r.0 r.1 v)
        (get_packet_to_resend t.window (pos t.window.lower) g.args.window_size) _ w
        (λ lost. absurd (
          get_packet_to_resend_there g D begin excuse pieces t.eof t.window w.received
            t.window.lower h.1 lost))
        (λ r found.
          let ok =
            get_packet_to_resend-Resendable g D begin excuse pieces t.eof t.window w.received
              (pos t.window.lower) r h.1 found in
          elim (Option-cases r) [
            | inl nothing ↦ rw nothing (pieces, h, numbered, λ z. absurd (cc))
            | inr (pdu, something) ↦ rw something (
                Meets-and_then (Stopped g) D (λ _ v. Good g pieces t.eof t.window v)
                  (λ r v. Going g r.0 r.1 v) _ _
                  (resend-Good g D begin excuse pieces t.eof pdu t.window w (rw something at ok) h)
                  (λ _ v h'. (pieces, h', numbered, λ z. absurd (cc))))
          ])

  pub wait_for_ack-Going :
      (state : RcopyState) (t : Transfer) (w : World)
      → Going g state t w
      → Meets (Stopped g) D (λ r v. Going g r.0 r.1 v) (wait_for_ack g.env g.args.window_size t w)
  unfolding wait_for_ack
  wait_for_ack-Going state t w (pieces, h, numbered, closing) =
      Meets-and_then (Stopped g) D (λ _ v. Good g pieces t.eof t.window v)
        (λ r v. Going g r.0 r.1 v) (poll_call g.env w) _
        (poll_call-Good g D pieces t.eof t.window w h)
        (λ r v h'. elim (Bool-cases (ltb_ℤ r (pos 0) && ltb t.counter 10)) [
          | inl timeout ↦ rw timeout (resend_lowest-Going t v pieces h' numbered)
          | inr ready ↦ elim (Bool-cases (leb 10 t.counter)) [
            | inl enough ↦ rw (ready, enough) (pieces, h', numbered, λ z. absurd (cc))
            | inr on ↦
                rw (ready, on)
                  (Meets-and_then (Stopped g) D (λ q u. Good g pieces t.eof q.1 u)
                    (λ q u. Going g q.0 q.1 u)
                    (process_rr_or_srej g.env t.window g.args.window_size v) _
                    (process_rr_or_srej-Good g D begin excuse pieces t.eof t.window v h')
                    (λ q u h''.
                      after_ack-Going q.0 (record t { window = q.1 }) u pieces h'' numbered))
          ]
        ])
