-- ===== src/Sender/Ending.antt =====
-- `waitOnEOFAck` (rcopy.c): the EOF packet is sent, and sent again, once a receiver has asked for it.
use selective_reject.Base.{
  not, if◌then◌else◌, sym, ◌∙◌, ℕ, zero, suc, ◌+◌, ◌≡◌, refl, arith, inl, inr, true, List, [], ◌∷◌,
  length, Bool-cases, ltb, ◌==◌, ==_iff, pos, ltb_ℤ,
}
use selective_reject.Machine.{
  Run, ◌>>=◌, pure, World, Meets, Meets-and_then, Meets-defined, Meets-both, Meets-mapped,
  safe_sendto, safe_recvfrom,
}
use selective_reject.Poll.{poll_call}
use selective_reject.Pdu.Build.{frame, flag_of, rr_packet, srej_packet, eof_ack, eof_flag}
use selective_reject.Pdu.Layout.{sent_create_pdu}
use selective_reject.Window.Defs.{Window, process_srej_packet}
use selective_reject.Server.Network.{Contains}
use selective_reject.Sender.Steps.{done, wait_on_eof_ack, Transfer, send_eof_packet}
use selective_reject.Sender.Loops.{answer_at_end, eof_loop, wait_for_eof_ack}
use selective_reject.Sender.Pieces.{AckedUpTo, AckedUpTo-append}
use selective_reject.Sender.Account.{
  Task, Startable, Excused, Stopped, Good, Arrived, safe_sendto-Good, poll_call-Good,
  safe_recvfrom-Good,
}
use selective_reject.Sender.Answers.{flagged_or}
use selective_reject.Sender.Acks.{take_rr-Meets, process_srej_packet-Good}
use selective_reject.Sender.Received.{
  Later, safe_sendto-Later, poll_call-Later, safe_recvfrom-Later, process_srej_packet-Later,
}
use selective_reject.Sender.Pumping.{Going}

module _ (g : Task) (D : World → Type 0) (begin : Startable g) (excuse : Excused g D)
    (pieces : List (List ℕ)) where
  -- The end of the file was met, and the number of the EOF packet has been asked for.
  abbrev Closing : Window → World → Type 0
  Closing win v =
      Good g pieces true win v × AckedUpTo g.env.in_cksum (suc (length pieces)) v.received

  still :
      (w v : World)
      → AckedUpTo g.env.in_cksum (suc (length pieces)) w.received
      → Later w v
      → AckedUpTo g.env.in_cksum (suc (length pieces)) v.received
  still w v asked (more, e) =
      rw e (AckedUpTo-append g.env.in_cksum (suc (length pieces)) w.received more asked)

  send_eof_packet-Closing :
      (n : ℕ) (win : Window) (w : World)
      → n ≡ suc (length pieces)
      → Closing win w
      → Meets (Stopped g) D (λ _ v. Closing win v) (send_eof_packet g.env n w)
  unfolding send_eof_packet
  send_eof_packet-Closing n win w same (h, asked) =
      let pdu = frame g.env.in_cksum (suc (length pieces)) eof_flag (0 ∷ []) in
      let (buffer, made, front) =
        sent_create_pdu g.env.in_cksum g.env.garbage (suc (length pieces)) eof_flag (0 ∷ [])
          (omega (arith, begin.room)) (omega arith) in
      rw (same, made, front)
        (Meets-mapped (Stopped g) (Stopped g) D D (λ _ v. Good g pieces true win v × Later w v)
          (λ _ v. Closing win v) (safe_sendto g.env pdu w) (λ _ s. s) (λ _ d. d)
          (λ _ v (h', later). (h', still w v asked later))
          (Meets-both (Stopped g) D (λ _ v. Good g pieces true win v) (λ _ v. Later w v)
            (safe_sendto g.env pdu w)
            (safe_sendto-Good g D pieces true pdu win w (inr (inr (refl, asked, refl))) h)
            (safe_sendto-Later g.env w pdu)))

  -- A packet whose checksum holds.
  answer_at_end-Closing :
      (n : ℕ) (win : Window) (packet : List ℕ) (w : World)
      → n ≡ suc (length pieces)
      → Contains packet w.received
      → Arrived g packet
      → g.env.in_cksum packet ≡ 0
      → Closing win w
      → Meets
          (Stopped g)
          D
          (λ r v. Closing r.1 v)
          (answer_at_end g.env n g.args.window_size packet win w)
  unfolding answer_at_end
  answer_at_end-Closing n win packet w same there from good (h, asked) =
      Meets-defined (Stopped g) D (λ r v. Closing r.1 v) (flag_of packet) _ w
        (flagged_or g D begin excuse pieces true packet win w from h)
        (λ flag flagged. elim (Bool-cases (flag == eof_ack)) [
          | inl over ↦ rw over (h, asked)
          | inr going ↦ elim (Bool-cases (flag == rr_packet)) [
            | inl is_rr ↦
                rw (going, is_rr)
                  (take_rr-Meets g D begin excuse pieces true (λ r v. Closing r.1 v) _ flag win
                    packet w there from good flagged is_rr h
                    (λ after h'.
                      Meets-and_then (Stopped g) D (λ _ v. Closing after v) (λ r v. Closing r.1 v)
                        (send_eof_packet g.env n w) _
                        (send_eof_packet-Closing n after w same (h', asked)) (λ _ v c. c)))
            | inr no_rr ↦ elim (Bool-cases (flag == srej_packet)) [
              | inr no_srej ↦ rw (going, no_rr, no_srej) (h, asked)
              | inl is_srej ↦
                  rw (going, no_rr, is_srej)
                    (Meets-and_then (Stopped g) D (λ _ v. Good g pieces true win v × Later w v)
                      (λ r v. Closing r.1 v)
                      (process_srej_packet g.env win packet g.args.window_size w) _
                      (Meets-both (Stopped g) D (λ _ v. Good g pieces true win v) (λ _ v. Later w v)
                        (process_srej_packet g.env win packet g.args.window_size w)
                        (process_srej_packet-Good g D begin excuse pieces true flag win packet w
                          from good flagged is_srej h)
                        (process_srej_packet-Later g.env w win packet g.args.window_size))
                      (λ _ v (h', later).
                        Meets-and_then (Stopped g) D (λ _ u. Closing win u) (λ r u. Closing r.1 u)
                          (send_eof_packet g.env n v) _
                          (send_eof_packet-Closing n win v same (h', still w v asked later))
                          (λ _ u c. c)))
            ]
          ]
        ])

  -- A packet that has arrived, and the rounds behind it.
  packet_at_end-Closing :
      (n : ℕ) (win : Window) (packet : List ℕ) (w : World) (next : Window → World → Run Window)
      → n ≡ suc (length pieces)
      → Contains packet w.received
      → Arrived g packet
      → Closing win w
      → ((after : Window) (v : World)
          → Closing after v
          → Meets (Stopped g) D (λ last u. Closing last u) (next after v))
      → Meets
          (Stopped g)
          D
          (λ last v. Closing last v)
          ((if not (g.env.in_cksum packet == 0) then next win else (do
            (over, after) ← answer_at_end g.env n g.args.window_size packet win
            if over then pure after else next after))
            w)
  packet_at_end-Closing n win packet w next same there from c on =
      elim (Bool-cases (g.env.in_cksum packet == 0)) [
        | inr damaged ↦ rw damaged (on win w c)
        | inl good ↦ rw good (
            Meets-and_then (Stopped g) D (λ r v. Closing r.1 v) (λ last v. Closing last v)
              (answer_at_end g.env n g.args.window_size packet win w) _
              (answer_at_end-Closing n win packet w same there from
                ((==_iff (g.env.in_cksum packet) 0).0 good) c)
              (λ r v c'. elim (Bool-cases r.0) [
                | inl over ↦ rw over c'
                | inr going ↦ rw going (on r.1 v c')
              ]))
      ]

  eof_loop-Closing :
      (rounds counter n : ℕ) (win : Window) (w : World)
      → n ≡ suc (length pieces)
      → Closing win w
      → Meets
          (Stopped g)
          D
          (λ after v. Closing after v)
          (eof_loop g.env rounds counter n g.args.window_size win w)
  unfolding eof_loop
  eof_loop-Closing zero counter n win w same (h, asked) = (pieces, true, h.0)
  eof_loop-Closing (suc rounds) counter n win w same (h, asked) =
      elim (Bool-cases (ltb counter 10)) [
        | inr enough ↦ rw enough (h, asked)
        | inl on ↦ rw on (
            Meets-and_then (Stopped g) D (λ _ v. Good g pieces true win v × Later w v)
              (λ after v. Closing after v) (poll_call g.env w) _
              (Meets-both (Stopped g) D (λ _ v. Good g pieces true win v) (λ _ v. Later w v)
                (poll_call g.env w) (poll_call-Good g D pieces true win w h)
                (poll_call-Later g.env w))
              (λ r v (h', later).
                let asked' = still w v asked later in
                elim (Bool-cases (ltb_ℤ r (pos 0))) [
                  | inl timeout ↦ rw timeout (
                      Meets-and_then (Stopped g) D (λ _ u. Closing win u)
                        (λ after u. Closing after u) (send_eof_packet g.env n v) _
                        (send_eof_packet-Closing n win v same (h', asked'))
                        (λ _ u c. eof_loop-Closing rounds (counter + 1) n win u same c))
                  | inr ready ↦ rw ready (
                      Meets-and_then (Stopped g) D
                        (λ pdu u.
                          (Good g pieces true win u × Contains pdu u.received × Arrived g pdu)
                          × Later v u)
                        (λ after u. Closing after u) (safe_recvfrom g.env v) _
                        (Meets-both (Stopped g) D
                          (λ pdu u.
                            Good g pieces true win u × Contains pdu u.received × Arrived g pdu)
                          (λ _ u. Later v u) (safe_recvfrom g.env v)
                          (safe_recvfrom-Good g D pieces true win v h')
                          (safe_recvfrom-Later g.env v))
                        (λ packet u ((h'', there, from), later').
                          packet_at_end-Closing n win packet u
                            (eof_loop g.env rounds counter n g.args.window_size) same there from
                            (h'', still v u asked' later')
                            (λ after x c. eof_loop-Closing rounds counter n after x same c)))
                ]))
      ]

  -- `waitOnEOFAck`.
  pub wait_for_eof_ack-Closing :
      (rounds : ℕ) (t : Transfer) (w : World)
      → t.eof_seq_num ≡ suc (length pieces)
      → Closing t.window w
      → Meets
          (Stopped g)
          D
          (λ r v.
            (r.0 ≡ done)
            × (r.1.eof ≡ t.eof)
            × (r.1.eof_seq_num ≡ t.eof_seq_num)
            × Closing r.1.window v)
          (wait_for_eof_ack g.env rounds g.args.window_size t w)
  unfolding wait_for_eof_ack
  wait_for_eof_ack-Closing rounds t w same c =
      Meets-and_then (Stopped g) D (λ _ v. Closing t.window v) _
        (send_eof_packet g.env t.eof_seq_num w) _
        (send_eof_packet-Closing t.eof_seq_num t.window w same c)
        (λ _ v c'.
          Meets-and_then (Stopped g) D (λ win u. Closing win u) _
            (eof_loop g.env rounds 0 t.eof_seq_num g.args.window_size t.window v) _
            (eof_loop-Closing rounds 0 t.eof_seq_num t.window v same c')
            (λ win u c''. (refl, refl, refl, c'')))

module _ (g : Task) (D : World → Type 0) (begin : Startable g) (excuse : Excused g D) where
  pub wait_for_eof_ack-Going :
      (rounds : ℕ) (t : Transfer) (w : World)
      → Going g wait_on_eof_ack t w
      → Meets
          (Stopped g)
          D
          (λ r v. Going g r.0 r.1 v)
          (wait_for_eof_ack g.env rounds g.args.window_size t w)
  wait_for_eof_ack-Going rounds t w (pieces, h, numbered, closing) =
      let (over, asked) = closing refl in
      Meets-mapped (Stopped g) (Stopped g) D D
        (λ r v.
          (r.0 ≡ done)
          × (r.1.eof ≡ t.eof)
          × (r.1.eof_seq_num ≡ t.eof_seq_num)
          × Closing g D begin excuse pieces r.1.window v)
        (λ r v. Going g r.0 r.1 v) (wait_for_eof_ack g.env rounds g.args.window_size t w) (λ _ s. s)
        (λ _ d. d)
        (λ r v (last, e, n, (h', asked')).
          (pieces, rw (e, over) h', λ _. n ∙ numbered over, λ z. absurd (cc (sym last ∙ z))))
        (wait_for_eof_ack-Closing g D begin excuse pieces rounds t w (numbered over)
          (rw over at h, asked))
