-- ===== src/Sender/GivesUp.antt =====
-- The states of rcopy.c when nothing arrives any more.
use selective_reject.Base.{
  ◌==ℤ◌, ◌==◌, ◌++◌, ℕ, zero, suc, ◌+◌, ◌-◌, ◌≤◌, ◌<◌, ◌≡◌, refl, ap, arith, ◌⊎◌, inl, inr, Bool,
  true, false, Option, none, some, List, [], ◌∷◌, length, length-take, take, Bool-cases,
  Option-cases, ltb, leb, ltb→lt, ltb→le, pos, int_max, if◌then◌else◌,
}
use selective_reject.Machine.{
  World, Env, HasRoom, Ends, Ends-and_then, Never, safe_sendto, read, tick,
}
use selective_reject.Pdu.Build.{frame, eof_flag}
use selective_reject.Pdu.Layout.{sent_create_pdu}
use selective_reject.Receiver.Stored.{slot_at_pos}
use selective_reject.Window.Defs.{Window, check_window_open, get_packet_to_resend}
use selective_reject.Sender.Steps.{
  RcopyState, wait_on_ack, wait_on_eof_ack, done, Transfer, Args, send_eof_packet, resend_lowest,
  wait_for_ack,
}
use selective_reject.Sender.Loops.{send_packet, end_of_file, data_transfer, eof_loop}
use selective_reject.Sender.Silence.{
  SilentFrom, Reads, SendFailed, Sane, send_ends, poll_call_silent, drain_silent, send_packet_ends,
}

List-cases : (xs : List ℕ) → (xs ≡ []) ⊎ ((b : ℕ) × (bs : List ℕ) × (xs ≡ b ∷ bs))
List-cases [] = inl refl
List-cases (b ∷ bs) = inr (b, bs, refl)

le→leb : (a b : ℕ) → a ≤ b → leb a b ≡ true
le→leb a b h = ground arith

module _ (env : Env) (room : HasRoom env) (args : Args) (some_window : 0 < args.window_size) (c : ℕ)
    (silent : SilentFrom c env) where
  abbrev Failed : World → Type 0
  Failed = SendFailed env

  pub send_eof_packet_ends :
      (n : ℕ) (w : World)
      → c ≤ w.clock
      → Ends Failed Never (λ _ v. c ≤ v.clock) (send_eof_packet env n w)
  unfolding send_eof_packet
  send_eof_packet_ends n w h =
      let (pdu, made, front) =
        sent_create_pdu env.in_cksum env.garbage n eof_flag (0 ∷ []) (omega (arith, room))
          (omega arith) in
      rw (made, front)
        (send_ends env room args some_window c silent (frame env.in_cksum n eof_flag (0 ∷ [])) w h)

  -- The loop of `waitOnEOFAck` has a round for each of its ten timeouts, and one for the last test.
  pub eof_loop_ends :
      (rounds counter n : ℕ) (win : Window) (w : World)
      → c ≤ w.clock
      → 10 < rounds + counter
      → 0 < rounds
      → Ends Failed Never (λ _ v. Unit {0}) (eof_loop env rounds counter n args.window_size win w)
  unfolding eof_loop
  eof_loop_ends zero counter n win w h enough some_left = absurd (omega arith)
  eof_loop_ends (suc rounds) counter n win w h enough some_left =
      elim (Bool-cases (ltb counter 10)) [
        | inr over ↦ rw over tt
        | inl on ↦
            rw (on, poll_call_silent env room args some_window c silent w h)
              (Ends-and_then Failed Never (λ _ v. c ≤ v.clock) (λ _ v. Unit {0})
                (send_eof_packet env n (tick w)) _ (send_eof_packet_ends n (tick w) (omega arith))
                (λ _ v h'.
                  eof_loop_ends rounds (counter + 1) n win v h' (omega arith)
                    (omega (arith, ltb→lt counter 10 on))))
      ]

  -- Where a state hands over to another: the window is as good as before.
  abbrev pub Goes : RcopyState × Transfer → World → Type 0
  Goes r v =
      (c ≤ v.clock)
      × Sane args.window_size r.1.window
      × ((r.0 ≡ wait_on_ack) ⊎ (r.0 ≡ wait_on_eof_ack))

  -- The test of the loop has an answer.
  window_test :
      (win : Window)
      → Sane args.window_size win
      → (if ltb win.sequence_num int_max
          then check_window_open win (win.sequence_num + 1) args.window_size
          else none)
        ≡ some (ltb (win.sequence_num + 1) (win.lower + args.window_size))
  unfolding check_window_open
  window_test win sane = ground (arith, sane.fits, sane.small)

  data_transfer_fields :
      (rounds : ℕ) (eof : Bool) (win : Window) (counter eof_seq_num : ℕ) (w : World)
      → Reads env
      → args.buffer_size ≤ 1400
      → c ≤ w.clock
      → Sane args.window_size win
      → win.lower + args.window_size - (win.sequence_num + 1) < rounds
      → Ends Failed Never
          (λ r v. Goes r v)
          (data_transfer env rounds args
            (record { window = win; eof = eof; counter = counter; eof_seq_num = eof_seq_num })
            w)
  unfolding data_transfer read end_of_file
  data_transfer_fields zero eof win counter eof_seq_num w reads fits h sane less =
      absurd (omega arith)
  data_transfer_fields (suc rounds) true win counter eof_seq_num w reads fits h sane less =
      rw (window_test win sane) (h, sane, inl refl)
  data_transfer_fields (suc rounds) false win counter eof_seq_num w reads fits h sane less =
      elim (Bool-cases (ltb (win.sequence_num + 1) (win.lower + args.window_size))) [
        | inr closed ↦ rw (window_test win sane, closed) (h, sane, inl refl)
        | inl wide ↦
            let inside = ltb→lt (win.sequence_num + 1) (win.lower + args.window_size) wide in
            let (bytes, got) = reads w args.buffer_size in
            elim (List-cases (take args.buffer_size bytes)) [
              | inl empty ↦
                  rw (window_test win sane, wide, got, read, empty)
                    (
                      omega arith,
                      sane,
                      elim (Bool-cases (win.lower == win.sequence_num + 1)) [
                        | inl all ↦ inr (rw all refl)
                        | inr more ↦ inl (rw more refl)
                      ],
                    )
              | inr (b, bs, some_read) ↦
                  let v : World = record w { clock = w.clock + 1; input = w.input ++ b ∷ bs } in
                  rw (window_test win sane, wide, got, read, some_read)
                    (Ends-and_then Failed Never
                      (λ after u.
                        Sane args.window_size after
                        × (after.lower ≡ win.lower)
                        × (after.sequence_num ≡ suc win.sequence_num)
                        × (c ≤ u.clock))
                      _ (send_packet env args.window_size (b ∷ bs) win v) _
                      (send_packet_ends env room args some_window c silent (b ∷ bs) win v sane
                        (omega
                          (arith, fits, length-take args.buffer_size bytes, ap length some_read))
                        (omega (arith, sane.fits)) (omega arith))
                      (λ after u (sane', low, number, h').
                        rw
                          (drain_silent env room args some_window c silent rounds after u h'
                            (omega arith))
                          (data_transfer_fields rounds false after counter eof_seq_num (tick u)
                            reads fits (omega arith) sane' (omega (arith, low, number)))))
            ]
      ]

  -- The number of packets for which the window is open bounds the rounds of `dataTransfer`.
  pub data_transfer_ends :
      (rounds : ℕ) (t : Transfer) (w : World)
      → Reads env
      → args.buffer_size ≤ 1400
      → c ≤ w.clock
      → Sane args.window_size t.window
      → t.window.lower + args.window_size - (t.window.sequence_num + 1) < rounds
      → Ends Failed Never (λ r v. Goes r v) (data_transfer env rounds args t w)
  data_transfer_ends rounds t w reads fits h sane less =
      data_transfer_fields rounds t.eof t.window t.counter t.eof_seq_num w reads fits h sane less

  get_packet_to_resend_total :
      (win : Window) (n : ℕ)
      → Sane args.window_size win
      → (r : Option (List ℕ)) × (get_packet_to_resend win (pos n) args.window_size ≡ some r)
  unfolding get_packet_to_resend
  get_packet_to_resend_total win n sane =
      let (s, at, got) = slot_at_pos some_window win.buffer sane.full n in
      elim (Bool-cases (s.sequence_number ==ℤ pos n)) [
        | inl same ↦ (some (take s.pdu_len s.buff), ground (arith, at, same))
        | inr other ↦ (none, ground (arith, at, other))
      ]

  -- A timeout counts, until ten of them are enough.
  pub wait_for_ack_silent :
      (t : Transfer) (w : World)
      → c ≤ w.clock
      → Sane args.window_size t.window
      → Ends Failed Never
          (λ r v.
            (c ≤ v.clock)
            × (((r.0 ≡ done) × (10 ≤ t.counter))
                ⊎ ((r.0 ≡ wait_on_ack)
                    × (t.counter < 10)
                    × (r.1 ≡ record t { counter = t.counter + 1 }))))
          (wait_for_ack env args.window_size t w)
  unfolding wait_for_ack resend_lowest
  wait_for_ack_silent t w h sane = elim (Bool-cases (ltb t.counter 10)) [
    | inr enough ↦
        let le = ltb→le t.counter 10 enough in
        rw (poll_call_silent env room args some_window c silent w h, enough, le→leb 10 t.counter le)
          (omega arith, inl (refl, le))
    | inl more ↦
        let few = ltb→lt t.counter 10 more in
        let (r, found) = get_packet_to_resend_total t.window t.window.lower sane in
        elim (Option-cases r) [
          | inl nothing ↦
              rw (poll_call_silent env room args some_window c silent w h, more, found, nothing)
                (omega arith, inr (refl, few, refl))
          | inr (pdu, something) ↦ elim (Bool-cases (ltb 0 (length pdu))) [
            | inr empty ↦
                rw
                  (
                    poll_call_silent env room args some_window c silent w h,
                    more,
                    found,
                    something,
                    empty,
                  )
                  (omega arith, inr (refl, few, refl))
            | inl long ↦
                rw
                  (
                    poll_call_silent env room args some_window c silent w h,
                    more,
                    found,
                    something,
                    long,
                  )
                  (Ends-and_then Failed Never (λ _ v. c ≤ v.clock) _ (safe_sendto env pdu (tick w))
                    _ (send_ends env room args some_window c silent pdu (tick w) (omega arith))
                    (λ _ v h'. (h', inr (refl, few, refl))))
          ]
        ]
  ]
