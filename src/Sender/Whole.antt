-- ===== src/Sender/Whole.antt =====
-- All states of rcopy.c together: what is sent for a file, over any network.
use selective_reject.Base.{
  replicate, ap, ℕ, zero, suc, ◌≡◌, ◌≢◌, refl, arith, inl, inr, Bool, false, List, [], ◌++◌, length,
  All-replicate, length-replicate, Bool-cases, ltb_ℤ, pos, ◌==◌,
}
use selective_reject.Machine.{
  ◌>>=◌, tick, World, Env, Meets, Meets-and_then, Meets-defined, safe_sendto, safe_recvfrom, malloc,
}
use selective_reject.Poll.{poll_call}
use selective_reject.Pdu.Build.{flag_of, server_to_rcopy}
use selective_reject.Receiver.Slots.{initialize_buffer, empty_slot}
use selective_reject.Window.Defs.{Window}
use selective_reject.Sender.Steps.{
  RcopyState, filename, file_ok, send_data, wait_on_ack, wait_on_eof_ack, done, Transfer, Args,
  setup_loop, send_setup_packet,
}
use selective_reject.Sender.Loops.{rcopy_step, rcopy_loop, send_file}
use selective_reject.Sender.Setup.{first_packet, setup_pdu-first_packet}
use selective_reject.Sender.Pieces.{SlotSent}
use selective_reject.Sender.Account.{
  Task, Startable, Excused, Stopped, Good, Wrote, safe_sendto-Good, poll_call-Good,
  safe_recvfrom-Good,
}
use selective_reject.Sender.Answers.{flagged_or}
use selective_reject.Sender.Pumping.{Going, data_transfer-Going}
use selective_reject.Sender.Waiting.{wait_for_ack-Going}
use selective_reject.Sender.Ending.{wait_for_eof_ack-Going}

-- rcopy started in its surroundings on its arguments, with the contents of its input file.
abbrev pub task : Env → Args → List ℕ → Task
task env args file = record { env = env; args = args; setup = first_packet env args; file = file }

module _ (env : Env) (args : Args) (file : List ℕ) (D : World → Type 0)
    (begin : Startable (task env args file)) (excuse : Excused (task env args file) D) where
  abbrev g : Task
  g = task env args file

  setup_loop-Good :
      (rounds : ℕ) (pieces : List (List ℕ)) (over : Bool) (win : Window) (w : World)
      → Good g pieces over win w
      → Meets
          (Stopped g)
          D
          (λ r v. Good g pieces over win v × (r ≢ wait_on_eof_ack))
          (setup_loop env rounds (first_packet env args) w)
  unfolding setup_loop
  setup_loop-Good zero pieces over win w h = (h, λ z. cc)
  setup_loop-Good (suc rounds) pieces over win w h =
      Meets-and_then (Stopped g) D (λ _ v. Good g pieces over win v) _
        (safe_sendto env (first_packet env args) w) _
        (safe_sendto-Good g D pieces over (first_packet env args) win w (inl refl) h)
        (λ _ v h'.
          Meets-and_then (Stopped g) D (λ _ u. Good g pieces over win u) _ (poll_call env v) _
            (poll_call-Good g D pieces over win v h')
            (λ r u h''. elim (Bool-cases (ltb_ℤ r (pos 0))) [
              | inl timeout ↦ rw timeout (setup_loop-Good rounds pieces over win u h'')
              | inr ready ↦ rw ready (
                  Meets-and_then (Stopped g) D _ _ (safe_recvfrom env u) _
                    (safe_recvfrom-Good g D pieces over win u h'')
                    (λ d x (good, there, from).
                      Meets-defined (Stopped g) D
                        (λ r v. Good g pieces over win v × (r ≢ wait_on_eof_ack)) (flag_of d) _ x
                        (flagged_or g D begin excuse pieces over d win x from good)
                        (λ flag flagged. elim (Bool-cases (flag == server_to_rcopy)) [
                          | inl answer ↦ rw answer (good, λ z. cc)
                          | inr other ↦ rw other (setup_loop-Good rounds pieces over win x good)
                        ])))
            ]))

  send_setup_packet-Good :
      (pieces : List (List ℕ)) (over : Bool) (win : Window) (w : World)
      → Good g pieces over win w
      → Meets
          (Stopped g)
          D
          (λ r v. Good g pieces over win v × (r ≢ wait_on_eof_ack))
          (send_setup_packet env args w)
  unfolding send_setup_packet
  send_setup_packet-Good pieces over win w h =
      rw (setup_pdu-first_packet env begin.room args begin.short w)
        (setup_loop-Good 10 pieces over win w h)

  rcopy_step-Going :
      (rounds : ℕ) (state : RcopyState) (t : Transfer) (w : World)
      → Going g state t w
      → Meets (Stopped g) D (λ r v. Going g r.0 r.1 v) (rcopy_step env rounds args state t w)
  unfolding rcopy_step
  rcopy_step-Going rounds filename t w (pieces, h, numbered, closing) =
      Meets-and_then (Stopped g) D (λ r v. Good g pieces t.eof t.window v × (r ≢ wait_on_eof_ack)) _
        (send_setup_packet env args w) _ (send_setup_packet-Good pieces t.eof t.window w h)
        (λ r v (h', early). (pieces, h', numbered, λ z. absurd (early z)))
  rcopy_step-Going rounds file_ok t w (pieces, h, numbered, closing) =
      (pieces, h, numbered, λ z. absurd (cc))
  rcopy_step-Going rounds send_data t w h =
      data_transfer-Going g D begin excuse rounds send_data t w h
  rcopy_step-Going rounds wait_on_ack t w h = wait_for_ack-Going g D begin excuse wait_on_ack t w h
  rcopy_step-Going rounds wait_on_eof_ack t w h =
      wait_for_eof_ack-Going g D begin excuse rounds t w h
  rcopy_step-Going rounds done t w h = h

  -- A turn of the loop, and the turns behind it.
  rcopy_turn-Going :
      (rounds : ℕ) (state : RcopyState) (t : Transfer) (w : World)
      → Going g state t w
      → ((next : RcopyState) (after : Transfer) (v : World)
          → Going g next after v
          → Meets (Stopped g) D (λ _ u. Stopped g u) (rcopy_loop env rounds args next after v))
      → Meets
          (Stopped g)
          D
          (λ _ v. Stopped g v)
          ((do
            (next, after) ← rcopy_step env rounds args state t
            rcopy_loop env rounds args next after)
            w)
  rcopy_turn-Going rounds state t w h on =
      Meets-and_then (Stopped g) D (λ r v. Going g r.0 r.1 v) (λ _ v. Stopped g v)
        (rcopy_step env rounds args state t w) _ (rcopy_step-Going rounds state t w h)
        (λ r v h'. on r.0 r.1 v h')

  rcopy_loop-Going :
      (rounds : ℕ) (state : RcopyState) (t : Transfer) (w : World)
      → Going g state t w
      → Meets (Stopped g) D (λ _ v. Stopped g v) (rcopy_loop env rounds args state t w)
  unfolding rcopy_loop
  rcopy_loop-Going zero done t w (pieces, h, _, _) = (pieces, t.eof, h.0)
  rcopy_loop-Going zero filename t w (pieces, h, _, _) = (pieces, t.eof, h.0)
  rcopy_loop-Going zero file_ok t w (pieces, h, _, _) = (pieces, t.eof, h.0)
  rcopy_loop-Going zero send_data t w (pieces, h, _, _) = (pieces, t.eof, h.0)
  rcopy_loop-Going zero wait_on_ack t w (pieces, h, _, _) = (pieces, t.eof, h.0)
  rcopy_loop-Going zero wait_on_eof_ack t w (pieces, h, _, _) = (pieces, t.eof, h.0)
  rcopy_loop-Going (suc rounds) done t w (pieces, h, _, _) = (pieces, t.eof, h.0)
  rcopy_loop-Going (suc rounds) filename t w h =
      rcopy_turn-Going rounds filename t w h (rcopy_loop-Going rounds)
  rcopy_loop-Going (suc rounds) file_ok t w h =
      rcopy_turn-Going rounds file_ok t w h (rcopy_loop-Going rounds)
  rcopy_loop-Going (suc rounds) send_data t w h =
      rcopy_turn-Going rounds send_data t w h (rcopy_loop-Going rounds)
  rcopy_loop-Going (suc rounds) wait_on_ack t w h =
      rcopy_turn-Going rounds wait_on_ack t w h (rcopy_loop-Going rounds)
  rcopy_loop-Going (suc rounds) wait_on_eof_ack t w h =
      rcopy_turn-Going rounds wait_on_eof_ack t w h (rcopy_loop-Going rounds)

  begun : (w : World) → w.sent ≡ [] → w.input ≡ [] → Wrote g [] false w
  begun w silent unread = record {
    read = unread;
    sized = tt;
    sent = rw silent tt;
    ended = λ z. absurd (cc);
    within = (file, length file, ap (λ (x : List ℕ). x ++ file) unread, omega arith, refl);
  }

  pub send_file-Stopped :
      (rounds : ℕ) (w : World)
      → w.sent ≡ []
      → w.input ≡ []
      → Meets (Stopped g) D (λ _ v. Stopped g v) (send_file env rounds args w)
  unfolding send_file initialize_buffer malloc
  send_file-Stopped rounds w silent unread = elim (Bool-cases (env.malloc_fails w)) [
    | inl fails ↦ rw (fails, malloc) ([], false, begun (tick w) silent unread)
    | inr allocates ↦
        let first : Transfer = record {
          window = record {
            lower = 1;
            sequence_num = 0;
            buffer = replicate args.window_size (empty_slot env.garbage);
          };
          eof = false;
          counter = 0;
          eof_seq_num = 0;
        } in
        rw (allocates, malloc)
          (Meets-and_then (Stopped g) D (λ _ v. Stopped g v) (λ _ v. Stopped g v)
            (rcopy_loop env rounds args filename first (tick w)) _
            (rcopy_loop-Going rounds filename first (tick w) (
              [],
              (
                begun (tick w) silent unread,
                record {
                  counted = refl;
                  full = length-replicate args.window_size (empty_slot env.garbage);
                  slots =
                      All-replicate (SlotSent env.in_cksum []) args.window_size
                        (begin.room, inl refl);
                  acked = inl refl;
                  low = λ net. net.some_top;
                },
              ),
              λ z. absurd (cc),
              λ z. absurd (cc),
            ))
            (λ _ v s. s))
  ]
