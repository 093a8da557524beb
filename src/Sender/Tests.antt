-- ===== src/Sender/Tests.antt =====
-- Runs of the theorems about rcopy.c.
use selective_reject.Base.{
  ℕ, List, refl, some, true, ◌==◌, if◌then◌else◌, subst, false, arith, inl, inr, [], ◌∷◌, ◌≡◌, ltb,
  Bool-cases, some_inj,
}
use selective_reject.Machine.{Env, tick, Ends, Never, ◌>>◌, pure, safe_sendto}
use selective_reject.Receiver.Example.{sample_env, start, length-blank}
use selective_reject.Window.Example.{one_sent, one_sent-Holds, packets_sent, first_slot}
use selective_reject.Window.Defs.{Window, check_window_open}
use selective_reject.Window.Holds.{Holds, HasPacket}
use selective_reject.Pdu.Build.{frame, data_pkt}
use selective_reject.Pdu.Example.{internet_checksum}
use selective_reject.Sender.Loops.{send_packet}
use selective_reject.Sender.Sending.{send_packet-Holds}
use selective_reject.Sender.Loops.{rcopy_loop}
use selective_reject.Sender.Silence.{SendFailed}
use selective_reject.Sender.Quits.{rcopy_loop_ends}
use selective_reject.Sender.Steps.{Args, wait_on_ack, Transfer, setup_loop, wait_for_ack}
use selective_reject.Sender.Retry.{
  DeliversHeaders, AtMost, Answered, setup_loop-Answered, wait_for_ack_timeout,
}

abbrev sample_transfer : Transfer
sample_transfer = record { window = one_sent; eof = false; counter = 3; eof_seq_num = 0 }

-- A `poll` that always times out.
abbrev timing_out : Env
timing_out = record sample_env { poll_answer = λ w. some (0, 0 ∷ []) }

wait_for_ack_timeout_example :
    wait_for_ack timing_out 2 sample_transfer start
    ≡ (do
      safe_sendto timing_out (1 ∷ 1 ∷ 1 ∷ [])
      pure (wait_on_ack, record sample_transfer { counter = 4 }))
        (tick start)
wait_for_ack_timeout_example =
    wait_for_ack_timeout (omega arith) timing_out sample_transfer 1 start (0 ∷ []) refl
      one_sent-Holds (omega arith) (omega arith)

sample-DeliversHeaders : DeliversHeaders sample_env
sample-DeliversHeaders w d got = elim (Bool-cases (ltb w.clock 4)) [
  | inl early ↦ rw (← some_inj (rw early at got)) (omega arith)
  | inr later ↦ rw (← some_inj (rw later at got)) (omega arith)
]

setup_loop-Answered_example :
    Ends
      (AtMost sample_env [] (1 ∷ 2 ∷ []) 10)
      Never
      (Answered sample_env [] (1 ∷ 2 ∷ []) 10)
      (setup_loop sample_env 10 (1 ∷ 2 ∷ []) start)
setup_loop-Answered_example =
    setup_loop-Answered sample_env 10 (1 ∷ 2 ∷ []) start sample-DeliversHeaders

abbrev sending : Window
sending = record one_sent { sequence_num = 1 }

-- What was sent as packet 1, and what is to be sent as packet 2.
abbrev sample_pdus : ℕ → List ℕ
sample_pdus n =
    if n == 2 then frame internet_checksum 2 data_pkt (72 ∷ 105 ∷ []) else packets_sent n

sending-Holds : Holds sample_pdus 2 1 1 sending.buffer
sending-Holds = record {
  full = refl;
  roomy = (length-blank, (refl, tt));
  packets = λ m low high.
      let same : 1 ≡ m = omega arith in
      subst (λ (k : ℕ). HasPacket 2 sending.buffer k (sample_pdus k)) same
        (first_slot, refl, refl, refl);
}

sending_opened : check_window_open sending 2 2 ≡ some true
unfolding check_window_open
sending_opened = refl

send_packet-Holds_example :
    (after : Window) × (send_packet sample_env 2 (72 ∷ 105 ∷ []) sending start
      ≡ (do safe_sendto sample_env (frame internet_checksum 2 data_pkt (72 ∷ 105 ∷ [])); pure after)
          start)
    × Holds sample_pdus 2 after.lower after.sequence_num after.buffer
    × (after.lower ≡ 1)
    × (after.sequence_num ≡ 2)
send_packet-Holds_example =
    send_packet-Holds (omega arith) sample_env sending (72 ∷ 105 ∷ []) start length-blank
      sending-Holds (omega arith) (omega arith) sending_opened (omega arith) refl

abbrev small_args : Args
small_args = record { to_filename = []; window_size = 2; buffer_size = 2 }

rcopy_loop_ends_example :
    Ends
      (SendFailed sample_env)
      Never
      (λ _ v. Unit {0})
      (rcopy_loop sample_env 14 small_args wait_on_ack sample_transfer start)
rcopy_loop_ends_example =
    rcopy_loop_ends sample_env length-blank small_args (omega arith) 0 (λ w _. ([], refl)) 14
      wait_on_ack sample_transfer start (λ w size. ([], refl)) (omega arith) (omega arith)
      (omega arith)
      (record {
        full = refl;
        roomy = (length-blank, (length-blank, tt));
        fits = omega arith;
        small = omega arith;
      })
      (omega arith)
