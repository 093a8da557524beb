-- ===== src/Sender/Quits.antt =====
-- `processFile` (rcopy.c) when nothing arrives any more.
use selective_reject.Base.{ℕ, zero, suc, ◌+◌, ◌-◌, ◌≤◌, ◌<◌, ◌≡◌, refl, arith, inl, inr, length}
use selective_reject.Machine.{World, Env, HasRoom, Ends, Ends-and_then, Never}
use selective_reject.Sender.Steps.{
  RcopyState, filename, file_ok, send_data, wait_on_ack, wait_on_eof_ack, done, Transfer, Args,
  send_eof_packet, send_setup_packet, wait_for_ack,
}
use selective_reject.Sender.Loops.{
  data_transfer, eof_loop, wait_for_eof_ack, rcopy_step, rcopy_loop,
}
use selective_reject.Sender.Setup.{first_packet, setup_pdu-first_packet}
use selective_reject.Sender.Silence.{SilentFrom, Reads, SendFailed, Sane, setup_loop_ends}
use selective_reject.Sender.GivesUp.{
  Goes, send_eof_packet_ends, eof_loop_ends, data_transfer_ends, wait_for_ack_silent,
}

module _ (env : Env) (room : HasRoom env) (args : Args) (some_window : 0 < args.window_size) (c : ℕ)
    (silent : SilentFrom c env) where
  abbrev Failed : World → Type 0
  Failed = SendFailed env

  wait_for_eof_ack_ends :
      (rounds : ℕ) (t : Transfer) (w : World)
      → c ≤ w.clock
      → 10 < rounds
      → Ends Failed Never (λ r v. r.0 ≡ done) (wait_for_eof_ack env rounds args.window_size t w)
  unfolding wait_for_eof_ack
  wait_for_eof_ack_ends rounds t w h enough =
      Ends-and_then Failed Never (λ _ v. c ≤ v.clock) _ (send_eof_packet env t.eof_seq_num w) _
        (send_eof_packet_ends env room args some_window c silent t.eof_seq_num w h)
        (λ _ v h'.
          Ends-and_then Failed Never (λ _ u. Unit {0}) _
            (eof_loop env rounds 0 t.eof_seq_num args.window_size t.window v) _
            (eof_loop_ends env room args some_window c silent rounds 0 t.eof_seq_num t.window v h'
              (omega arith) (omega arith))
            (λ _ u _. refl))

  done_ends :
      (rounds : ℕ) (t : Transfer) (w : World)
      → Ends Failed Never (λ _ v. Unit {0}) (rcopy_loop env rounds args done t w)
  unfolding rcopy_loop
  done_ends zero t w = tt
  done_ends (suc rounds) t w = tt

  wait_on_eof_ack_ends :
      (rounds : ℕ) (t : Transfer) (w : World)
      → c ≤ w.clock
      → 11 < rounds
      → Ends Failed Never (λ _ v. Unit {0}) (rcopy_loop env rounds args wait_on_eof_ack t w)
  unfolding rcopy_loop rcopy_step
  wait_on_eof_ack_ends zero t w h enough = absurd (omega arith)
  wait_on_eof_ack_ends (suc rounds) t w h enough =
      Ends-and_then Failed Never (λ r v. r.0 ≡ done) _
        (wait_for_eof_ack env rounds args.window_size t w) _
        (wait_for_eof_ack_ends rounds t w h (omega arith))
        (λ r v last. rw last (done_ends rounds r.1 v))

  -- Each turn of this state but the last adds one to the counter.
  wait_on_ack_ends :
      (rounds : ℕ) (t : Transfer) (w : World)
      → c ≤ w.clock
      → Sane args.window_size t.window
      → 10 < rounds + t.counter
      → 0 < rounds
      → Ends Failed Never (λ _ v. Unit {0}) (rcopy_loop env rounds args wait_on_ack t w)
  unfolding rcopy_loop rcopy_step
  wait_on_ack_ends zero t w h sane enough some_left = absurd (omega arith)
  wait_on_ack_ends (suc rounds) t w h sane enough some_left =
      Ends-and_then Failed Never _ _ (wait_for_ack env args.window_size t w) _
        (wait_for_ack_silent env room args some_window c silent t w h sane)
        (λ r v (h', next). elim next [
          | inl (last, _) ↦ rw last (done_ends rounds r.1 v)
          | inr (again, few, counted) ↦ rw again (
              wait_on_ack_ends rounds r.1 v h' (rw counted sane) (rw counted (omega arith))
                (omega arith))
        ])

  send_data_ends :
      (rounds : ℕ) (t : Transfer) (w : World)
      → Reads env
      → args.buffer_size ≤ 1400
      → c ≤ w.clock
      → Sane args.window_size t.window
      → 13 + (t.window.lower + args.window_size - (t.window.sequence_num + 1)) ≤ rounds
      → Ends Failed Never (λ _ v. Unit {0}) (rcopy_loop env rounds args send_data t w)
  unfolding rcopy_loop rcopy_step
  send_data_ends zero t w reads fits h sane enough = absurd (omega arith)
  send_data_ends (suc rounds) t w reads fits h sane enough =
      Ends-and_then Failed Never (λ r v. Goes env room args some_window c silent r v) _
        (data_transfer env rounds args t w) _
        (data_transfer_ends env room args some_window c silent rounds t w reads fits h sane
          (omega arith))
        (λ r v (h', sane', next). elim next [
          | inl waits ↦
              rw waits (wait_on_ack_ends rounds r.1 v h' sane' (omega arith) (omega arith))
          | inr closes ↦ rw closes (wait_on_eof_ack_ends rounds r.1 v h' (omega arith))
        ])

  -- The ten setup packets are not answered.
  filename_step_ends :
      (rounds : ℕ) (t : Transfer) (w : World)
      → length args.to_filename ≤ 1000
      → c ≤ w.clock
      → Ends Failed Never (λ r v. r.0 ≡ done) (rcopy_step env rounds args filename t w)
  unfolding rcopy_step send_setup_packet
  filename_step_ends rounds t w short h = rw (setup_pdu-first_packet env room args short w) (
      Ends-and_then Failed Never (λ r v. r ≡ done) _ _ _
        (setup_loop_ends env room args some_window c silent 10 (first_packet env args) w h)
        (λ r v last. last))

  filename_ends :
      (rounds : ℕ) (t : Transfer) (w : World)
      → length args.to_filename ≤ 1000
      → c ≤ w.clock
      → 0 < rounds
      → Ends Failed Never (λ _ v. Unit {0}) (rcopy_loop env rounds args filename t w)
  unfolding rcopy_loop
  filename_ends zero t w short h some_left = absurd (omega arith)
  filename_ends (suc rounds) t w short h some_left =
      Ends-and_then Failed Never (λ r v. r.0 ≡ done) _ (rcopy_step env rounds args filename t w) _
        (filename_step_ends rounds t w short h) (λ r v last. rw last (done_ends rounds r.1 v))

  -- When every `poll` from call number `c` on times out, and `read` does not fail, the loop of
  -- `processFile`, in any state at that call or later, returns within fourteen rounds more than the
  -- window is open for packets: it neither runs on nor meets undefined behaviour, and it exits only
  -- if a send can fail. The window is of at least one packet, with its slots and numbers within
  -- `int`; the payloads and the file name fit their arrays.
  pub rcopy_loop_ends :
      (rounds : ℕ) (state : RcopyState) (t : Transfer) (w : World)
      → Reads env
      → args.buffer_size ≤ 1400
      → length args.to_filename ≤ 1000
      → c ≤ w.clock
      → Sane args.window_size t.window
      → 14 + (t.window.lower + args.window_size - (t.window.sequence_num + 1)) ≤ rounds
      → Ends (SendFailed env) Never (λ _ v. Unit {0}) (rcopy_loop env rounds args state t w)
  unfolding rcopy_loop rcopy_step
  rcopy_loop_ends zero state t w reads fits short h sane enough = absurd (omega arith)
  rcopy_loop_ends (suc rounds) filename t w reads fits short h sane enough =
      filename_ends (suc rounds) t w short h (omega arith)
  rcopy_loop_ends (suc rounds) file_ok t w reads fits short h sane enough =
      send_data_ends rounds t w reads fits h sane (omega arith)
  rcopy_loop_ends (suc rounds) send_data t w reads fits short h sane enough =
      send_data_ends (suc rounds) t w reads fits h sane (omega arith)
  rcopy_loop_ends (suc rounds) wait_on_ack t w reads fits short h sane enough =
      wait_on_ack_ends (suc rounds) t w h sane (omega arith) (omega arith)
  rcopy_loop_ends (suc rounds) wait_on_eof_ack t w reads fits short h sane enough =
      wait_on_eof_ack_ends (suc rounds) t w h (omega arith)
  rcopy_loop_ends (suc rounds) done t w reads fits short h sane enough = done_ends (suc rounds) t w
