-- ===== src/Sender/Silence.antt =====
-- rcopy.c gives up: from whatever state, once nothing arrives any more, it ends.
use selective_reject.Base.{
  ℕ, zero, suc, ◌+◌, ◌%◌, ◌≤◌, ◌<◌, ◌≡◌, refl, arith, inl, inr, true, some, List, length,
  length-set, length-copy_at, copy_at, set, All, All-set, All-get_elem?, Bool-cases, lt→ltb, pos,
  negsuc, int_max,
}
use native.Mathlib.Numerals.{add-one}
use selective_reject.Machine.{
  World, Env, HasRoom, Ends, Ends-and_then, Never, returned, safe_sendto, tick,
}
use selective_reject.Pdu.Build.{frame, data_pkt, create_window_packet}
use selective_reject.Pdu.Layout.{sent_create_pdu}
use selective_reject.Poll.{poll_call}
use selective_reject.Receiver.Slots.{Slot}
use selective_reject.Receiver.Stored.{slot_at_pos}
use selective_reject.Window.Defs.{Window, get_next_seq_num, window_store_packet}
use selective_reject.Sender.Steps.{done, Args, setup_loop}
use selective_reject.Sender.Loops.{drain, send_packet}

-- From call number `c` on every `poll` times out.
abbrev pub SilentFrom : ℕ → Env → Type 0
SilentFrom c env =
    (w : World) → c ≤ w.clock → (revents : List ℕ) × (env.poll_answer w ≡ some (0, revents))

-- `read` does not fail.
abbrev pub Reads : Env → Type 0
Reads env = (w : World) (size : ℕ) → (bytes : List ℕ) × (env.read_answer w size ≡ some bytes)

-- The only way to exit.
abbrev pub SendFailed : Env → World → Type 0
SendFailed env v = (u : World) × (env.sendto_fails u ≡ true)

-- A window's buffer has its slots, each with room for a datagram, and the numbers are within `int`.
pub record Sane (window_size : ℕ) (win : Window) : Type 0 where
  pub full : length win.buffer ≡ window_size
  pub roomy : All (λ (s : Slot). ◌≡◌ {A = ℕ} (length s.buff) 1407) win.buffer
  pub fits : win.lower + window_size ≤ int_max
  pub small : win.sequence_num < int_max

module _ (env : Env) (room : HasRoom env) (args : Args) (some_window : 0 < args.window_size) (c : ℕ)
    (silent : SilentFrom c env) where
  abbrev Failed : World → Type 0
  Failed = SendFailed env

  pub send_ends :
      (d : List ℕ) (w : World)
      → c ≤ w.clock
      → Ends Failed Never (λ _ v. c ≤ v.clock) (safe_sendto env d w)
  unfolding safe_sendto
  send_ends d w h = elim (Bool-cases (env.sendto_fails w)) [
    | inl e ↦ rw e (w, e)
    | inr e ↦ rw e (omega arith)
  ]

  pub poll_call_silent : (w : World) → c ≤ w.clock → poll_call env w ≡ returned (negsuc 0) (tick w)
  unfolding poll_call
  poll_call_silent w h = let (revents, e) = silent w h in rw (e, poll_call) refl

  pub setup_loop_ends :
      (rounds : ℕ) (pdu : List ℕ) (w : World)
      → c ≤ w.clock
      → Ends Failed Never (λ r v. r ≡ done) (setup_loop env rounds pdu w)
  unfolding setup_loop
  setup_loop_ends zero pdu w h = refl
  setup_loop_ends (suc rounds) pdu w h =
      Ends-and_then Failed Never (λ _ v. c ≤ v.clock) (λ r v. r ≡ done) (safe_sendto env pdu w) _
        (send_ends pdu w h)
        (λ _ v h'. rw (poll_call_silent v h') (setup_loop_ends rounds pdu (tick v) (omega arith)))

  pub drain_silent :
      (rounds : ℕ) (win : Window) (w : World)
      → c ≤ w.clock
      → 0 < rounds
      → drain env rounds win args.window_size w ≡ returned win (tick w)
  unfolding drain
  drain_silent zero win w h more = absurd (omega arith)
  drain_silent (suc rounds) win w h more = rw (poll_call_silent w h) refl

  -- A packet is stored in its slot.
  store-Sane :
      (win : Window) (n : ℕ) (pdu : List ℕ)
      → Sane args.window_size win
      → length pdu ≤ 1407
      → (after : Window) × (window_store_packet win n pdu args.window_size ≡ some after)
        × Sane args.window_size after
        × (after.lower ≡ win.lower)
        × (after.sequence_num ≡ win.sequence_num)
  unfolding window_store_packet
  store-Sane win n pdu sane fits =
      let i = n % args.window_size in
      let (s, at, got) = slot_at_pos some_window win.buffer sane.full n in
      let room_there =
        All-get_elem? (λ (x : Slot). ◌≡◌ {A = ℕ} (length x.buff) 1407) win.buffer i sane.roomy
          got in
      let new : Slot = record {
        buff = copy_at s.buff 0 pdu;
        pdu_len = length pdu;
        sequence_number = pos n;
        valid_flag = 0;
      } in
      (
        record win { buffer = set win.buffer i new },
        ground (arith, at, room_there),
        record {
          full = omega (arith, length-set win.buffer i new, sane.full);
          roomy =
              All-set (λ (x : Slot). ◌≡◌ {A = ℕ} (length x.buff) 1407) win.buffer i
                (omega (arith, room_there, length-copy_at s.buff 0 pdu)) sane.roomy;
          fits = sane.fits;
          small = sane.small;
        },
        refl,
        refl,
      )

  pub send_packet_ends :
      (b : List ℕ) (win : Window) (w : World)
      → Sane args.window_size win
      → length b ≤ 1400
      → suc win.sequence_num < int_max
      → c ≤ w.clock
      → Ends Failed Never
          (λ after v.
            Sane args.window_size after
            × (after.lower ≡ win.lower)
            × (after.sequence_num ≡ suc win.sequence_num)
            × (c ≤ v.clock))
          (send_packet env args.window_size b win w)
  unfolding send_packet get_next_seq_num create_window_packet
  send_packet_ends b win w sane fits small h =
      let n = suc win.sequence_num in
      let next : Window = record win { sequence_num = n } in
      let pdu = frame env.in_cksum n data_pkt b in
      let (made_in, made, front) =
        sent_create_pdu env.in_cksum env.garbage n data_pkt b (omega (arith, room)) (omega arith) in
      let (after, stored, sane', low, number) =
        store-Sane next n pdu
          (record { full = sane.full; roomy = sane.roomy; fits = sane.fits; small = small })
          (omega (arith, fits)) in
      rw (lt→ltb win.sequence_num int_max sane.small, add-one win.sequence_num, made, front, stored)
        (Ends-and_then Failed Never (λ _ v. c ≤ v.clock) _ (safe_sendto env pdu w) _
          (send_ends pdu w h) (λ _ v h'. (sane', low, number, h')))
