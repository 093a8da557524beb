-- ===== src/Window/Example.antt =====
-- A window of two slots (windowing.c) with packet 1 stored and packet 2 to come.
use selective_reject.Base.{subst, ℕ, ◌≡◌, refl, arith, List, [], ◌∷◌, copy_at, pos}
use selective_reject.Receiver.Slots.{Slot, empty_slot}
use selective_reject.Receiver.Example.{blank, length-blank}
use selective_reject.Window.Defs.{Window}
use selective_reject.Window.Holds.{HasPacket, Holds}

abbrev pub packets_sent : ℕ → List ℕ
packets_sent n = n ∷ n ∷ n ∷ []

abbrev pub first_slot : Slot
first_slot = record {
  buff = copy_at blank 0 (1 ∷ 1 ∷ 1 ∷ []);
  pdu_len = 3;
  sequence_number = pos 1;
  valid_flag = 0;
}

abbrev pub one_sent : Window
one_sent = record { lower = 1; sequence_num = 2; buffer = empty_slot blank ∷ first_slot ∷ [] }

pub one_sent-Holds : Holds packets_sent 2 1 1 one_sent.buffer
one_sent-Holds = record {
  full = refl;
  roomy = (length-blank, (refl, tt));
  packets = λ m low high.
      let same : 1 ≡ m = omega arith in
      subst (λ (k : ℕ). HasPacket 2 one_sent.buffer k (packets_sent k)) same
        (first_slot, refl, refl, refl);
}
