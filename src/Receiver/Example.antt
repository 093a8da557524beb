-- ===== src/Receiver/Example.antt =====
-- A small transfer to run the tests with: three bytes in two packets, and an environment.
use selective_reject.Base.{
  ℕ, zero, suc, ◌≤◌, ◌≡◌, refl, arith, inr, some, false, List, [], ◌∷◌, length, drop, replicate,
  length-replicate, copy_at, length-copy_at, take-append, All-replicate, ◌∙◌, ltb, if◌then◌else◌,
  pos,
}
use selective_reject.Machine.{World, Env}
use selective_reject.Pdu.Example.{internet_checksum}
use selective_reject.Pdu.Build.{frame, data_pkt}
use selective_reject.Receiver.Slots.{Slot, empty_slot}
use selective_reject.Receiver.States.{BufferInfo}
use selective_reject.Receiver.Stored.{Stream, SlotHolds}
use selective_reject.Receiver.Delivered.{Delivered}
use selective_reject.Receiver.InTurn.{Ready, Sound}

abbrev pub sample_bytes : ℕ → List ℕ
sample_bytes zero = []
sample_bytes (suc zero) = 72 ∷ 105 ∷ []
sample_bytes (suc (suc zero)) = 33 ∷ []
sample_bytes (suc (suc (suc n))) = []

pub sample_ended : (n : ℕ) → 3 ≤ n → sample_bytes n ≡ []
sample_ended zero h = absurd (omega arith)
sample_ended (suc zero) h = absurd (omega arith)
sample_ended (suc (suc zero)) h = absurd (omega arith)
sample_ended (suc (suc (suc n))) h = refl

abbrev pub sample : Stream
sample = record { bytes = sample_bytes; last = 3; ended = sample_ended; bounded = omega arith }

abbrev pub blank : List ℕ
blank = replicate 1407 0

pub length-blank : ◌≡◌ {A = ℕ} (length blank) 1407
length-blank = length-replicate {A = ℕ} 1407 0

abbrev pub packet : ℕ → List ℕ
packet n = frame internet_checksum n data_pkt (sample_bytes n)

-- Every call succeeds; the network delivers packet 2 a few times, then packet 1.
abbrev pub sample_env : Env
sample_env = record {
  in_cksum = internet_checksum;
  garbage = blank;
  malloc_fails = λ w. false;
  write_answer = λ w bytes. some (length bytes);
  read_answer = λ w size. some [];
  poll_answer = λ w. some (0, []);
  recvfrom_answer = λ w. if ltb w.clock 4 then some (packet 2) else some (packet 1);
  sendto_fails = λ w. false;
  open_answer = λ w name. some 5;
  open_input_answer = λ w name. some 6;
  recv_answer = λ w. some [];
  send_fails = λ w. false;
  socket_answer = λ w. some 3;
  accept_answer = λ w. some 4;
  bind_fails = λ w. false;
  getsockname_fails = λ w. false;
  listen_fails = λ w. false;
  connect_fails = λ w. false;
  getaddrinfo_answer = λ w v6 name. some (replicate 16 1);
  fork_answer = λ w. some 0;
}

abbrev pub sample_info : BufferInfo
sample_info = record { window_size = 2; buffer_size = 400; file_fd = some 5 }

abbrev pub start : World
start = record { clock = 0; sent = []; file = []; input = []; received = []; sockets = [] }

pub sample-Ready : Ready sample_env sample_info
sample-Ready = record {
  room = length-blank;
  whole = λ w bytes. inr refl;
  fd = 5;
  opened = refl;
  window = omega arith;
}

pub start-Delivered : Delivered sample internet_checksum 1 start
start-Delivered = record { started = omega arith; written = refl; honest = tt }

abbrev pub empty_buffer : List Slot
empty_buffer = replicate 2 (empty_slot blank)

pub start-Sound : Sound sample_env sample_info sample 1 1 empty_buffer start
start-Sound = (
  omega arith,
  omega arith,
  start-Delivered,
  refl,
  All-replicate (SlotHolds sample) 2 {v = empty_slot blank}
      (length-blank, λ z. absurd (omega arith)),
)

-- Packet 1 stands in its slot.
abbrev pub stored_slot : Slot
stored_slot = record {
  buff = copy_at blank 0 (72 ∷ 105 ∷ []);
  pdu_len = 2;
  sequence_number = pos 1;
  valid_flag = 1;
}

abbrev pub stored_buffer : List Slot
stored_buffer = empty_slot blank ∷ stored_slot ∷ []

pos_one : (n : ℕ) → pos 1 ≡ pos n → n ≡ 1
pos_one n h = ground arith

stored_slot-SlotHolds : SlotHolds sample stored_slot
stored_slot-SlotHolds = (
  length-copy_at blank 0 (72 ∷ 105 ∷ []) (omega (arith, length-blank)) ∙ length-blank,
  λ _ n same. rw (pos_one n same) (omega arith, take-append (72 ∷ 105 ∷ []) (drop 2 blank)),
)

pub stored-Sound : Sound sample_env sample_info sample 1 1 stored_buffer start
stored-Sound = (
  omega arith,
  omega arith,
  start-Delivered,
  refl,
  ((length-blank, λ z. absurd (omega arith)), (stored_slot-SlotHolds, tt)),
)
