-- ===== src/Transfer/Example.antt =====
-- A transfer of three bytes from rcopy.c to server.c, with a network that carries it to its end.
use selective_reject.Base.{
  ◌≤◌, ◌≢◌, ◌⊎◌, true, ℕ, zero, suc, ◌≡◌, refl, sym, ap, ◌∙◌, subst, arith, inl, inr, some,
  some_inj, List, [], ◌∷◌, ◌++◌, length, take, drop, get_elem?, codes, ltb, ◌==◌, if◌then◌else◌,
  Bool-cases, pos,
}
use selective_reject.Machine.{
  World, Env, maxbuf, malloc, safe_sendto, safe_recvfrom, read, s_calloc,
}
use selective_reject.Pdu.Example.{internet_checksum, internet_checksum-Verifies}
use selective_reject.Pdu.Build.{
  rr_packet, srej_packet, eof_ack, frame, data_pkt, eof_flag, server_to_rcopy, create_pdu,
  create_window_packet, flag_of, acked_num_of,
}
use selective_reject.Poll.{poll_call, first_ready}
use selective_reject.Poll.Set.{setup_poll_set, add_to_poll_set, store_fd}
use selective_reject.Receiver.Slots.{initialize_buffer, slot_at}
use selective_reject.Receiver.Delivered.{rr_pdu, eof_ack_pdu}
use selective_reject.Receiver.Example.{sample_env, length-blank, start}
use selective_reject.Window.Defs.{
  check_window_open, window_store_packet, get_next_seq_num, process_rr_packet, validate_loop,
  validate_buffer,
}
use selective_reject.Sender.Steps.{
  Args, setup_pdu, setup_loop, send_setup_packet, send_eof_packet, answer_packet,
  process_rr_or_srej, all_acked, after_ack, wait_for_ack,
}
use selective_reject.Sender.Loops.{
  drain, send_packet, end_of_file, data_transfer, eof_loop, wait_for_eof_ack, rcopy_step,
  rcopy_loop, send_file,
}
use selective_reject.Sender.Main.{open_input, rcopy_process_file}
use selective_reject.Sender.Setup.{first_packet}
use selective_reject.Sender.Account.{Acks, Startable, ReadsFile}
use selective_reject.Server.Network.{Contains}
use selective_reject.Server.Example.{was_sent, was_sent-Contains}
use selective_reject.Server.Served.{Serves}
use selective_reject.Transfer.Link.{Caller, rcopy_task, so_far, Carries}

abbrev pub sample_file : List ℕ
sample_file = 72 ∷ 105 ∷ 33 ∷ []

abbrev pub sample_args : Args
sample_args = record { to_filename = codes "copy"; window_size = 2; buffer_size = 2 }

abbrev response : List ℕ
response = frame internet_checksum 0 server_to_rcopy (0 ∷ [])

abbrev third_rr : List ℕ
third_rr = rr_pdu internet_checksum (pos 3)

abbrev data_packet_of : ℕ → List ℕ → List ℕ
data_packet_of n bytes = frame internet_checksum n data_pkt bytes

abbrev end_packet : List ℕ
end_packet = frame internet_checksum 3 eof_flag (0 ∷ [])

-- rcopy's side: the file, the answer to the setup packet, then the RR for packet 3, then the
-- acknowledgement of the EOF packet.
abbrev pub rcopy_kernel : Env
rcopy_kernel = record sample_env {
  read_answer = λ w size. some (drop (length w.input) sample_file);
  poll_answer = λ w.
      if ltb w.clock 8
      then some (1, 0 ∷ 0 ∷ 0 ∷ 1 ∷ [])
      else if ltb w.clock 12
      then some (0, [])
      else some (1, 0 ∷ 0 ∷ 0 ∷ 1 ∷ []);
  recvfrom_answer = λ w.
      if ltb w.clock 8
      then some response
      else if ltb w.clock 16
      then some third_rr
      else some (eof_ack_pdu internet_checksum (pos 3));
}

-- The server's side.
abbrev pub server_env : Env
server_env = record sample_env {
  recvfrom_answer = λ w.
      if was_sent response w.sent
      then (if was_sent third_rr w.sent
          then some end_packet
          else if length w.file == 0
          then some (data_packet_of 1 (72 ∷ 105 ∷ []))
          else some (data_packet_of 2 (33 ∷ [])))
      else some [];
}

abbrev pub caller : Caller
caller = record {
  kernel = rcopy_kernel;
  args = sample_args;
  file = sample_file;
  from_file = codes "file";
  socket_num = 3;
  start = start;
}

drop-append : (xs ys : List ℕ) → drop (length xs) (xs ++ ys) ≡ ys
drop-append [] ys = refl
drop-append (x ∷ xs) ys = drop-append xs ys

pub reads_sample : ReadsFile rcopy_kernel sample_file
reads_sample w size rest split = (
  drop (length w.input) sample_file,
  refl,
  ap (take size) (ap (drop (length w.input)) (sym split) ∙ drop-append w.input rest),
)

pub caller-Startable : Startable (rcopy_task server_env caller)
caller-Startable = record {
  room = length-blank;
  short = omega arith;
  some_window = omega arith;
  some_bytes = omega arith;
  small = omega arith;
  reads = reads_sample;
  few = omega arith;
}

pub server_env-Serves : Serves server_env sample_args
server_env-Serves = record {
  law = internet_checksum-Verifies;
  room = length-blank;
  whole = λ w bytes. inr refl;
  fd = 5;
  opens = λ w. refl;
  named = (λ z. cc, (λ z. cc, (λ z. cc, (λ z. cc, tt))));
  short = omega arith;
  some_window = omega arith;
  window = omega arith;
  buffer = omega arith;
}

-- What rcopy has sent and received when it has sent its data, and when it has sent the EOF packet.
early : World
early = so_far server_env caller 12 9

late : World
late = so_far server_env caller 16 9

early_lem :
    (early.sent
      ≡ first_packet server_env sample_args
        ∷ data_packet_of 1 (72 ∷ 105 ∷ [])
        ∷ data_packet_of 2 (33 ∷ [])
        ∷ [])
    × (early.received ≡ response ∷ [])
unfolding early rcopy_process_file open_input setup_poll_set s_calloc add_to_poll_set store_fd
    send_file initialize_buffer malloc rcopy_loop rcopy_step send_setup_packet setup_pdu create_pdu
    setup_loop safe_sendto poll_call first_ready safe_recvfrom flag_of data_transfer
    check_window_open read send_packet get_next_seq_num create_window_packet window_store_packet
    slot_at drain wait_for_ack
early_lem = (refl, refl)

late_lem :
    (late.sent
      ≡ first_packet server_env sample_args
        ∷ data_packet_of 1 (72 ∷ 105 ∷ [])
        ∷ data_packet_of 2 (33 ∷ [])
        ∷ end_packet
        ∷ [])
    × (late.received ≡ response ∷ third_rr ∷ [])
unfolding late rcopy_process_file open_input setup_poll_set s_calloc add_to_poll_set store_fd
    send_file initialize_buffer malloc rcopy_loop rcopy_step send_setup_packet setup_pdu create_pdu
    setup_loop safe_sendto poll_call first_ready safe_recvfrom flag_of data_transfer
    check_window_open read send_packet get_next_seq_num create_window_packet window_store_packet
    slot_at drain wait_for_ack process_rr_or_srej answer_packet process_rr_packet acked_num_of
    validate_loop validate_buffer after_ack all_acked end_of_file wait_for_eof_ack send_eof_packet
    eof_loop
late_lem = (refl, refl)

-- What is in a list of one or two datagrams.
Contains-cons : (x r : List ℕ) (rs : List (List ℕ)) → Contains x (r ∷ rs) → (r ≡ x) ⊎ Contains x rs
Contains-cons x r rs (zero, at) = inl (some_inj at)
Contains-cons x r rs (suc i, at) = inr (i, at)

Contains-nil : (x : List ℕ) → ¬ Contains x []
Contains-nil x (i, at) = cc

Contains-same : (r x : List ℕ) (ds : List (List ℕ)) → r ≡ x → Contains r ds → Contains x ds
Contains-same r x ds same there = subst (λ (y : List ℕ). Contains y ds) same there

early_known :
    (sent : List (List ℕ)) (x : List ℕ)
    → was_sent response sent ≡ true
    → Contains x early.received
    → Contains x sent
early_known sent x answered there =
    elim (Contains-cons x response []
      (subst (λ (ds : List (List ℕ)). Contains x ds) early_lem.1 there)) [
        | inl same ↦ Contains-same response x sent same (was_sent-Contains response sent answered)
        | inr none_there ↦ absurd (Contains-nil x none_there)
      ]

late_known :
    (sent : List (List ℕ)) (x : List ℕ)
    → was_sent response sent ≡ true
    → was_sent third_rr sent ≡ true
    → Contains x late.received
    → Contains x sent
late_known sent x answered asked there =
    elim (Contains-cons x response (third_rr ∷ [])
      (subst (λ (ds : List (List ℕ)). Contains x ds) late_lem.1 there)) [
        | inl same ↦ Contains-same response x sent same (was_sent-Contains response sent answered)
        | inr more ↦ elim (Contains-cons x third_rr [] more) [
          | inl same ↦ Contains-same third_rr x sent same (was_sent-Contains third_rr sent asked)
          | inr none_there ↦ absurd (Contains-nil x none_there)
        ]
      ]

early_sent :
    (i : ℕ) (d : List ℕ)
    → get_elem?
        (first_packet server_env sample_args
          ∷ data_packet_of 1 (72 ∷ 105 ∷ [])
          ∷ data_packet_of 2 (33 ∷ [])
          ∷ [])
        i
      ≡ some d
    → Contains d early.sent
early_sent i d at = (i, ap (λ (ds : List (List ℕ)). get_elem? ds i) early_lem.0 ∙ at)

late_sent : Contains end_packet late.sent
late_sent = (3, ap (λ (ds : List (List ℕ)). get_elem? ds 3) late_lem.0 ∙ refl)

-- A packet of the network above is one that rcopy has sent by then.
carried :
    (w : World) (d packet : List ℕ) (c : ℕ)
    → server_env.recvfrom_answer w ≡ some d
    → server_env.recvfrom_answer w ≡ some packet
    → take maxbuf packet ≡ packet
    → Contains packet (so_far server_env caller c 9).sent
    → Contains (take maxbuf d) (so_far server_env caller c 9).sent
carried w d packet c got is fits there =
    Contains-same packet (take maxbuf d) (so_far server_env caller c 9).sent
      (sym fits ∙ ap (take maxbuf) (some_inj (sym is ∙ got))) there

pub sample_Carries : Carries server_env caller
unfolding early late
sample_Carries w d got good = elim (Bool-cases (was_sent response w.sent)) [
  | inr silent ↦
      let empty : [] ≡ d = some_inj (rw silent at got) in
      let bad : ◌≡◌ {A = ℕ} 65535 0 =
        subst (λ (y : List ℕ). internet_checksum (take maxbuf y) ≡ 0) (sym empty) good in
      absurd (omega arith)
  | inl answered ↦ elim (Bool-cases (was_sent third_rr w.sent)) [
    | inl asked ↦ (
      16,
      9,
      carried w d end_packet 16 got (rw (answered, asked) refl) refl late_sent,
      λ x there _. late_known w.sent x answered asked there,
    )
    | inr unasked ↦ elim (Bool-cases (length w.file == 0)) [
      | inl none_yet ↦ (
        12,
        9,
        carried w d (data_packet_of 1 (72 ∷ 105 ∷ [])) 12 got
            (rw (answered, unasked, none_yet) refl) refl
            (early_sent 1 (data_packet_of 1 (72 ∷ 105 ∷ [])) refl),
        λ x there _. early_known w.sent x answered there,
      )
      | inr one ↦ (
        12,
        9,
        carried w d (data_packet_of 2 (33 ∷ [])) 12 got (rw (answered, unasked, one) refl) refl
            (early_sent 2 (data_packet_of 2 (33 ∷ [])) refl),
        λ x there _. early_known w.sent x answered there,
      )
    ]
  ]
]

-- rcopy's network has an RR or SREJ only for packet 3.
Deliverable : List ℕ → Type 0
Deliverable d =
    (7 ≤ length (take maxbuf d))
    × ((flag : ℕ)
        → flag_of (take maxbuf d) ≡ some flag
        → (flag ≡ rr_packet) ⊎ (flag ≡ srej_packet)
        → (n : ℕ) × (acked_num_of (take maxbuf d) ≡ some n) × (n ≤ 3))

neither :
    (flag other : ℕ)
    → some other ≡ some flag
    → other ≢ rr_packet
    → other ≢ srej_packet
    → ¬ ((flag ≡ rr_packet) ⊎ (flag ≡ srej_packet))
neither flag other same no_rr no_srej (inl e) = no_rr (some_inj same ∙ e)
neither flag other same no_rr no_srej (inr e) = no_srej (some_inj same ∙ e)

response-Deliverable : Deliverable response
unfolding Deliverable flag_of
response-Deliverable = (
  omega arith,
  λ flag same which. absurd (
      neither flag server_to_rcopy same (λ z. absurd (omega arith)) (λ z. absurd (omega arith))
        which),
)

third_rr-Deliverable : Deliverable third_rr
unfolding Deliverable acked_num_of
third_rr-Deliverable = (omega arith, λ flag same which. (3, refl, omega arith))

eof_ack-Deliverable : Deliverable (eof_ack_pdu internet_checksum (pos 3))
unfolding Deliverable flag_of
eof_ack-Deliverable = (
  omega arith,
  λ flag same which.
      absurd
        (neither flag eof_ack same (λ z. absurd (omega arith)) (λ z. absurd (omega arith)) which),
)

answers-Deliverable :
    (w : World) (d : List ℕ) → rcopy_kernel.recvfrom_answer w ≡ some d → Deliverable d
answers-Deliverable w d got = elim (Bool-cases (ltb w.clock 8)) [
  | inl first ↦ subst Deliverable (some_inj (rw first at got)) response-Deliverable
  | inr later ↦ elim (Bool-cases (ltb w.clock 16)) [
    | inl second ↦ subst Deliverable (some_inj (rw (later, second) at got)) third_rr-Deliverable
    | inr third ↦ subst Deliverable (some_inj (rw (later, third) at got)) eof_ack-Deliverable
  ]
]

pub caller-Acks : Acks (rcopy_task server_env caller)
unfolding Deliverable
caller-Acks = record {
  top = 3;
  some_top = omega arith;
  fits = omega arith;
  headers = λ w d got. (answers-Deliverable w d got).0;
  numbered = λ w d flag got good. (answers-Deliverable w d got).1 flag;
}
