-- ===== src/Server/Delivery.antt =====
-- `manage_incoming_data` (server.c) over a network that delivers only packets of one sender: the output
-- file is at every moment a run of whole packets from the first, in order, each once.
use selective_reject.Base.{
  All, ne→==, ℕ, zero, suc, ◌+◌, ◌⊎◌, int_max, ◌≤◌, ◌≡◌, refl, sym, ◌∙◌, inl, inr, arith, Bool,
  List, [], ◌∷◌, length, length-replicate, All-replicate, ◌==◌, ==_iff, Bool-cases, pos, negsuc,
  signed32, signed32_small,
}
use selective_reject.Machine.{
  World, Env, Ends, Ends-and_then, Ends-Meets, Meets, Meets-and_then, Meets-Ends, Never, tick,
  safe_recvfrom, safe_recvfrom-Ends, malloc,
}
use selective_reject.Pdu.Build.{data_pkt, eof_flag}
use selective_reject.Poll.Kept.{poll_set-Kept}
use selective_reject.Receiver.Slots.{Slot, initialize_buffer, empty_slot}
use selective_reject.Receiver.Replies.{send_srej}
use selective_reject.Receiver.States.{BufferInfo, ServerStateData, inorder, buffer_management}
use selective_reject.Receiver.Stored.{Stream, SlotHolds}
use selective_reject.Receiver.Delivered.{
  Honest, Delivered, Delivered-same, Stops, send_srej-Delivered,
}
use selective_reject.Receiver.InTurn.{Ready}
use selective_reject.Receiver.Manage.{Tracks, buffer_management-Tracks}
use selective_reject.Server.Receive.{
  handle_pdu, accept_pdu, note_eof, receive_loop, manage_incoming_data,
}
use selective_reject.Server.Network.{
  FromSender, data_packet, eof_packet, other_packet, DeliversFrom, parse_pdu-frame,
  data_packet-Genuine, eof_packet-Genuine,
}

pos_injective : (m n : ℕ) → pos m ≡ pos n → m ≡ n
pos_injective m n h = ground arith

abbrev first_tracker : List Slot → ServerStateData
first_tracker b = record {
  state = inorder;
  expected_seq_num = 1;
  eof_seq_num = negsuc 0;
  buffer = b;
}

module _ (env : Env) (info : BufferInfo) (ready : Ready env info) (stream : Stream) where
  abbrev Keeps : Bool × ServerStateData → World → Type 0
  Keeps r v = Tracks env info stream r.1 v

  Tracks-later :
      (t : ServerStateData) (w v : World)
      → Tracks env info stream t w
      → Delivered stream env.in_cksum t.expected_seq_num v
      → Tracks env info stream t v
  Tracks-later t w v k d' =
      let (le, top, d, full, h) = k.sound in
      record { sound = (le, top, d', full, h); over = k.over; known = k.known }

  -- Storing the EOF packet's number keeps what is known.
  note_eof-Tracks :
      (t : ServerStateData) (w : World)
      → Tracks env info stream t w
      → Tracks env info stream (note_eof eof_flag stream.last t) w
  unfolding note_eof
  note_eof-Tracks t w k =
      let whole = signed32_small stream.last (omega (arith, stream.bounded)) in
      record {
        sound = k.sound;
        over = λ s.
            let (n, same, past) = k.over s in (stream.last, whole, omega (arith, k.known n same));
        known = λ n e. sym (pos_injective stream.last n (sym whole ∙ e));
      }

  module _ (rounds : ℕ) (t : ServerStateData) (w : World) where
    accept_pdu-Tracks :
        (pdu : List ℕ)
        → FromSender stream env.in_cksum w.sent pdu
        → Tracks env info stream t w
        → Ends
            (Stops stream env.in_cksum)
            (Stops stream env.in_cksum)
            Keeps
            (accept_pdu env rounds info t pdu w)
    unfolding accept_pdu note_eof
    accept_pdu-Tracks pdu (data_packet n less fits same) k =
        let (le, top, d, full, h) = k.sound in
        rw
          (
            same,
            parse_pdu-frame env.in_cksum n data_pkt (stream.bytes n)
                (omega (arith, stream.bounded)),
            signed32_small n (omega (arith, stream.bounded)),
          )
          (Ends-and_then (Stops stream env.in_cksum) (Stops stream env.in_cksum)
            (Tracks env info stream) Keeps
            (buffer_management env rounds (pos n) data_pkt (stream.bytes n) info t w) _
            (buffer_management-Tracks env info ready stream rounds t (pos n) data_pkt
              (stream.bytes n) w (λ z. absurd (omega arith))
              (data_packet-Genuine env.in_cksum stream t.expected_seq_num w top d n less fits) k)
            (λ next v k'. k'))
    accept_pdu-Tracks pdu (eof_packet told same) k =
        let (le, top, d, full, h) = k.sound in
        let whole = signed32_small stream.last (omega (arith, stream.bounded)) in
        rw
          (
            same,
            parse_pdu-frame env.in_cksum stream.last eof_flag (0 ∷ [])
                (omega (arith, stream.bounded)),
          )
          (Ends-and_then (Stops stream env.in_cksum) (Stops stream env.in_cksum)
            (Tracks env info stream) Keeps
            (buffer_management env rounds (signed32 stream.last) eof_flag (0 ∷ []) info
              (note_eof eof_flag stream.last t) w)
            _
            (buffer_management-Tracks env info ready stream rounds (note_eof eof_flag stream.last t)
              (signed32 stream.last) eof_flag (0 ∷ []) w (λ _. refl)
              (rw whole (eof_packet-Genuine env.in_cksum stream t.expected_seq_num w top d told))
              (note_eof-Tracks t w k))
            (λ next v k'. k'))
    accept_pdu-Tracks pdu (other_packet n flag payload small no_data no_eof same) k =
        rw
          (
            same,
            parse_pdu-frame env.in_cksum n flag payload small,
            ne→== flag eof_flag no_eof,
            ne→== flag data_pkt no_data,
          )
          k

    handle_pdu-Tracks :
        (pdu : List ℕ)
        → (env.in_cksum pdu ≡ 0 → FromSender stream env.in_cksum w.sent pdu)
        → Tracks env info stream t w
        → Ends
            (Stops stream env.in_cksum)
            (Stops stream env.in_cksum)
            Keeps
            (handle_pdu env rounds info t pdu w)
    unfolding handle_pdu
    handle_pdu-Tracks pdu from k = elim (Bool-cases (env.in_cksum pdu == 0)) [
      | inl good ↦ rw good (accept_pdu-Tracks pdu (from ((==_iff (env.in_cksum pdu) 0).0 good)) k)
      | inr damaged ↦
          let (le, top, d, full, h) = k.sound in
          rw damaged (
            Ends-and_then (Stops stream env.in_cksum) (Stops stream env.in_cksum) _ Keeps
              (send_srej env (pos t.expected_seq_num) w) _
              (send_srej-Delivered env ready.room stream (Stops stream env.in_cksum)
                t.expected_seq_num w t.expected_seq_num (omega arith) d)
              (λ _ v d'. Tracks-later t w v k d'))
    ]

  receive_loop-Tracks :
      (rounds : ℕ) (t : ServerStateData) (w : World)
      → DeliversFrom env stream
      → Tracks env info stream t w
      → Ends
          (Stops stream env.in_cksum)
          (Stops stream env.in_cksum)
          (Tracks env info stream)
          (receive_loop env rounds info t w)
  unfolding receive_loop
  receive_loop-Tracks zero t w net k =
      let (le, top, d, full, h) = k.sound in (t.expected_seq_num, d)
  receive_loop-Tracks (suc rounds) t w net k =
      let (le, top, d, full, h) = k.sound in
      Ends-and_then (Stops stream env.in_cksum) (Stops stream env.in_cksum) _
        (Tracks env info stream) (safe_recvfrom env w) _
        (safe_recvfrom-Ends env (Stops stream env.in_cksum) (Stops stream env.in_cksum) w (λ v f s.
          (t.expected_seq_num, Delivered-same stream env.in_cksum t.expected_seq_num w v d f s)))
        (λ pdu v (x, got, cut, f, s).
          Ends-and_then (Stops stream env.in_cksum) (Stops stream env.in_cksum) Keeps
            (Tracks env info stream) (handle_pdu env rounds info t pdu v) _
            (handle_pdu-Tracks rounds t v pdu (λ good. rw (cut, s) (net w x got (rw cut at good)))
              (Tracks-later t w v k
                (Delivered-same stream env.in_cksum t.expected_seq_num w v d f s)))
            (λ (over, next) u k'. elim (Bool-cases over) [
              | inl out ↦ rw out k'
              | inr on ↦ rw on (receive_loop-Tracks rounds next u net k')
            ]))

  begins :
      (w v : World)
      → w.file ≡ []
      → All (Honest env.in_cksum stream.last 1) w.sent
      → v.file ≡ w.file
      → v.sent ≡ w.sent
      → Delivered stream env.in_cksum 1 v
  begins w v empty silent f s = record {
    started = omega arith;
    written = f ∙ empty;
    honest = rw s silent;
  }

  abbrev FreshBuffer : List Slot → World → Type 0
  FreshBuffer b v =
      ◌≡◌ {A = ℕ} (length b) info.window_size
      × All (SlotHolds stream) b
      × Delivered stream env.in_cksum 1 v

  initialize_buffer-FreshBuffer :
      (w : World)
      → w.file ≡ []
      → All (Honest env.in_cksum stream.last 1) w.sent
      → Ends
          (Stops stream env.in_cksum)
          (Stops stream env.in_cksum)
          FreshBuffer
          (initialize_buffer env info.window_size w)
  unfolding initialize_buffer malloc
  initialize_buffer-FreshBuffer w empty silent = elim (Bool-cases (env.malloc_fails w)) [
    | inl fails ↦ rw (fails, malloc) (1, begins w (tick w) empty silent refl refl)
    | inr allocates ↦
        rw (allocates, malloc)
          (
            length-replicate info.window_size (empty_slot env.garbage),
            All-replicate (SlotHolds stream) info.window_size
                (ready.room, λ z. absurd (omega arith)),
            begins w (tick w) empty silent refl refl,
          )
  ]

  -- The transfer, where behaviour that is not defined is ruled out or allowed for.
  pub manage_incoming_data-Meets :
      (D : World → Type 0) (rounds socket_num : ℕ) (w : World)
      → (socket_num + 10 ≤ int_max) ⊎ ((v : World) → Stops stream env.in_cksum v → D v)
      → DeliversFrom env stream
      → 1 ≤ stream.last
      → w.file ≡ []
      → All (Honest env.in_cksum stream.last 1) w.sent
      → Meets
          (Stops stream env.in_cksum)
          D
          (λ _ v. Stops stream env.in_cksum v)
          (manage_incoming_data env rounds socket_num info w)
  unfolding manage_incoming_data
  manage_incoming_data-Meets D rounds socket_num w excuse net some_data empty silent =
      Meets-and_then (Stops stream env.in_cksum) D FreshBuffer (λ _ v. Stops stream env.in_cksum v)
        (initialize_buffer env info.window_size w) _
        (Ends-Meets (Stops stream env.in_cksum) D FreshBuffer
          (initialize_buffer env info.window_size w) (initialize_buffer-FreshBuffer w empty silent))
        (λ b v (full, h, d).
          poll_set-Kept env (Delivered stream env.in_cksum 1) (Stops stream env.in_cksum)
            (λ u k. Delivered-same stream env.in_cksum 1 u (tick u) k refl refl) (λ u k. (1, k)) D
            (λ _ u. Stops stream env.in_cksum u) socket_num v _
            (elim excuse [ inl small ↦ inl small | inr allowed ↦ inr (λ u k. allowed u (1, k)) ]) d
            (λ ps u d'.
              Meets-and_then (Stops stream env.in_cksum) D (Tracks env info stream)
                (λ _ x. Stops stream env.in_cksum x)
                (receive_loop env rounds info (first_tracker b) u) _
                (Ends-Meets (Stops stream env.in_cksum) D (Tracks env info stream)
                  (receive_loop env rounds info (first_tracker b) u)
                  (receive_loop-Tracks rounds (first_tracker b) u net (record {
                    sound = (omega arith, omega arith, d', full, h);
                    over = λ z. cc;
                    known = λ n z. cc;
                  })))
                (λ t x k. (t.expected_seq_num, k.sound.2))))

  -- `manage_incoming_data` for a socket number to which ten can be added, for any number of rounds, from
  -- an empty output file and with nothing sent but the answer to the setup packet, over a network that
  -- delivers packets of one sender in any order, any number of times, or damaged so that the checksum
  -- shows it: it runs without undefined behaviour, and where it has returned, has exited or is cut
  -- short, what the process has written to the output file is the sender's first packets, whole, in
  -- order and each once, and every acknowledgement sent is of packets that it has written. It needs a
  -- window of at least one packet, an open file, a stream with an EOF number from 1 to below INT_MAX,
  -- and no short write.
  pub manage_incoming_data-Stops :
      (rounds socket_num : ℕ) (w : World)
      → socket_num + 10 ≤ int_max
      → DeliversFrom env stream
      → 1 ≤ stream.last
      → w.file ≡ []
      → All (Honest env.in_cksum stream.last 1) w.sent
      → Ends
          (Stops stream env.in_cksum)
          (Stops stream env.in_cksum)
          (λ _ v. Stops stream env.in_cksum v)
          (manage_incoming_data env rounds socket_num info w)
  manage_incoming_data-Stops rounds socket_num w small net some_data empty silent =
      Meets-Ends (Stops stream env.in_cksum) (λ _ v. Stops stream env.in_cksum v)
        (manage_incoming_data env rounds socket_num info w)
        (manage_incoming_data-Meets Never rounds socket_num w (inl small) net some_data empty
          silent)
