-- ===== src/Server/Finishes.antt =====
-- `manage_incoming_data` (server.c) where every call works and the network gives what is waited for.
use selective_reject.Base.{
  ℕ, zero, suc, ◌+◌, ◌-◌, ◌%◌, ◌≤◌, ◌<◌, ◌≡◌, ◌≢◌, ◌⊎◌, refl, ap, ◌∙◌, arith, inl, inr, some, List,
  [], ◌∷◌, ◌++◌, length, take, get_elem?, All, set, replicate, length-set, ◌==◌, ==_iff, Bool-cases,
  ltb, ltb→lt, ltb→le, lt→ltb, le→ltb, if◌then◌else◌, ℤ, pos, negsuc, length-replicate,
  All-replicate, ne→==, int_max, true,
}
use selective_reject.Machine.{
  World, Env, returned, and_then, and_then_assoc, Meets, Meets-and_then, Meets-returns, Meets-final,
  Meets-mapped, final, Never, ◌>>=◌, pure, maxbuf, safe_recvfrom, malloc, tick,
}
use selective_reject.Pdu.Build.{frame, data_pkt, eof_flag}
use selective_reject.Receiver.Slots.{Slot, initialize_buffer, empty_slot}
use selective_reject.Receiver.Stored.{Stream, SlotHolds, free_slot_pos}
use selective_reject.Receiver.Delivered.{
  rr_pdu, srej_pdu, eof_ack_pdu, Honest, Delivered, Delivered-same, Delivered-reply, Delivered-next,
}
use selective_reject.Poll.Set.{no_poll_set, setup_poll_set, add_to_poll_set}
use selective_reject.Poll.Watched.{Watches, add_to_poll_set-Watches}
use selective_reject.Poll.Kept.{both-Kept}
use selective_reject.Server.Acknowledged.{Keeping, receive_loop-Keeping}
use selective_reject.Receiver.States.{BufferInfo, inorder, sending_eof_ack}
use selective_reject.Server.Setup.{done}
use selective_reject.Server.Receive.{handle_pdu, receive_loop, manage_incoming_data}
use selective_reject.Server.Network.{Contains}
use selective_reject.Server.Complete.{contents, before_past}
use selective_reject.Server.Working.{
  Works, replied, wrote, tracker, handle_pdu_damaged, handle_pdu_in_turn, handle_pdu_eof,
}

-- How many of the datagrams received the checksum has shown to be damaged.
abbrev pub damaged : (List ℕ → ℕ) → List (List ℕ) → ℕ
damaged in_cksum [] = 0
damaged in_cksum (d ∷ ds) =
    if in_cksum d == 0 then damaged in_cksum ds else suc (damaged in_cksum ds)

damaged-append :
    (in_cksum : List ℕ → ℕ) (ds : List (List ℕ)) (d : List ℕ)
    → damaged in_cksum (ds ++ d ∷ [])
      ≡ (if in_cksum d == 0 then damaged in_cksum ds else suc (damaged in_cksum ds))
damaged-append in_cksum [] d = refl
damaged-append in_cksum (x ∷ ds) d = ground (arith, damaged-append in_cksum ds d)

-- The packet that a server waits for which expects `e`.
abbrev pub awaited : (List ℕ → ℕ) → Stream → ℕ → List ℕ
awaited in_cksum stream e =
    if ltb e stream.last
    then frame in_cksum e data_pkt (stream.bytes e)
    else frame in_cksum stream.last eof_flag (0 ∷ [])

awaited_eof :
    (in_cksum : List ℕ → ℕ) (stream : Stream) (e : ℕ)
    → stream.last ≤ e
    → awaited in_cksum stream e ≡ frame in_cksum stream.last eof_flag (0 ∷ [])
awaited_eof in_cksum stream e past = rw (le→ltb e stream.last past) refl

awaited_data :
    (in_cksum : List ℕ → ℕ) (stream : Stream) (e : ℕ)
    → e < stream.last
    → awaited in_cksum stream e ≡ frame in_cksum e data_pkt (stream.bytes e)
awaited_data in_cksum stream e inside = rw (lt→ltb e stream.last inside) refl

-- Before it has acknowledged the EOF packet, the network gives a server that expects packet `e` this
-- packet, or one that the checksum shows to be damaged, and at most `k` of those. It need not give
-- anything later.
abbrev pub Gives : Env → Stream → ℕ → Type 0
Gives env stream k =
    (w : World) (e : ℕ)
    → e ≤ stream.last
    → Delivered stream env.in_cksum e w
    → (d : List ℕ) × (env.recvfrom_answer w ≡ some d)
      × ((take maxbuf d ≡ awaited env.in_cksum stream e) × (env.in_cksum (take maxbuf d) ≡ 0)
          ⊎ (env.in_cksum (take maxbuf d) ≢ 0) × (damaged env.in_cksum w.received < k))

get_elem?-last : (xs : List (List ℕ)) (d : List ℕ) → get_elem? (xs ++ d ∷ []) (length xs) ≡ some d
get_elem?-last [] d = refl
get_elem?-last (x ∷ xs) d = get_elem?-last xs d

module _ (env : Env) (works : Works env) (info : BufferInfo) (fd : ℕ)
    (opened : info.file_fd ≡ some fd) (some_window : 0 < info.window_size) (stream : Stream)
    (some_data : 1 ≤ stream.last) (k : ℕ) (net : Gives env stream k) where
  abbrev took : World → List ℕ → World
  took w d = record w { clock = w.clock + 1; received = w.received ++ take maxbuf d ∷ [] }

  recvfrom-took :
      (d : List ℕ) (w : World)
      → env.recvfrom_answer w ≡ some d
      → safe_recvfrom env w ≡ returned (take maxbuf d) (took w d)
  unfolding safe_recvfrom
  recvfrom-took d w e = rw (e, safe_recvfrom) refl

  -- The whole stream is in the file, and its EOF packet was acknowledged.
  abbrev Complete : World → Type 0
  Complete v = Keeping (contents stream) (eof_ack_pdu env.in_cksum (pos stream.last)) v

  abbrev Expects : ℕ → World → Type 0
  Expects e v = Delivered stream env.in_cksum e v

  -- A round on the packet that is waited for, and the rounds behind it.
  receiving_awaited :
      (rounds e : ℕ) (eof : ℤ) (buffer : List Slot) (w : World) (pdu : List ℕ)
      → e ≤ stream.last
      → length buffer ≡ info.window_size
      → All (SlotHolds stream) buffer
      → Expects e w
      → pdu ≡ awaited env.in_cksum stream e
      → env.in_cksum pdu ≡ 0
      → ((freed : List Slot) (v : World)
          → e < stream.last
          → length freed ≡ info.window_size
          → All (SlotHolds stream) freed
          → Expects (suc e) v
          → v.received ≡ w.received
          → Meets Complete Complete
              (λ _ u. Complete u)
              (receive_loop env rounds info (tracker inorder (suc e) eof freed) v))
      → Meets Complete Complete
          (λ _ v. Complete v)
          ((do
            (over, next) ← handle_pdu env rounds info (tracker inorder e eof buffer) pdu
            if over then pure next else receive_loop env rounds info next)
            w)
  receiving_awaited rounds e eof buffer w pdu top full held at same good on =
      elim (Bool-cases (ltb e stream.last)) [
        | inl inside ↦
            let less = ltb→lt e stream.last inside in
            let (s, free, found, held') = free_slot_pos some_window buffer full stream e held in
            let freed = set buffer (e % info.window_size) (record s { valid_flag = 0 }) in
            let answer = rr_pdu env.in_cksum (pos (suc e)) in
            rw
              (handle_pdu_in_turn env works rounds info fd opened stream buffer freed w pdu good e
                eof less (same ∙ awaited_data env.in_cksum stream e less) free)
              (on freed (replied (wrote w (stream.bytes e)) answer) less
                (length-set buffer (e % info.window_size) (record s { valid_flag = 0 }) ∙ full)
                held'
                (Delivered-reply stream env.in_cksum (suc e) (wrote w (stream.bytes e))
                  (replied (wrote w (stream.bytes e)) answer) answer
                  (Delivered-next stream env.in_cksum e w (wrote w (stream.bytes e)) at refl refl)
                  (inl (suc e, omega arith, inl refl)) refl refl)
                refl)
        | inr over ↦
            let last : stream.last ≡ e = omega (arith, ltb→le e stream.last over) in
            let answer = eof_ack_pdu env.in_cksum (pos stream.last) in
            rw
              (handle_pdu_eof env works rounds info fd opened stream buffer buffer w pdu good e eof
                last (same ∙ awaited_eof env.in_cksum stream e (omega (arith, last))))
              (receive_loop-Keeping env (contents stream) answer rounds info
                (tracker sending_eof_ack (suc stream.last) (pos stream.last) buffer)
                (replied w answer) refl
                (
                  at.written ∙ before_past stream e some_data (omega (arith, last)),
                  (length w.sent, get_elem?-last w.sent answer),
                ))
      ]

  receiving :
      (rounds e : ℕ) (eof : ℤ) (buffer : List Slot) (w : World)
      → e ≤ stream.last
      → length buffer ≡ info.window_size
      → All (SlotHolds stream) buffer
      → Expects e w
      → suc (stream.last - e + (k - damaged env.in_cksum w.received)) ≤ rounds
      → Meets Complete Complete
          (λ _ v. Complete v)
          (receive_loop env rounds info (tracker inorder e eof buffer) w)
  unfolding receive_loop
  receiving zero e eof buffer w top full held at enough = absurd (omega arith)
  receiving (suc rounds) e eof buffer w top full held at enough =
      let (d, got, which) = net w e top at in
      let count = damaged-append env.in_cksum w.received (take maxbuf d) in
      let heard = Delivered-same stream env.in_cksum e w (took w d) at refl refl in
      elim which [
        | inr (bad, few) ↦
            let shown = ne→== (env.in_cksum (take maxbuf d)) 0 bad in
            let answer = srej_pdu env.in_cksum (pos e) in
            rw
              (
                recvfrom-took d w got,
                handle_pdu_damaged env works rounds info (tracker inorder e eof buffer)
                    (take maxbuf d) (took w d) shown,
              )
              (receiving rounds e eof buffer (replied (took w d) answer) top full held
                (Delivered-reply stream env.in_cksum e (took w d) (replied (took w d) answer) answer
                  heard (inl (e, omega arith, inr refl)) refl refl)
                (omega (arith, few, rw shown at count)))
        | inl (same, good) ↦
            let right = (==_iff (env.in_cksum (take maxbuf d)) 0).1 good in
            let kept = rw right at count in
            rw (recvfrom-took d w got) (
              receiving_awaited rounds e eof buffer (took w d) (take maxbuf d) top full held heard
                same good
                (λ freed v less full' held' at' as_before.
                  receiving rounds (suc e) eof freed v (omega arith) full' held' at'
                    (omega (arith, kept, ap (damaged env.in_cksum) as_before))))
      ]

  -- The poll set is set up, and nothing written or sent.
  begins-Expects :
      (socket_num : ℕ) (w : World)
      → socket_num + 10 ≤ int_max
      → Expects 1 w
      → Meets Complete Complete
          (λ _ v. Expects 1 v)
          ((setup_poll_set env no_poll_set >>= add_to_poll_set env socket_num) w)
  begins-Expects socket_num w small at =
      Meets-returns (Expects 1) (Expects 1) Complete Complete
        (λ v. (u : World) × (env.malloc_fails u ≡ true)) Never (λ _ v. Expects 1 v)
        (λ ps v. Watches socket_num ps)
        ((setup_poll_set env no_poll_set >>= add_to_poll_set env socket_num) w)
        (both-Kept env (Expects 1) (Expects 1)
          (λ v h. Delivered-same stream env.in_cksum 1 v (tick v) h refl refl) (λ v h. h) socket_num
          w at)
        (add_to_poll_set-Watches env socket_num w small)
        (λ v (u, fails). cc (fails, works.allocates u)) (λ v never. never)

  pub manage_incoming_data-Complete :
      (rounds socket_num : ℕ) (w : World)
      → socket_num + 10 ≤ int_max
      → w.file ≡ []
      → All (Honest env.in_cksum stream.last 1) w.sent
      → stream.last + k ≤ rounds
      → Meets Complete Complete
          (λ s v. (s ≡ done) × Complete v)
          (manage_incoming_data env rounds socket_num info w)
  unfolding manage_incoming_data initialize_buffer malloc
  manage_incoming_data-Complete rounds socket_num w small empty silent enough =
      let buffer = replicate info.window_size (empty_slot env.garbage) in
      rw
        (
          works.allocates w,
          malloc,
          ← and_then_assoc (setup_poll_set env no_poll_set (tick w))
              (add_to_poll_set env socket_num)
              (λ ps v.
                and_then (receive_loop env rounds info (tracker inorder 1 (negsuc 0) buffer) v)
                  (λ t u. returned done u)),
        )
        (Meets-and_then Complete Complete (λ _ v. Expects 1 v) (λ s v. (s ≡ done) × Complete v)
          ((setup_poll_set env no_poll_set >>= add_to_poll_set env socket_num) (tick w)) _
          (begins-Expects socket_num (tick w) small
            (record { started = omega arith; written = empty; honest = silent }))
          (λ ps v at.
            Meets-and_then Complete Complete (λ _ u. Complete u) (λ s u. (s ≡ done) × Complete u)
              (receive_loop env rounds info (tracker inorder 1 (negsuc 0) buffer) v) _
              (receiving rounds 1 (negsuc 0) buffer v some_data
                (length-replicate info.window_size (empty_slot env.garbage))
                (All-replicate (SlotHolds stream) info.window_size
                  (works.room, λ z. absurd (omega arith)))
                at (omega arith))
              (λ t u whole. (refl, whole))))

  -- Where every call works, and the network gives, until the EOF packet is acknowledged, each time the
  -- packet that is expected, but for at most `k` datagrams that the checksum shows to be damaged:
  -- `manage_incoming_data`, for at least as many rounds as the stream has packets and `k` more, has written the
  -- whole stream to the output file, byte by byte, and has acknowledged its EOF packet; and this is so
  -- wherever it then stands, for whatever arrives or does not arrive behind the acknowledgement. It
  -- needs a socket number to which ten can be added, a window of at least one packet, an open and empty
  -- file, nothing sent but the answer to the setup packet, and an EOF number from 1 to below INT_MAX.
  pub manage_incoming_data_arrives :
      (rounds socket_num : ℕ) (w : World)
      → socket_num + 10 ≤ int_max
      → w.file ≡ []
      → All (Honest env.in_cksum stream.last 1) w.sent
      → stream.last + k ≤ rounds
      → ((final (manage_incoming_data env rounds socket_num info w)).file ≡ contents stream)
        × Contains
            (eof_ack_pdu env.in_cksum (pos stream.last))
            (final (manage_incoming_data env rounds socket_num info w)).sent
  manage_incoming_data_arrives rounds socket_num w small empty silent enough =
      Meets-final Complete (manage_incoming_data env rounds socket_num info w) (
        Meets-mapped Complete Complete Complete Complete (λ s v. (s ≡ done) × Complete v)
          (λ _ v. Complete v) (manage_incoming_data env rounds socket_num info w) (λ v h. h)
          (λ v h. h) (λ s v h. h.1)
          (manage_incoming_data-Complete rounds socket_num w small empty silent enough))
