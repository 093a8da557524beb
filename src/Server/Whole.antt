-- ===== src/Server/Whole.antt =====
-- The server from its `main` (server.c): the parent, and the child of a request.
use selective_reject.Base.{
  ℕ, zero, suc, ◌≤◌, ◌≡◌, refl, inl, inr, false, some, none, ◌∷◌, ◌≢◌, ◌⊎◌, ◌∙◌, ap, length, List,
  [], take, ◌==◌, ==_iff, Bool-cases, Option-cases, ℤ,
}
use selective_reject.Machine.{
  World, Env, exited, Never, Ends-mapped, Ends, Ends-and_then, safe_recvfrom, safe_recvfrom-Ends,
  returned, tick, maxbuf, SocketKind, datagram,
}
use selective_reject.Net.Sockets.{create_udp_socket, open_socket, udp_server_setup, bind_socket}
use selective_reject.Pdu.Build.{flag_of, rcopy_to_server, frame}
use selective_reject.Receiver.Stored.{Stream}
use selective_reject.Receiver.Delivered.{Stops}
use selective_reject.Receiver.States.{BufferInfo}
use selective_reject.Sender.Setup.{first_packet}
use selective_reject.Sender.Steps.{Args}
use selective_reject.Server.Setup.{done, receive_initial_pdu}
use selective_reject.Server.Network.{
  DeliversFrom, FromSender, data_packet, eof_packet, other_packet,
}
use selective_reject.Server.Child.{child_step, child_loop, process_file}
use selective_reject.Server.Served.{Serves, begun, SmallSockets, process_file-Stops}
use selective_reject.Server.Parent.{fork, process_server, server_main, server_check_args}

-- Every setup packet that is delivered undamaged is the one request.
abbrev pub Requests : Env → Args → Type 0
Requests env args =
    (w : World) (d : List ℕ)
    → env.recvfrom_answer w ≡ some d
    → env.in_cksum (take maxbuf d) ≡ 0
    → flag_of (take maxbuf d) ≡ some rcopy_to_server
    → take maxbuf d ≡ first_packet env args

flag_of-frame :
    (in_cksum : List ℕ → ℕ) (n flag : ℕ) (payload d : List ℕ)
    → d ≡ frame in_cksum n flag payload
    → flag_of d ≡ some flag
unfolding flag_of
flag_of-frame in_cksum n flag payload d same = rw same refl

FromSender-flag_of :
    (stream : Stream) (in_cksum : List ℕ → ℕ) (sent : List (List ℕ)) (d : List ℕ)
    → FromSender stream in_cksum sent d
    → (flag : ℕ) × (flag_of d ≡ some flag)
FromSender-flag_of stream in_cksum sent d (data_packet n less fits same) =
    (_, flag_of-frame in_cksum n _ _ d same)
FromSender-flag_of stream in_cksum sent d (eof_packet told same) =
    (_, flag_of-frame in_cksum _ _ _ d same)
FromSender-flag_of stream in_cksum sent d (other_packet n flag payload small no_data no_eof same) =
    (flag, flag_of-frame in_cksum n flag payload d same)

-- Nothing written or sent yet.
abbrev Idle : World → Type 0
Idle v = (v.file ≡ []) × (v.sent ≡ [])

-- What a process of the server is: one that has done nothing, which the parent is at every moment, or
-- the child of a fork, which began so and has written whole packets.
abbrev pub Role : Env → Stream → World → Type 0
Role env stream v =
    Idle v ⊎ ((u : World) × Idle u × (env.fork_answer u ≡ some 0) × Stops stream env.in_cksum v)

module _ (env : Env) (args : Args) (can : Serves env args) (stream : Stream)
    (net : DeliversFrom env stream) (requests : Requests env args) (small : SmallSockets env)
    (some_data : 1 ≤ stream.last) where
  abbrev Safe : World → Type 0
  Safe v = Stops stream env.in_cksum v

  Idle-Safe : (v : World) → Idle v → Safe v
  Idle-Safe v (empty, silent) = (1, begun env args can stream v empty silent)

  module _ (S : World → Type 0) (idle : (v : World) → Idle v → S v) where
    open_socket-Idle :
        (kind : SocketKind) (w : World) → Idle w → Ends S S (λ _ v. Idle v) (open_socket env kind w)
    unfolding open_socket
    open_socket-Idle kind w q = elim (Option-cases (env.socket_answer w)) [
      | inl failed ↦ rw (failed, open_socket) (idle (tick w) q)
      | inr (fd, opened) ↦ rw (opened, open_socket) q
    ]

    udp_server_setup-Idle :
        (port : ℤ) (w : World) → Idle w → Ends S S (λ _ v. Idle v) (udp_server_setup env port w)
    unfolding udp_server_setup create_udp_socket bind_socket
    udp_server_setup-Idle port w q =
        Ends-and_then S S (λ _ v. Idle v) (λ _ v. Idle v) (open_socket env datagram w) _
          (open_socket-Idle datagram w q)
          (λ fd v q'. elim (Bool-cases (env.bind_fails v)) [
            | inl fails ↦ rw fails (idle (tick v) q')
            | inr works ↦ rw works q'
          ])

    fork-Idle :
        (w : World)
        → Idle w
        → Ends S S (λ pid v. (env.fork_answer w ≡ some pid) × Idle v) (fork env w)
    unfolding fork
    fork-Idle w q = elim (Option-cases (env.fork_answer w)) [
      | inl failed ↦ rw (failed, fork) (idle (tick w) q)
      | inr (pid, forked) ↦ rw (forked, fork) (refl, q)
    ]

  -- The first state does not go on with a packet that is no request.
  child_of_other :
      (rounds : ℕ) (pdu : List ℕ) (w : World)
      → Idle w
      → ((info : BufferInfo) (v : World)
          → receive_initial_pdu env pdu info v ≡ returned (done, info) v)
      → Ends Safe Safe (λ _ v. Safe v) (process_file env rounds pdu w)
  unfolding process_file child_loop child_step create_udp_socket
  child_of_other rounds pdu w q refused =
      Ends-and_then Safe Safe (λ _ v. Idle v) (λ _ v. Safe v) (open_socket env datagram w) _
        (open_socket-Idle Safe Idle-Safe datagram w q)
        (λ fd v q'. rw (refused _ v) (Idle-Safe v q'))

  refused_damaged :
      (pdu : List ℕ) (info : BufferInfo) (v : World)
      → (env.in_cksum pdu == 0) ≡ false
      → receive_initial_pdu env pdu info v ≡ returned (done, info) v
  unfolding receive_initial_pdu
  refused_damaged pdu info v damaged = rw damaged refl

  refused_other :
      (pdu : List ℕ) (flag : ℕ) (info : BufferInfo) (v : World)
      → env.in_cksum pdu ≡ 0
      → flag_of pdu ≡ some flag
      → (flag == rcopy_to_server) ≡ false
      → receive_initial_pdu env pdu info v ≡ returned (done, info) v
  unfolding receive_initial_pdu
  refused_other pdu flag info v good flagged other = rw (good, flagged, other) refl

  -- A child started on a datagram that was delivered.
  child-Safe :
      (rounds : ℕ) (pdu : List ℕ) (sent : List (List ℕ)) (w : World)
      → (env.in_cksum pdu ≡ 0 → FromSender stream env.in_cksum sent pdu)
      → (env.in_cksum pdu ≡ 0 → flag_of pdu ≡ some rcopy_to_server → pdu ≡ first_packet env args)
      → Idle w
      → Ends Safe Safe (λ _ v. Safe v) (process_file env rounds pdu w)
  child-Safe rounds pdu sent w from request q = elim (Bool-cases (env.in_cksum pdu == 0)) [
    | inr damaged ↦ child_of_other rounds pdu w q (λ info v. refused_damaged pdu info v damaged)
    | inl whole ↦
        let good = (==_iff (env.in_cksum pdu) 0).0 whole in
        let (flag, flagged) = FromSender-flag_of stream env.in_cksum sent pdu (from good) in
        elim (Bool-cases (flag == rcopy_to_server)) [
          | inr other ↦
              child_of_other rounds pdu w q
                (λ info v. refused_other pdu flag info v good flagged other)
          | inl asks ↦
              let same = (==_iff flag rcopy_to_server).0 asks in
              rw (request good (rw same at flagged))
                (process_file-Stops env args can stream rounds w small net some_data q.0 q.1)
        ]
  ]

  abbrev R : World → Type 0
  R v = Role env stream v

  process_server-Role :
      (rounds : ℕ) (w : World)
      → Idle w
      → Ends (Role env stream) (Role env stream) (λ _ v. Never v) (process_server env rounds w)
  unfolding process_server
  process_server-Role zero w q = inl q
  process_server-Role (suc rounds) w (empty, silent) =
      Ends-and_then R R _ (λ _ v. Never v) (safe_recvfrom env w) _
        (safe_recvfrom-Ends env R R w (λ v f s. inl (rw f empty, rw s silent)))
        (λ pdu v (d, got, cut, f, s).
          let before : Idle v = (rw f empty, rw s silent) in
          Ends-and_then R R (λ pid u. (env.fork_answer v ≡ some pid) × Idle u) (λ _ u. Never u)
            (fork env v) _ (fork-Idle R (λ x q. inl q) v before)
            (λ pid u (forked, q). elim (Bool-cases (pid == 0)) [
              | inr parent ↦ rw parent (process_server-Role rounds u q)
              | inl child ↦
                  let first : env.fork_answer v ≡ some 0 =
                    forked ∙ ap (λ (n : ℕ). some n) ((==_iff pid 0).0 child) in
                  let role : (x : World) → Safe x → R x = λ x safe. inr (v, before, first, safe) in
                  rw child (
                    Ends-and_then R R (λ _ x. Safe x) (λ _ x. Never x)
                      (process_file env rounds pdu u) _
                      (Ends-mapped Safe R Safe R (λ _ x. Safe x) (λ _ x. Safe x)
                        (process_file env rounds pdu u) role role (λ _ x safe. safe)
                        (child-Safe rounds pdu w.sent u
                          (λ good. rw cut (net w d got (rw cut at good)))
                          (λ good asks. rw cut (requests w d got (rw cut at good) (rw cut at asks)))
                          q))
                      (λ _ x safe. role x safe))
            ]))

  server_check_args-none :
      (atoi : List ℕ → ℤ) (argv : List (List ℕ))
      → length argv ≢ 2
      → length argv ≢ 3
      → server_check_args atoi argv ≡ none
  unfolding server_check_args
  server_check_args-none atoi [] two three = refl
  server_check_args-none atoi (a ∷ []) two three = refl
  server_check_args-none atoi (a ∷ b ∷ []) two three = absurd (two refl)
  server_check_args-none atoi (a ∷ b ∷ c ∷ []) two three = absurd (three refl)
  server_check_args-none atoi (a ∷ b ∷ c ∷ d ∷ rest) two three = refl

  -- One process of the server, followed from `main` through every `fork` as the parent or as the child,
  -- for any number of rounds, over a network that delivers only packets of one sender (or damaged ones
  -- that the checksum reveals) and of setup packets only the one request, which can be served: it runs
  -- without undefined behaviour and never returns. Where it has exited or is cut short, it has written
  -- and sent nothing, or it is the child that a fork of a process that had written and sent nothing has
  -- answered with 0: then what this child has written itself is the sender's first packets, whole, in
  -- order and each once, and every acknowledgement it has sent is of packets that it has written. With
  -- other than one or two arguments it exits at once. It needs nothing written or sent before, an EOF
  -- number from 1 to below INT_MAX, and sockets to whose numbers ten can be added. What another child
  -- writes to the same file is not part of it.
  pub server_main-Role :
      (atoi : List ℕ → ℤ) (argv : List (List ℕ)) (rounds : ℕ) (w : World)
      → w.file ≡ []
      → w.sent ≡ []
      → Ends
          (Role env stream)
          (Role env stream)
          (λ _ v. Never v)
          (server_main env atoi argv rounds w)
        × (length argv ≢ 2 → length argv ≢ 3 → server_main env atoi argv rounds w ≡ exited w)
  unfolding server_main
  server_main-Role atoi argv rounds w empty silent = (
    elim (Option-cases (server_check_args atoi argv)) [
      | inl rejected ↦ rw (rejected, server_main) (inl (empty, silent))
      | inr (port, accepted) ↦
          rw (accepted, server_main)
            (Ends-and_then R R (λ _ v. Idle v) (λ _ v. Never v) (udp_server_setup env port w) _
              (udp_server_setup-Idle R (λ x q. inl q) port w (empty, silent))
              (λ _ v q. process_server-Role rounds v q))
    ],
    λ two three. rw (server_check_args-none atoi argv two three, server_main) refl,
  )
