-- ===== src/Server/Served.antt =====
-- A child's whole run (server.c): from the setup packet of `rcopy` to the end of the transfer.
use selective_reject.Base.{
  ℕ, ◌+◌, ◌⊎◌, int_max, ◌^◌, ◌≤◌, ◌<◌, ◌≡◌, ◌≢◌, refl, arith, inl, inr, some, List, [], ◌∷◌, length,
  All, Option-cases,
}
use selective_reject.Machine.{
  tick, ◌>>=◌, pure, World, Env, Ends, Ends-and_then, final, Meets, Meets-and_then, Meets-Ends,
  Meets-final, Ends-Meets, Never, HasRoom, NoShortWrite,
}
use selective_reject.Net.Sockets.{create_udp_socket, open_socket}
use selective_reject.Pdu.Build.{flag_of, eof_ack, frame, server_to_rcopy}
use selective_reject.Pdu.Layout.{Verifies, sent_create_pdu}
use selective_reject.Receiver.States.{BufferInfo}
use selective_reject.Receiver.Stored.{Stream}
use selective_reject.Receiver.Delivered.{Delivered, Stops, sends-Delivered}
use selective_reject.Receiver.InTurn.{Ready}
use selective_reject.Sender.Setup.{first_packet}
use selective_reject.Sender.Steps.{Args}
use selective_reject.Server.Setup.{
  ServerState, accept_filename, done, manage_incoming, receive_initial_pdu, send_server_response,
}
use selective_reject.Server.Handshake.{receive_initial_pdu-frame}
use selective_reject.Server.Receive.{manage_incoming_data}
use selective_reject.Server.Network.{Contains, DeliversFrom}
use selective_reject.Server.Delivery.{manage_incoming_data-Meets}
use selective_reject.Server.Complete.{contents, eof_ack_complete}
use selective_reject.Server.Child.{child_step, child_loop, process_file}

-- A request that the server can serve, and the surroundings that it needs: the Internet checksum, room
-- for a packet, writes that fail or are complete, an output file that can be opened, a file name without
-- a 0 of at most 1000 bytes, a window of at least one packet, and sizes below 2^16.
pub record Serves (env : Env) (args : Args) : Type 0 where
  pub law : Verifies env.in_cksum
  pub room : HasRoom env
  pub whole : NoShortWrite env
  pub fd : ℕ
  pub opens : (w : World) → env.open_answer w args.to_filename ≡ some fd
  pub named : All (λ (c : ℕ). c ≢ 0) args.to_filename
  pub short : length args.to_filename ≤ 1000
  pub some_window : 0 < args.window_size
  pub window : args.window_size < 2 ^ 16
  pub buffer : args.buffer_size < 2 ^ 16

-- Ten can be added to the number of every socket: the kernel gives out small numbers.
abbrev pub SmallSockets : Env → Type 0
SmallSockets env = (w : World) (fd : ℕ) → env.socket_answer w ≡ some fd → fd + 10 ≤ int_max

module _ (env : Env) (args : Args) (can : Serves env args) (stream : Stream) where
  abbrev pub served_info : BufferInfo
  served_info = record {
    window_size = args.window_size;
    buffer_size = args.buffer_size;
    file_fd = some can.fd;
  }

  served_info-Ready : Ready env served_info
  served_info-Ready = record {
    room = can.room;
    whole = can.whole;
    fd = can.fd;
    opened = refl;
    window = can.some_window;
  }

  abbrev Safe : World → Type 0
  Safe v = Stops stream env.in_cksum v

  send_server_response-Delivered :
      (w : World)
      → Delivered stream env.in_cksum 1 w
      → Ends Safe Safe (λ _ v. Delivered stream env.in_cksum 1 v) (send_server_response env w)
  unfolding send_server_response
  send_server_response-Delivered w d =
      let (pdu, made, front) =
        sent_create_pdu env.in_cksum env.garbage 0 server_to_rcopy (0 ∷ [])
          (omega (arith, can.room)) (omega arith) in
      rw (made, front)
        (sends-Delivered env can.room stream Safe 1 w
          (frame env.in_cksum 0 server_to_rcopy (0 ∷ [])) d (inr (inr refl)))

  pub begun : (w : World) → w.file ≡ [] → w.sent ≡ [] → Delivered stream env.in_cksum 1 w
  begun w f s = record { started = omega arith; written = f; honest = rw s tt }

  -- The first state answers the request and leads to the second.
  receive_initial_pdu-Delivered :
      (info : BufferInfo) (w : World)
      → w.sent ≡ []
      → Ends Safe Safe
          (λ r v. (r ≡ (manage_incoming, served_info)) × Delivered stream env.in_cksum 1 v)
          (receive_initial_pdu env (first_packet env args) info w)
  receive_initial_pdu-Delivered info w silent =
      let cleared : World = record w { clock = w.clock + 1; file = [] } in
      rw
        (receive_initial_pdu-frame env can.law can.room args can.named can.short info w can.fd
          can.window can.buffer (can.opens w))
        (Ends-and_then Safe Safe (λ _ v. Delivered stream env.in_cksum 1 v)
          (λ r v. (r ≡ (manage_incoming, served_info)) × Delivered stream env.in_cksum 1 v)
          (send_server_response env cleared) _
          (send_server_response-Delivered cleared (begun cleared refl silent)) (λ _ v d. (refl, d)))

  -- With no turn left.
  child_loop-Safe :
      (rounds socket_num : ℕ) (pdu : List ℕ) (state : ServerState) (info : BufferInfo) (w : World)
      → Safe w
      → Ends Safe Safe (λ _ v. Safe v) (child_loop env 0 rounds socket_num pdu state info w)
  unfolding child_loop
  child_loop-Safe rounds socket_num pdu accept_filename info w safe = safe
  child_loop-Safe rounds socket_num pdu manage_incoming info w safe = safe
  child_loop-Safe rounds socket_num pdu done info w safe = safe

  module _ (D : World → Type 0) (net : DeliversFrom env stream) (some_data : 1 ≤ stream.last) where
    -- The second state transfers the file.
    child_loop-Meets :
        (rounds socket_num : ℕ) (pdu : List ℕ) (w : World)
        → (socket_num + 10 ≤ int_max) ⊎ ((v : World) → Safe v → D v)
        → Delivered stream env.in_cksum 1 w
        → Meets Safe D
            (λ _ v. Safe v)
            (child_loop env 1 rounds socket_num pdu manage_incoming served_info w)
    unfolding child_loop child_step
    child_loop-Meets rounds socket_num pdu w excuse d =
        Meets-and_then Safe D (λ _ v. Safe v) (λ _ v. Safe v)
          ((do
            next ← manage_incoming_data env rounds socket_num served_info
            pure (next, served_info))
            w)
          _
          (Meets-and_then Safe D (λ _ v. Safe v) (λ _ v. Safe v)
            (manage_incoming_data env rounds socket_num served_info w) _
            (manage_incoming_data-Meets env served_info served_info-Ready stream D rounds socket_num
              w excuse net some_data d.written d.honest)
            (λ _ v safe. safe))
          (λ r v safe.
            Ends-Meets Safe D (λ _ u. Safe u) (child_loop env 0 rounds socket_num pdu r.0 r.1 v)
              (child_loop-Safe rounds socket_num pdu r.0 r.1 v safe))

    pub process_file-Meets :
        (rounds : ℕ) (w : World)
        → SmallSockets env ⊎ ((v : World) → Safe v → D v)
        → w.file ≡ []
        → w.sent ≡ []
        → Meets Safe D (λ _ v. Safe v) (process_file env rounds (first_packet env args) w)
    unfolding process_file child_loop child_step create_udp_socket open_socket
    process_file-Meets rounds w excuse empty silent =
        Meets-and_then Safe D
          (λ fd v.
            ((fd + 10 ≤ int_max) ⊎ ((u : World) → Safe u → D u)) × (v.file ≡ []) × (v.sent ≡ []))
          (λ _ v. Safe v) (create_udp_socket env w) _
          (elim (Option-cases (env.socket_answer w)) [
            | inl e ↦ rw (e, open_socket) (1, begun (tick w) empty silent)
            | inr (fd, e) ↦
                rw (e, open_socket)
                  (
                    elim excuse [ inl small ↦ inl (small w fd e) | inr allowed ↦ inr allowed ],
                    empty,
                    silent,
                  )
          ])
          (λ fd v (ok, f, s).
            Meets-and_then Safe D _ (λ _ u. Safe u)
              (receive_initial_pdu env (first_packet env args) _ v) _
              (Ends-Meets Safe D _ (receive_initial_pdu env (first_packet env args) _ v)
                (receive_initial_pdu-Delivered _ v s))
              (λ r u (same, d).
                rw same (child_loop-Meets rounds fd (first_packet env args) u ok d)))

  -- A child that is started on the setup packet of a request which it can serve, with nothing written or
  -- sent yet, over a network that delivers only packets of one sender or damaged ones that the checksum
  -- reveals, where ten can be added to the number of every socket, for any number of rounds: it runs
  -- without undefined behaviour, and where it has returned, has exited or is cut short, what it has
  -- written to the output file is the sender's first packets, whole, in order and each once, and every
  -- acknowledgement sent is of packets that it has written.
  pub process_file-Stops :
      (rounds : ℕ) (w : World)
      → SmallSockets env
      → DeliversFrom env stream
      → 1 ≤ stream.last
      → w.file ≡ []
      → w.sent ≡ []
      → Ends
          (Stops stream env.in_cksum)
          (Stops stream env.in_cksum)
          (λ _ v. Stops stream env.in_cksum v)
          (process_file env rounds (first_packet env args) w)
  process_file-Stops rounds w small net some_data empty silent =
      Meets-Ends Safe (λ _ v. Safe v) (process_file env rounds (first_packet env args) w)
        (process_file-Meets Never net some_data rounds w (inl small) empty silent)

  -- A child that is started on the setup packet of a request which it can serve, with nothing written or
  -- sent yet, over a network that delivers only packets of one sender or damaged ones that the checksum
  -- reveals, for any number of rounds: once it has sent a packet with the flag of an EOF
  -- acknowledgement, what it has written to the output file is the whole stream, every packet's bytes
  -- once and in order and nothing else, wherever the child has got to.
  pub process_file_complete :
      (rounds : ℕ) (w : World) (d : List ℕ)
      → DeliversFrom env stream
      → 1 ≤ stream.last
      → w.file ≡ []
      → w.sent ≡ []
      → Contains d (final (process_file env rounds (first_packet env args) w)).sent
      → flag_of d ≡ some eof_ack
      → (final (process_file env rounds (first_packet env args) w)).file ≡ contents stream
  process_file_complete rounds w d net some_data empty silent told flagged =
      let run = process_file env rounds (first_packet env args) w in
      eof_ack_complete env.in_cksum stream (final run) d some_data
        (Meets-final Safe run
          (process_file-Meets Safe net some_data rounds w (inr (λ v safe. safe)) empty silent))
        told flagged
