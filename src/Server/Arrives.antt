-- ===== src/Server/Arrives.antt =====
-- A child's whole run (server.c) where every call works and the network gives what is waited for.
use selective_reject.Base.{
  ℕ, ◌+◌, ◌≤◌, ◌≡◌, refl, arith, some, List, All, inr, int_max, [], ◌∷◌, pos,
}
use selective_reject.Machine.{World, Env, returned, Meets, Meets-and_then, ◌>>=◌, pure}
use selective_reject.Net.Sockets.{create_udp_socket, open_socket}
use selective_reject.Pdu.Build.{frame, server_to_rcopy}
use selective_reject.Pdu.Layout.{sent_create_pdu}
use selective_reject.Receiver.Stored.{Stream}
use selective_reject.Receiver.Delivered.{eof_ack_pdu, Honest}
use selective_reject.Receiver.States.{BufferInfo}
use selective_reject.Sender.Setup.{first_packet}
use selective_reject.Sender.Steps.{Args}
use selective_reject.Server.Setup.{done, manage_incoming, receive_initial_pdu, send_server_response}
use selective_reject.Server.Handshake.{receive_initial_pdu-frame}
use selective_reject.Server.Receive.{manage_incoming_data}
use selective_reject.Server.Acknowledged.{Keeping}
use selective_reject.Server.Complete.{contents}
use selective_reject.Server.Child.{child_step, child_loop, process_file}
use selective_reject.Server.Served.{Serves, served_info}
use selective_reject.Server.Working.{Works, replied, sends_datagram}
use selective_reject.Server.Finishes.{Gives, manage_incoming_data-Complete}

-- The whole stream is in the file, and its EOF packet was acknowledged.
abbrev pub Arrived : Env → Stream → World → Type 0
Arrived env stream v = Keeping (contents stream) (eof_ack_pdu env.in_cksum (pos stream.last)) v

module _ (env : Env) (works : Works env) (args : Args) (can : Serves env args) (stream : Stream)
    (some_data : 1 ≤ stream.last) (k : ℕ) (net : Gives env stream k) where
  send_server_response-replied :
      (w : World)
      → send_server_response env w
        ≡ returned tt (replied w (frame env.in_cksum 0 server_to_rcopy (0 ∷ [])))
  unfolding send_server_response
  send_server_response-replied w =
      let (pdu, made, front) =
        sent_create_pdu env.in_cksum env.garbage 0 server_to_rcopy (0 ∷ [])
          (omega (arith, works.room)) (omega arith) in
      rw (made, front) (sends_datagram env works (frame env.in_cksum 0 server_to_rcopy (0 ∷ [])) w)

  -- The answer to the request.
  receive_initial_pdu-replied :
      (info : BufferInfo) (w : World)
      → receive_initial_pdu env (first_packet env args) info w
        ≡ returned
            (manage_incoming, served_info env args can stream)
            (replied
              (record w { clock = w.clock + 1; file = [] })
              (frame env.in_cksum 0 server_to_rcopy (0 ∷ [])))
  receive_initial_pdu-replied info w =
      rw
        (
          receive_initial_pdu-frame env can.law can.room args can.named can.short info w can.fd
              can.window can.buffer (can.opens w),
          send_server_response-replied (record w { clock = w.clock + 1; file = [] }),
        )
        refl

  child_loop-Arrived :
      (rounds socket_num : ℕ) (pdu : List ℕ) (w : World)
      → socket_num + 10 ≤ int_max
      → w.file ≡ []
      → All (Honest env.in_cksum stream.last 1) w.sent
      → stream.last + k ≤ rounds
      → Meets
          (Arrived env stream)
          (Arrived env stream)
          (λ _ v. Arrived env stream v)
          (child_loop env 1 rounds socket_num pdu manage_incoming
            (served_info env args can stream)
            w)
  unfolding child_loop child_step
  child_loop-Arrived rounds socket_num pdu w small empty silent enough =
      let info = served_info env args can stream in
      let A = Arrived env stream in
      Meets-and_then A A (λ r v. (r.0 ≡ done) × A v) _
        ((manage_incoming_data env rounds socket_num info >>= λ next. pure (next, info)) w) _
        (Meets-and_then A A (λ s v. (s ≡ done) × A v) _
          (manage_incoming_data env rounds socket_num info w) _
          (manage_incoming_data-Complete env works info can.fd refl can.some_window stream some_data
            k net rounds socket_num w small empty silent enough)
          (λ s v h. h))
        (λ r v (over, a). rw over a)

  pub process_file-Arrived :
      (rounds : ℕ) (w : World)
      → ((v : World) → (fd : ℕ) × (env.socket_answer v ≡ some fd) × (fd + 10 ≤ int_max))
      → w.sent ≡ []
      → stream.last + k ≤ rounds
      → Meets
          (Arrived env stream)
          (Arrived env stream)
          (λ _ v. Arrived env stream v)
          (process_file env rounds (first_packet env args) w)
  unfolding process_file child_loop child_step create_udp_socket open_socket
  process_file-Arrived rounds w sockets silent enough =
      let (fd, e, small) = sockets w in
      rw (e, open_socket, receive_initial_pdu-replied)
        (child_loop-Arrived rounds fd (first_packet env args) _ small refl
          (rw silent (inr (inr refl), tt)) enough)
