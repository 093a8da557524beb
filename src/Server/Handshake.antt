-- ===== src/Server/Handshake.antt =====
-- The setup packet of rcopy.c (`sendSetupPacket`) as server.c (`receive_initial_PDU`) reads it.
use selective_reject.Base.{
  ◌/◌, ◌*◌, ℕ, ◌+◌, ◌%◌, ◌^◌, ◌≤◌, ◌<◌, ◌≡◌, ◌≢◌, refl, arith, some, List, [], ◌∷◌, ◌++◌, length,
  All, ne→==,
}
use selective_reject.Machine.{World, Env, returned, ◌>>◌, pure, open_output, HasRoom}
use selective_reject.Pdu.Build.{frame, rcopy_to_server, flag_of, payload_of}
use selective_reject.Pdu.Layout.{Verifies}
use selective_reject.Receiver.States.{BufferInfo}
use selective_reject.Sender.Setup.{payload_fits, setup_pdu-first_packet}
use selective_reject.Sender.Steps.{Args, setup_payload, setup_pdu}
use selective_reject.Server.Setup.{
  manage_incoming, c_string, receive_initial_pdu, send_server_response,
}

c_string-append_zero :
    (name : List ℕ) → All (λ (c : ℕ). c ≢ 0) name → c_string (name ++ 0 ∷ []) ≡ some name
unfolding c_string
c_string-append_zero [] h = refl
c_string-append_zero (c ∷ name) h = rw (ne→== c 0 h.0, c_string-append_zero name h.1) refl

two_bytes : (n : ℕ) → n < 2 ^ 16 → n % 2 ^ 16 / 2 ^ 8 % 256 * 2 ^ 8 + n % 2 ^ 16 % 256 ≡ n
two_bytes n h = ground arith

module _ (env : Env) (law : Verifies env.in_cksum) (room : HasRoom env) (args : Args)
    (named : All (λ (c : ℕ). c ≢ 0) args.to_filename) (short : length args.to_filename ≤ 1000) where
  pub receive_initial_pdu-frame :
      (info : BufferInfo) (w : World) (fd : ℕ)
      → args.window_size < 2 ^ 16
      → args.buffer_size < 2 ^ 16
      → env.open_answer w args.to_filename ≡ some fd
      → receive_initial_pdu env (frame env.in_cksum 0 rcopy_to_server (setup_payload args)) info w
        ≡ (do
          send_server_response env
          pure (
            manage_incoming,
            record {
              window_size = args.window_size;
              buffer_size = args.buffer_size;
              file_fd = some fd;
            },
          ))
            (record w { clock = w.clock + 1; file = [] })
  unfolding receive_initial_pdu flag_of payload_of open_output
  receive_initial_pdu-frame info w fd window buffer opened =
      let whole : env.in_cksum (frame env.in_cksum 0 rcopy_to_server (setup_payload args)) ≡ 0 =
        law 0 0 0 0 (rcopy_to_server ∷ setup_payload args)
          (omega (arith, payload_fits env room args short)) in
      rw
        (
          whole,
          c_string-append_zero args.to_filename named,
          opened,
          open_output,
          two_bytes args.window_size window,
          two_bytes args.buffer_size buffer,
        )
        refl

  -- The setup packet reaches the server as it was meant: for a file name of at most 1000 bytes without
  -- a 0 and a window size and a buffer size below 2^16, `rcopy` builds a packet, and a server that gets
  -- that packet and can open the file answers it and goes on to receive, with the same window size and
  -- buffer size and the descriptor of the file of that name.
  pub setup_pdu-receive_initial_pdu :
      (info : BufferInfo) (w v : World) (fd : ℕ)
      → args.window_size < 2 ^ 16
      → args.buffer_size < 2 ^ 16
      → env.open_answer v args.to_filename ≡ some fd
      → (pdu : List ℕ) × (setup_pdu env args w ≡ returned pdu w)
        × (receive_initial_pdu env pdu info v
            ≡ (do
              send_server_response env
              pure (
                manage_incoming,
                record {
                  window_size = args.window_size;
                  buffer_size = args.buffer_size;
                  file_fd = some fd;
                },
              ))
                (record v { clock = v.clock + 1; file = [] }))
  setup_pdu-receive_initial_pdu info w v fd window buffer opened = (
    frame env.in_cksum 0 rcopy_to_server (setup_payload args),
    setup_pdu-first_packet env room args short w,
    receive_initial_pdu-frame info v fd window buffer opened,
  )
