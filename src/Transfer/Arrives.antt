-- ===== src/Transfer/Arrives.antt =====
-- rcopy.c's file reaches server.c's output file when the network works on.
use selective_reject.Base.{ℕ, suc, ◌+◌, ◌≤◌, ◌≡◌, ◌∙◌, arith, some, length, pos, int_max, []}
use selective_reject.Machine.{World, Env, Meets-final, final}
use selective_reject.Receiver.Delivered.{eof_ack_pdu}
use selective_reject.Sender.Setup.{first_packet}
use selective_reject.Sender.Account.{Startable, pieces_of}
use selective_reject.Server.Network.{Contains}
use selective_reject.Server.Child.{process_file}
use selective_reject.Server.Served.{Serves}
use selective_reject.Server.Working.{Works}
use selective_reject.Server.Finishes.{Gives}
use selective_reject.Server.Arrives.{Arrived, process_file-Arrived}
use selective_reject.Transfer.Streams.{stream_of, contents-stream_of}
use selective_reject.Transfer.Link.{Caller, rcopy_task}

module _ (server : Env) (caller : Caller) (can : Serves server caller.args)
    (begin : Startable (rcopy_task server caller)) where
  -- A server's child that is started on rcopy's setup packet, where every call works, and the network
  -- gives, until the EOF packet is acknowledged, each time the packet of rcopy's file that the child
  -- expects (the EOF packet behind the last), but for at most `k` datagrams that the checksum shows to be
  -- damaged: for at least as many rounds as the file has pieces, `k` more for the damaged datagrams and one for
  -- the EOF packet, what the child has written is rcopy's input file, byte by byte, and it has
  -- acknowledged the EOF packet under its number; and this is so wherever it then stands, for whatever
  -- arrives or does not arrive behind the acknowledgement. It needs sockets to whose numbers ten can be
  -- added, and a process that has sent nothing before.
  pub process_file_arrives :
      (rounds k : ℕ) (w : World)
      → Works server
      → ((v : World) → (fd : ℕ) × (server.socket_answer v ≡ some fd) × (fd + 10 ≤ int_max))
      → Gives server (stream_of (rcopy_task server caller) begin) k
      → w.sent ≡ []
      → suc (length (pieces_of (rcopy_task server caller)) + k) ≤ rounds
      → ((final (process_file server rounds (first_packet server caller.args) w)).file
          ≡ caller.file)
        × Contains
            (eof_ack_pdu server.in_cksum
              (pos (suc (length (pieces_of (rcopy_task server caller))))))
            (final (process_file server rounds (first_packet server caller.args) w)).sent
  process_file_arrives rounds k w works sockets net silent enough =
      let stream = stream_of (rcopy_task server caller) begin in
      let (whole, told) =
        Meets-final (Arrived server stream)
          (process_file server rounds (first_packet server caller.args) w)
          (process_file-Arrived server works caller.args can stream (omega arith) k net rounds w
            sockets silent (omega arith)) in
      (whole ∙ contents-stream_of (rcopy_task server caller) begin, told)
