-- ===== src/Transfer/Copied.antt =====
-- What server.c makes of a file that rcopy.c sends.
use selective_reject.Base.{ℕ, zero, suc, ◌≡◌, ap, ◌∙◌, arith, some, List, [], ◌++◌, take, drop}
use selective_reject.Machine.{World, Env, Ends, Ends-mapped, final}
use selective_reject.Pdu.Build.{flag_of, eof_ack}
use selective_reject.Receiver.Delivered.{Stops}
use selective_reject.Server.Network.{Contains}
use selective_reject.Server.Child.{process_file}
use selective_reject.Server.Served.{Serves, SmallSockets, process_file-Stops, process_file_complete}
use selective_reject.Sender.Setup.{first_packet}
use selective_reject.Sender.Pieces.{concat}
use selective_reject.Sender.Account.{Task, Startable, pieces_of}
use selective_reject.Sender.Sent.{concat-pieces_of}
use selective_reject.Transfer.Streams.{
  stream_of, before-packet_bytes, concat-take-drop, contents-stream_of,
}
use selective_reject.Transfer.Link.{Caller, rcopy_task, Carries, Carries-DeliversFrom}

-- The bytes that a child has written are the first pieces of rcopy's file, so a beginning of it.
abbrev pub CopiesBeginning : Task → World → Type 0
CopiesBeginning g v =
    (n : ℕ) × (rest : List ℕ) × (v.file ≡ concat (take n (pieces_of g))) × (v.file ++ rest ≡ g.file)

module _ (server : Env) (caller : Caller) (can : Serves server caller.args)
    (begin : Startable (rcopy_task server caller)) where
  Stops-CopiesBeginning :
      (v : World)
      → Stops (stream_of (rcopy_task server caller) begin) server.in_cksum v
      → CopiesBeginning (rcopy_task server caller) v
  Stops-CopiesBeginning v (zero, d) = absurd (omega (arith, d.started))
  Stops-CopiesBeginning v (suc n, d) =
      let ps = pieces_of (rcopy_task server caller) in
      let first : v.file ≡ concat (take n ps) = d.written ∙ before-packet_bytes ps n in
      (
        n,
        concat (drop n ps),
        first,
        ap (λ (x : List ℕ). x ++ concat (drop n ps)) first
            ∙ (concat-take-drop n ps ∙ concat-pieces_of (rcopy_task server caller) begin),
      )

  -- One child of the server, started on rcopy's setup packet with nothing written or sent yet;
  -- rcopy with its own kernel and the same checksum, arguments that the server can serve, and a
  -- file that can be read; between the two sockets a network that may lose, repeat, reorder and
  -- damage datagrams, but lets nothing pass the checksum on its way to the child that rcopy did not
  -- send, and on its way to rcopy that this child had not sent by then (no other child's packets);
  -- ten can be added to the number of every socket: for any number of
  -- rounds the child runs without undefined behaviour, and where it has returned, has exited or is
  -- cut short, the bytes that it has written to its output file are the first pieces of rcopy's
  -- input file, whole and in order. What another child writes to the same file is not part of it.
  pub process_file-CopiesBeginning :
      (rounds : ℕ) (w : World)
      → SmallSockets server
      → Carries server caller
      → caller.start.sent ≡ []
      → caller.start.input ≡ []
      → w.file ≡ []
      → w.sent ≡ []
      → Ends
          (CopiesBeginning (rcopy_task server caller))
          (CopiesBeginning (rcopy_task server caller))
          (λ _ v. CopiesBeginning (rcopy_task server caller) v)
          (process_file server rounds (first_packet server caller.args) w)
  process_file-CopiesBeginning rounds w small net silent unread empty quiet =
      let stream = stream_of (rcopy_task server caller) begin in
      Ends-mapped (Stops stream server.in_cksum) (CopiesBeginning (rcopy_task server caller))
        (Stops stream server.in_cksum) (CopiesBeginning (rcopy_task server caller))
        (λ _ v. Stops stream server.in_cksum v)
        (λ _ v. CopiesBeginning (rcopy_task server caller) v)
        (process_file server rounds (first_packet server caller.args) w) Stops-CopiesBeginning
        Stops-CopiesBeginning (λ _ v s. Stops-CopiesBeginning v s)
        (process_file-Stops server caller.args can stream rounds w small
          (Carries-DeliversFrom server caller begin silent unread net) (omega arith) empty quiet)

  -- One child of the server, started on rcopy's setup packet with nothing written or sent yet;
  -- rcopy with its own kernel and the same checksum, arguments that the server can serve, and a
  -- file that can be read; between the two sockets a network that may lose, repeat, reorder and
  -- damage datagrams, but lets nothing pass the checksum on its way to the child that rcopy did not
  -- send, and on its way to rcopy that this child had not sent by then (no other child's packets):
  -- once this child has sent any packet with the flag of an EOF
  -- acknowledgement, the bytes that it has written to its output file are rcopy's input file, byte
  -- by byte, wherever the child has got to. What another child writes to the same file, as one that
  -- the parent starts on a repeated setup packet, is not part of it.
  pub process_file_copies :
      (rounds : ℕ) (w : World) (d : List ℕ)
      → Carries server caller
      → caller.start.sent ≡ []
      → caller.start.input ≡ []
      → w.file ≡ []
      → w.sent ≡ []
      → Contains d (final (process_file server rounds (first_packet server caller.args) w)).sent
      → flag_of d ≡ some eof_ack
      → (final (process_file server rounds (first_packet server caller.args) w)).file ≡ caller.file
  process_file_copies rounds w d net silent unread empty quiet told flagged =
      let stream = stream_of (rcopy_task server caller) begin in
      process_file_complete server caller.args can stream rounds w d
        (Carries-DeliversFrom server caller begin silent unread net) (omega arith) empty quiet told
        flagged
      ∙ contents-stream_of (rcopy_task server caller) begin
