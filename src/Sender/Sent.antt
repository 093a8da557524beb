-- ===== src/Sender/Sent.antt =====
-- What rcopy.c sends for a file, whatever the network delivers to it (`processFile`).
use selective_reject.Base.{
  arith, get_elem?, codes, ℕ, suc, ◌≡◌, ap, ◌∙◌, ◌⊎◌, inl, inr, Bool, some, List, [], ◌∷◌, ◌++◌,
  subst, length, All, Option-cases, Bool-cases, ltb,
}
use selective_reject.Machine.{
  World, Env, Ends, Meets, Meets-Ends, Meets-final, Meets-mapped, Never, final, tick,
}
use selective_reject.Pdu.Build.{frame, eof_flag}
use selective_reject.Poll.Kept.{poll_set-Kept}
use selective_reject.Sender.Steps.{Args}
use selective_reject.Sender.Loops.{send_file}
use selective_reject.Sender.Main.{open_input, input_not_found, rcopy_process_file}
use selective_reject.Sender.Pieces.{
  concat, concat-cut_up, cut_up, AckedUpTo, PieceOf, SentBy, get_elem?-append,
}
use selective_reject.Sender.Account.{Task, Startable, Acks, Stopped, Wrote, pieces_of}
use selective_reject.Sender.Whole.{task, send_file-Stopped}

-- A datagram that rcopy may send for its pieces: the setup packet; the data packet of a piece, numbered
-- from 1; and, when the whole file has been read and an RR has asked for it, the EOF packet behind them.
abbrev pub SentFor : Task → World → List ℕ → Type 0
SentFor g v d =
    (d ≡ g.setup)
    ⊎ (PieceOf g.env.in_cksum (pieces_of g) d
        ⊎ ((v.input ≡ g.file)
            × AckedUpTo g.env.in_cksum (suc (length (pieces_of g))) v.received
            × (d ≡ frame g.env.in_cksum (suc (length (pieces_of g))) eof_flag (0 ∷ []))))

-- Nothing else has been sent, and what has been read is a beginning of the file.
pub record Accounted (g : Task) (v : World) : Type 0 where
  pub sent : All (SentFor g v) v.sent
  pub taken : (rest : List ℕ) × (v.input ++ rest ≡ g.file)

module _ (g : Task) (begin : Startable g) where
  pub concat-pieces_of : concat (pieces_of g) ≡ g.file
  concat-pieces_of =
      concat-cut_up g.args.buffer_size (length g.file) g.file begin.some_bytes (omega arith)

  module _ (pieces : List (List ℕ)) (over : Bool) (v : World) (h : Wrote g pieces over v) where
    SentBy-SentFor :
        (d : List ℕ) → SentBy g.env.in_cksum g.setup pieces over v.received d → SentFor g v d
    SentBy-SentFor d (inl setup) = inl setup
    SentBy-SentFor d (inr (inl (k, b, at, e))) =
        let (rest, n, split, le, cut) = h.within in
        inr (
          inl (
            k,
            b,
            subst (λ (ps : List (List ℕ)). get_elem? ps k ≡ some b) cut
                (get_elem?-append pieces (cut_up g.args.buffer_size n rest) k b at),
            e,
          ))
    SentBy-SentFor d (inr (inr (o, acked, e))) =
        let whole : pieces ≡ pieces_of g = h.ended o in
        inr (
          inr (
            h.read ∙ (ap concat whole ∙ concat-pieces_of),
            subst (λ (ps : List (List ℕ)). AckedUpTo g.env.in_cksum (suc (length ps)) v.received)
                whole acked,
            e
                ∙ ap
                    (λ (ps : List (List ℕ)).
                      frame g.env.in_cksum (suc (length ps)) eof_flag (0 ∷ []))
                    whole,
          ))

    All-SentFor :
        (ds : List (List ℕ))
        → All (SentBy g.env.in_cksum g.setup pieces over v.received) ds
        → All (SentFor g v) ds
    All-SentFor [] k = tt
    All-SentFor (d ∷ ds) k = (SentBy-SentFor d k.0, All-SentFor ds k.1)

  Stopped-Accounted : (v : World) → Stopped g v → Accounted g v
  Stopped-Accounted v (pieces, over, h) =
      let (rest, n, split, le, cut) = h.within in
      record { sent = All-SentFor pieces over v h v.sent h.sent; taken = (rest, split) }

module _ (env : Env) (args : Args) (file : List ℕ) (begin : Startable (task env args file)) where
  abbrev g : Task
  g = task env args file

  -- Nothing sent or read yet.
  abbrev pub Quiet : World → Type 0
  Quiet v = (v.sent ≡ []) × (v.input ≡ [])

  pub Quiet-Accounted : (v : World) → Quiet v → Accounted g v
  Quiet-Accounted v (silent, unread) = record {
    sent = rw silent tt;
    taken = (file, ap (λ (x : List ℕ). x ++ file) unread);
  }

  send_file-Accounted :
      (rounds : ℕ) (w : World)
      → Quiet w
      → Meets (Accounted g) (Accounted g) (λ _ v. Accounted g v) (send_file env rounds args w)
  send_file-Accounted rounds w (silent, unread) =
      Meets-mapped (Stopped g) (Accounted g) (Stopped g) (Accounted g) (λ _ v. Stopped g v)
        (λ _ v. Accounted g v) (send_file env rounds args w) (Stopped-Accounted g begin)
        (Stopped-Accounted g begin) (λ _ v s. Stopped-Accounted g begin v s)
        (send_file-Stopped env args file (Stopped g) begin (inl (λ v s. s)) rounds w silent unread)

  input_not_found-Quiet :
      (name : List ℕ) (w : World)
      → Quiet w
      → Meets (Accounted g) (Accounted g) (λ _ v. Accounted g v) (input_not_found env name w)
  unfolding input_not_found
  input_not_found-Quiet name w q =
      elim (Bool-cases (ltb (length (codes "Error file [" ++ (name ++ codes "] not found"))) 64)) [
        | inl short ↦ rw short (Quiet-Accounted w q)
        | inr long ↦ rw long (Quiet-Accounted w q)
      ]

  pub rcopy_process_file-Meets :
      (rounds : ℕ) (from_file : List ℕ) (socket_num : ℕ) (w : World)
      → Quiet w
      → Meets
          (Accounted g)
          (Accounted g)
          (λ _ v. Accounted g v)
          (rcopy_process_file env rounds from_file args socket_num w)
  unfolding rcopy_process_file open_input
  rcopy_process_file-Meets rounds from_file socket_num w q =
      elim (Option-cases (env.open_input_answer w from_file)) [
        | inl missing ↦ rw (missing, open_input) (input_not_found-Quiet from_file (tick w) q)
        | inr (fd, opened) ↦
            rw (opened, open_input)
              (poll_set-Kept env Quiet (Accounted g) (λ v k. k) Quiet-Accounted (Accounted g)
                (λ _ v. Accounted g v) socket_num (tick w) (λ ps. send_file env rounds args)
                (inr Quiet-Accounted) q (λ ps v q'. send_file-Accounted rounds v q'))
      ]

  -- Whatever the network delivers, and wherever rcopy has got to (it has returned, has exited, still
  -- runs, or has run into undefined behaviour): every datagram that `processFile` has sent is the setup
  -- packet, the data packet of a piece of the input file under the piece's number, or the EOF packet
  -- behind the last piece, and that one only when the whole file has been read and an RR packet for its
  -- number has been received with its checksum right, or there is no piece. What has been read is a
  -- beginning of the file. It needs a window of at least one packet, a packet size from 1 to 1400, a
  -- file name of at most 1000 bytes, a file of fewer than INT_MAX - 1 bytes that `read` gives as it is
  -- asked to, and nothing sent or read before.
  pub rcopy_process_file-Accounted :
      (rounds : ℕ) (from_file : List ℕ) (socket_num : ℕ) (w : World)
      → w.sent ≡ []
      → w.input ≡ []
      → Accounted
          (task env args file)
          (final (rcopy_process_file env rounds from_file args socket_num w))
  rcopy_process_file-Accounted rounds from_file socket_num w silent unread =
      Meets-final (Accounted g) (rcopy_process_file env rounds from_file args socket_num w)
        (rcopy_process_file-Meets rounds from_file socket_num w (silent, unread))

  -- Sending a file runs without undefined behaviour, for any number of rounds, and where it
  -- returns, exits or is cut short, every datagram sent is the setup packet, the data packet of a
  -- piece of the input file under the piece's number, or the EOF packet behind the last piece, and
  -- that one only when the whole file has been read and an RR packet for its number has been
  -- received with its checksum right, or there is no piece. It needs that every datagram that
  -- arrives has at least a header, that every RR or SREJ that arrives with its checksum right
  -- carries a number from which the window does not reach past INT_MAX, a window of at least one
  -- packet, a packet size from 1 to 1400, a file name of at most 1000 bytes, a file of fewer than
  -- INT_MAX - 1 bytes that `read` gives as it is asked to, and nothing sent or read before.
  pub send_file-Ends :
      (rounds : ℕ) (w : World)
      → Acks (task env args file)
      → w.sent ≡ []
      → w.input ≡ []
      → Ends
          (Accounted (task env args file))
          (Accounted (task env args file))
          (λ _ v. Accounted (task env args file) v)
          (send_file env rounds args w)
  send_file-Ends rounds w net silent unread =
      Meets-Ends (Accounted g) (λ _ v. Accounted g v) (send_file env rounds args w)
        (Meets-mapped (Stopped g) (Accounted g) Never Never (λ _ v. Stopped g v)
          (λ _ v. Accounted g v) (send_file env rounds args w) (Stopped-Accounted g begin)
          (λ _ z. z) (λ _ v s. Stopped-Accounted g begin v s)
          (send_file-Stopped env args file Never begin (inr net) rounds w silent unread))
