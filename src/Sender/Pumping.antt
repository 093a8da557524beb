-- ===== src/Sender/Pumping.antt =====
-- `dataTransfer` (rcopy.c) as a whole: how the pieces that it reads extend the account.
use selective_reject.Base.{
  length-take, lt→ltb, take, drop, zero, none, if◌then◌else◌, leb, int_max, ltb, ℕ, suc, ◌+◌, ◌≤◌,
  ◌≡◌, refl, sym, ap, ◌∙◌, arith, inl, inr, Bool, true, false, List, [], ◌∷◌, ◌++◌, append_assoc,
  append-nil, length, ◌⊎◌, All-append, ◌==◌, ==_iff, Bool-cases, subst,
}
use selective_reject.Machine.{Meets, Meets-and_then, Meets-defined, read, World}
use selective_reject.Window.Defs.{check_window_open, Window}
use selective_reject.Sender.Steps.{RcopyState, send_data, wait_on_eof_ack, Transfer}
use selective_reject.Sender.Loops.{drain, send_packet, data_transfer, end_of_file}
use selective_reject.Sender.Pieces.{
  concat-append, cut_up, cut_up-nil, cut_up-next, take-drop, take-eq-nil, IsPiece, AckedUpTo,
  SentBy-piece, SentBy-over,
}
use selective_reject.Sender.Account.{Task, Startable, Excused, Wrote, Stopped, Good, pieces_of}
use selective_reject.Sender.Answers.{excused}
use selective_reject.Sender.Rounds.{drain-Good}
use selective_reject.Sender.Reading.{few_pieces, send_packet-Good}

List-cases : (xs : List ℕ) → (xs ≡ []) ⊎ ((b : ℕ) × (bs : List ℕ) × (xs ≡ b ∷ bs))
List-cases [] = inl refl
List-cases (b ∷ bs) = inr (b, bs, refl)

-- The world when a `read` has given so many bytes.
abbrev has_read : List ℕ → World → World
has_read b w = record w { clock = w.clock + 1; input = w.input ++ b }

-- What a state of rcopy may rely on: the account, the number of the EOF packet once the end was met,
-- and in the last state that a receiver has asked for it.
abbrev pub Going : Task → RcopyState → Transfer → World → Type 0
Going g state t v =
    (pieces : List (List ℕ)) × Good g pieces t.eof t.window v
    × (t.eof ≡ true → t.eof_seq_num ≡ suc (length pieces))
    × (state ≡ wait_on_eof_ack
        → (t.eof ≡ true) × AckedUpTo g.env.in_cksum (suc (length pieces)) v.received)

module _ (g : Task) (D : World → Type 0) (begin : Startable g) (excuse : Excused g D) where
  Wrote-read :
      (pieces : List (List ℕ)) (b : ℕ) (bs rest : List ℕ) (n : ℕ) (w : World)
      → take g.args.buffer_size rest ≡ b ∷ bs
      → w.input ++ rest ≡ g.file
      → length rest ≤ n
      → pieces ++ cut_up g.args.buffer_size n rest ≡ pieces_of g
      → IsPiece (b ∷ bs)
      → Wrote g pieces false w
      → Wrote g (pieces ++ (b ∷ bs) ∷ []) false (has_read (b ∷ bs) w)
  Wrote-read pieces b bs rest n w got split le cut piece h =
      let size = g.args.buffer_size in
      let (m, le', next) = cut_up-next size n rest b bs got begin.some_bytes le in
      record {
        read = ap (λ (x : List ℕ). x ++ b ∷ bs) h.read ∙ sym (concat-append pieces (b ∷ bs));
        sized = All-append IsPiece pieces ((b ∷ bs) ∷ []) h.sized (piece, tt);
        sent =
            SentBy-piece g.env.in_cksum g.setup pieces (b ∷ bs) false w.received w.sent refl h.sent;
        ended = λ late. absurd (cc);
        within = (
          drop size rest,
          m,
          append_assoc w.input (b ∷ bs) (drop size rest)
              ∙ (ap (◌++◌ w.input)
                    (ap (λ (x : List ℕ). x ++ drop size rest) (sym got) ∙ take-drop size rest)
                  ∙ split),
          le',
          append_assoc pieces ((b ∷ bs) ∷ []) (cut_up size m (drop size rest))
              ∙ (ap (◌++◌ pieces) (sym next) ∙ cut),
        );
      }

  Wrote-end :
      (pieces : List (List ℕ)) (rest : List ℕ) (n : ℕ) (w : World)
      → rest ≡ []
      → w.input ++ rest ≡ g.file
      → pieces ++ cut_up g.args.buffer_size n rest ≡ pieces_of g
      → Wrote g pieces false w
      → Wrote g pieces true (has_read [] w)
  Wrote-end pieces rest n w last split cut h =
      let same : w.input ++ [] ≡ w.input = append-nil w.input in
      let whole : pieces ≡ pieces_of g =
        sym (append-nil pieces)
        ∙ (ap (◌++◌ pieces) (sym (cut_up-nil g.args.buffer_size n)) ∙ rw last at cut) in
      record {
        read = same ∙ h.read;
        sized = h.sized;
        sent = SentBy-over g.env.in_cksum g.setup pieces false w.received w.sent refl h.sent;
        ended = λ _. whole;
        within = (
          [],
          0,
          append-nil (w.input ++ []) ∙ (same ∙ (sym same ∙ rw last at split)),
          omega arith,
          append-nil pieces ∙ whole,
        );
      }

  end_of_file-Going :
      (pieces : List (List ℕ)) (t : Transfer) (w : World)
      → Good g pieces true t.window w
      → Going g (end_of_file g.env t).0 (end_of_file g.env t).1 w
  unfolding end_of_file
  end_of_file-Going pieces t w (h, k) = (
    pieces,
    (h, k),
    λ _. omega (arith, k.counted),
    λ closing. (
      refl,
      elim (Bool-cases (t.window.lower == t.window.sequence_num + 1)) [
        | inr not_all ↦ absurd (cc (rw not_all at closing))
        | inl all ↦
            let same : t.window.lower ≡ suc (length pieces) =
              omega (arith, (==_iff t.window.lower (t.window.sequence_num + 1)).0 all, k.counted) in
            subst (λ (m : ℕ). AckedUpTo g.env.in_cksum m w.received) same k.acked
      ],
    ),
  )

  -- The test of the loop: where the sums are `int`s it has an answer.
  window_test :
      (pieces : List (List ℕ)) (over : Bool) (win : Window) (w : World)
      → Good g pieces over win w
      → (if ltb win.sequence_num int_max
          then check_window_open win (win.sequence_num + 1) g.args.window_size
          else none)
        ≡ none
      → D w
  unfolding check_window_open
  window_test pieces over win w (h, k) lost =
      excused g D begin excuse pieces over win w (h, k)
        (λ net.
          let few : ltb win.sequence_num int_max ≡ true =
            lt→ltb win.sequence_num int_max
              (omega (arith, few_pieces g D begin pieces over w h, k.counted)) in
          let room : leb (win.lower + g.args.window_size) int_max ≡ true =
            ground (arith, k.low net, net.fits) in
          cc (rw (few, check_window_open, room) at lost))

  abbrev with_fields : Window → Bool → ℕ → ℕ → Transfer
  with_fields win eof counter eof_seq_num = record {
    window = win;
    eof = eof;
    counter = counter;
    eof_seq_num = eof_seq_num;
  }

  -- `dataTransfer`.
  data_transfer_rounds :
      (rounds : ℕ) (eof : Bool) (state : RcopyState) (win : Window) (counter eof_seq_num : ℕ)
      (w : World)
      → Going g state (with_fields win eof counter eof_seq_num) w
      → Meets
          (Stopped g)
          D
          (λ r v. Going g r.0 r.1 v)
          (data_transfer g.env rounds g.args (with_fields win eof counter eof_seq_num) w)
  unfolding data_transfer read
  data_transfer_rounds zero eof state win counter eof_seq_num w (pieces, h, numbered, closing) =
      (pieces, eof, h.0)
  data_transfer_rounds (suc rounds) true state win counter eof_seq_num w
        (pieces, h, numbered, closing) =
      Meets-defined (Stopped g) D (λ r v. Going g r.0 r.1 v) _ _ w (window_test pieces true win w h)
        (λ opened tested. (pieces, h, numbered, λ z. absurd (cc)))
  data_transfer_rounds (suc rounds) false state win counter eof_seq_num w
        (pieces, (h, k), numbered, closing) =
      Meets-defined (Stopped g) D (λ r v. Going g r.0 r.1 v) _ _ w
        (window_test pieces false win w (h, k))
        (λ opened tested. elim (Bool-cases opened) [
          | inr closed ↦ rw closed (pieces, (h, k), numbered, λ z. absurd (cc))
          | inl wide ↦
              let (rest, n, split, le, cut) = h.within in
              let (bytes, got, same) = begin.reads w g.args.buffer_size rest split in
              elim (List-cases (take g.args.buffer_size bytes)) [
                | inl empty ↦
                    rw (wide, got, read, empty)
                      (end_of_file-Going pieces (with_fields win false counter eof_seq_num)
                        (has_read [] w)
                        (
                          Wrote-end pieces rest n w
                              (take-eq-nil g.args.buffer_size rest begin.some_bytes
                                (sym same ∙ empty))
                              split cut h,
                          k,
                        ))
                | inr (b, bs, some_read) ↦
                    let longer = pieces ++ (b ∷ bs) ∷ [] in
                    let piece : IsPiece (b ∷ bs) = (
                      omega arith,
                      omega (
                        arith,
                        begin.small,
                        length-take g.args.buffer_size bytes,
                        ap length some_read,
                      ),
                    ) in
                    rw (wide, got, read, some_read)
                      (Meets-and_then (Stopped g) D (λ sent v. Good g longer false sent v)
                        (λ r v. Going g r.0 r.1 v)
                        (send_packet g.env g.args.window_size (b ∷ bs) win (has_read (b ∷ bs) w)) _
                        (send_packet-Good g D begin pieces (b ∷ bs) false win (has_read (b ∷ bs) w)
                          piece (omega (arith, few_pieces g D begin pieces false w h))
                          (Wrote-read pieces b bs rest n w (sym same ∙ some_read) split le cut piece
                            h)
                          k)
                        (λ sent v h'.
                          Meets-and_then (Stopped g) D (λ drained u. Good g longer false drained u)
                            (λ r u. Going g r.0 r.1 u)
                            (drain g.env rounds sent g.args.window_size v) _
                            (drain-Good g D begin excuse longer false rounds sent v h')
                            (λ drained u h''.
                              data_transfer_rounds rounds false send_data drained counter
                                eof_seq_num u (longer, h'', λ z. absurd (cc), λ z. absurd (cc)))))
              ]
        ])

  pub data_transfer-Going :
      (rounds : ℕ) (state : RcopyState) (t : Transfer) (w : World)
      → Going g state t w
      → Meets (Stopped g) D (λ r v. Going g r.0 r.1 v) (data_transfer g.env rounds g.args t w)
  data_transfer-Going rounds state t w h =
      data_transfer_rounds rounds t.eof state t.window t.counter t.eof_seq_num w h
