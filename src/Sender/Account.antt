-- ===== src/Sender/Account.antt =====
-- What rcopy.c has read, sent and received while it sends the pieces of its file, and how the calls of
-- the system keep the account of it.
use selective_reject.Base.{
  ◌++◌, ℕ, ◌+◌, ◌≤◌, ◌<◌, ◌≡◌, refl, ◌⊎◌, inl, inr, Bool, true, some, List, [], ◌∷◌, length, take,
  All, All-append, Bool-cases, Option-cases, int_max,
}
use selective_reject.Machine.{World, Env, HasRoom, Meets, safe_sendto, safe_recvfrom, maxbuf, tick}
use selective_reject.Poll.{poll_call}
use selective_reject.Pdu.Build.{flag_of, acked_num_of, rr_packet, srej_packet}
use selective_reject.Window.Defs.{Window}
use selective_reject.Server.Network.{Contains}
use selective_reject.Sender.Steps.{Args}
use selective_reject.Sender.Pieces.{
  concat, cut_up, IsPiece, AckedUpTo, AckedUpTo-append, SentBy, SentBy-received, SlotSent,
  get_elem?-last,
}

-- A transfer as rcopy is started on it: its surroundings, its arguments, its setup packet, and the
-- contents of its input file.
pub record Task : Type 0 where
  pub env : Env
  pub args : Args
  pub setup : List ℕ
  pub file : List ℕ

-- The pieces into which rcopy reads its file.
abbrev pub pieces_of : Task → List (List ℕ)
pieces_of g = cut_up g.args.buffer_size (length g.file) g.file

-- `read` on a regular file: the next bytes, as many as asked for or as there are.
abbrev pub ReadsFile : Env → List ℕ → Type 0
ReadsFile env file =
    (w : World) (size : ℕ) (rest : List ℕ)
    → w.input ++ rest ≡ file
    → (bytes : List ℕ) × (env.read_answer w size ≡ some bytes) × (take size bytes ≡ take size rest)

-- What rcopy needs to be started with: an array of MAXBUF bytes has room for a datagram, a file name of
-- at most 1000 bytes, as `checkArgs` asks, a window of at least one packet, packets of 1 to 1400 bytes,
-- an input file that can be read, and fewer bytes in it than there are `int`s.
pub record Startable (g : Task) : Type 0 where
  pub room : HasRoom g.env
  pub short : length g.args.to_filename ≤ 1000
  pub some_window : 0 < g.args.window_size
  pub some_bytes : 0 < g.args.buffer_size
  pub small : g.args.buffer_size ≤ 1400
  pub reads : ReadsFile g.env g.file
  pub few : length g.file + 1 < int_max

-- What rcopy needs of the answers that arrive: a datagram has at least a header, and an RR or SREJ whose
-- checksum is right carries a number up to `top`, which with the window is an `int`.
pub record Acks (g : Task) : Type 0 where
  pub top : ℕ
  pub some_top : 1 ≤ top
  pub fits : top + g.args.window_size ≤ int_max
  pub headers :
      (w : World) (d : List ℕ) → g.env.recvfrom_answer w ≡ some d → 7 ≤ length (take maxbuf d)
  pub numbered :
      (w : World) (d : List ℕ) (flag : ℕ)
      → g.env.recvfrom_answer w ≡ some d
      → g.env.in_cksum (take maxbuf d) ≡ 0
      → flag_of (take maxbuf d) ≡ some flag
      → (flag ≡ rr_packet) ⊎ (flag ≡ srej_packet)
      → (n : ℕ) × (acked_num_of (take maxbuf d) ≡ some n) × (n ≤ top)

-- What rcopy has read and sent: the pieces make up the input read, each datagram sent is one that they
-- account for, where the end was met the input is the whole file, and before it is its beginning.
pub record Wrote (g : Task) (pieces : List (List ℕ)) (over : Bool) (v : World) : Type 0 where
  pub read : v.input ≡ concat pieces
  pub sized : All IsPiece pieces
  pub sent : All (SentBy g.env.in_cksum g.setup pieces over v.received) v.sent
  pub ended : over ≡ true → pieces ≡ pieces_of g
  pub within :
      (rest : List ℕ) × (n : ℕ) × (v.input ++ rest ≡ g.file)
      × (length rest ≤ n)
      × (pieces ++ cut_up g.args.buffer_size n rest ≡ pieces_of g)

-- The window's part of it.
pub record Kept (g : Task) (pieces : List (List ℕ)) (win : Window) (received : List (List ℕ))
    : Type 0 where
  pub counted : win.sequence_num ≡ length pieces
  pub full : length win.buffer ≡ g.args.window_size
  pub slots : All (SlotSent g.env.in_cksum pieces) win.buffer
  pub acked : AckedUpTo g.env.in_cksum win.lower received
  pub low : (net : Acks g) → win.lower ≤ net.top

-- Wherever the process stops.
abbrev pub Stopped : Task → World → Type 0
Stopped g v = (pieces : List (List ℕ)) × (over : Bool) × Wrote g pieces over v

-- Either behaviour that C does not define is allowed for, as long as what was sent before is accounted
-- for, or the answers that arrive rule it out.
abbrev pub Excused : Task → (World → Type 0) → Type 0
Excused g D = ((v : World) → Stopped g v → D v) ⊎ Acks g

abbrev pub Good : Task → List (List ℕ) → Bool → Window → World → Type 0
Good g pieces over win v = Wrote g pieces over v × Kept g pieces win v.received

-- What arrives: a datagram as the network delivered it, cut off at MAXBUF bytes.
abbrev pub Arrived : Task → List ℕ → Type 0
Arrived g packet =
    (u : World) × (d : List ℕ) × (g.env.recvfrom_answer u ≡ some d) × (packet ≡ take maxbuf d)

module _ (g : Task) (D : World → Type 0) (pieces : List (List ℕ)) (over : Bool) where
  pub Wrote-tick : (w : World) → Wrote g pieces over w → Wrote g pieces over (tick w)
  Wrote-tick w h = record {
    read = h.read;
    sized = h.sized;
    sent = h.sent;
    ended = h.ended;
    within = h.within;
  }

  pub safe_sendto-Good :
      (d : List ℕ) (win : Window) (w : World)
      → SentBy g.env.in_cksum g.setup pieces over w.received d
      → Good g pieces over win w
      → Meets (Stopped g) D (λ _ v. Good g pieces over win v) (safe_sendto g.env d w)
  unfolding safe_sendto
  safe_sendto-Good d win w ok (h, k) = elim (Bool-cases (g.env.sendto_fails w)) [
    | inl e ↦ rw e (pieces, over, Wrote-tick w h)
    | inr e ↦ rw e (
      record {
        read = h.read;
        sized = h.sized;
        sent =
            All-append (SentBy g.env.in_cksum g.setup pieces over w.received) w.sent (d ∷ []) h.sent
              (ok, tt);
        ended = h.ended;
        within = h.within;
      },
      k,
    )
  ]

  pub poll_call-Good :
      (win : Window) (w : World)
      → Good g pieces over win w
      → Meets (Stopped g) D (λ _ v. Good g pieces over win v) (poll_call g.env w)
  unfolding poll_call
  poll_call-Good win w (h, k) = elim (Option-cases (g.env.poll_answer w)) [
    | inl e ↦ rw (e, poll_call) (pieces, over, Wrote-tick w h)
    | inr (a, e) ↦ rw (e, poll_call) (Wrote-tick w h, k)
  ]

  pub safe_recvfrom-Good :
      (win : Window) (w : World)
      → Good g pieces over win w
      → Meets
          (Stopped g)
          D
          (λ pdu v. Good g pieces over win v × Contains pdu v.received × Arrived g pdu)
          (safe_recvfrom g.env w)
  unfolding safe_recvfrom
  safe_recvfrom-Good win w (h, k) = elim (Option-cases (g.env.recvfrom_answer w)) [
    | inl e ↦ rw (e, safe_recvfrom) (pieces, over, Wrote-tick w h)
    | inr (d, e) ↦
        rw (e, safe_recvfrom)
          (
            (
              record {
                read = h.read;
                sized = h.sized;
                sent =
                    SentBy-received g.env.in_cksum g.setup pieces over w.received
                      (take maxbuf d ∷ []) w.sent h.sent;
                ended = h.ended;
                within = h.within;
              },
              record {
                counted = k.counted;
                full = k.full;
                slots = k.slots;
                acked =
                    AckedUpTo-append g.env.in_cksum win.lower w.received (take maxbuf d ∷ [])
                      k.acked;
                low = k.low;
              },
            ),
            (length w.received, get_elem?-last w.received (take maxbuf d)),
            (w, d, e, refl),
          )
  ]
