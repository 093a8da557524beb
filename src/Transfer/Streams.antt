-- ===== src/Transfer/Streams.antt =====
-- The packets that rcopy.c makes of its file, as the stream that server.c receives.
use selective_reject.Base.{
  ℕ, zero, suc, ◌≤◌, ◌<◌, ◌≡◌, refl, sym, ap, ◌∙◌, arith, some, List, [], ◌∷◌, ◌++◌, append_assoc,
  append-nil, length, length-take, take, drop, take_all, get_elem?, All, int_max,
}
use selective_reject.Receiver.Stored.{Stream}
use selective_reject.Receiver.Delivered.{before}
use selective_reject.Server.Complete.{contents}
use selective_reject.Sender.Pieces.{concat, cut_up}
use selective_reject.Sender.Account.{Task, Startable, pieces_of}
use selective_reject.Sender.Sent.{concat-pieces_of}

-- The piece of an index, and nothing behind the last one.
abbrev pub piece_at : List (List ℕ) → ℕ → List ℕ
piece_at [] k = []
piece_at (p ∷ ps) zero = p
piece_at (p ∷ ps) (suc k) = piece_at ps k

-- Packets are numbered from 1.
abbrev pub packet_bytes : List (List ℕ) → ℕ → List ℕ
packet_bytes ps zero = []
packet_bytes ps (suc k) = piece_at ps k

pub piece_at-get_elem? :
    (ps : List (List ℕ)) (k : ℕ) (b : List ℕ)
    → get_elem? ps k ≡ some b
    → (k < length ps) × (piece_at ps k ≡ b)
piece_at-get_elem? [] k b at = absurd (cc)
piece_at-get_elem? (p ∷ ps) zero b at = (omega arith, ground (arith, at))
piece_at-get_elem? (p ∷ ps) (suc k) b at =
    let (less, same) = piece_at-get_elem? ps k b at in (omega arith, same)

piece_at_past : (ps : List (List ℕ)) (k : ℕ) → length ps ≤ k → piece_at ps k ≡ []
piece_at_past [] k h = refl
piece_at_past (p ∷ ps) zero h = absurd (omega arith)
piece_at_past (p ∷ ps) (suc k) h = piece_at_past ps k (omega arith)

pub packet_bytes_past : (ps : List (List ℕ)) (n : ℕ) → suc (length ps) ≤ n → packet_bytes ps n ≡ []
packet_bytes_past ps zero h = refl
packet_bytes_past ps (suc k) h = piece_at_past ps k (omega arith)

concat-take-suc :
    (n : ℕ) (ps : List (List ℕ)) → concat (take n ps) ++ piece_at ps n ≡ concat (take (suc n) ps)
concat-take-suc zero [] = refl
concat-take-suc (suc n) [] = refl
concat-take-suc zero (p ∷ ps) = sym (append-nil p)
concat-take-suc (suc n) (p ∷ ps) =
    append_assoc p (concat (take n ps)) (piece_at ps n) ∙ ap (◌++◌ p) (concat-take-suc n ps)

pub before-packet_bytes :
    (ps : List (List ℕ)) (n : ℕ) → before (packet_bytes ps) (suc n) ≡ concat (take n ps)
before-packet_bytes ps zero = refl
before-packet_bytes ps (suc n) =
    ap (λ (x : List ℕ). x ++ piece_at ps n) (before-packet_bytes ps n) ∙ concat-take-suc n ps

pub concat-take-drop :
    (n : ℕ) (ps : List (List ℕ)) → concat (take n ps) ++ concat (drop n ps) ≡ concat ps
concat-take-drop zero ps = refl
concat-take-drop (suc n) [] = refl
concat-take-drop (suc n) (p ∷ ps) =
    append_assoc p (concat (take n ps)) (concat (drop n ps)) ∙ ap (◌++◌ p) (concat-take-drop n ps)

pub cut_up_sizes :
    (size n : ℕ) (bytes : List ℕ) → All (λ (b : List ℕ). length b ≤ size) (cut_up size n bytes)
cut_up_sizes size zero bytes = tt
cut_up_sizes size (suc n) [] = tt
cut_up_sizes size (suc n) (b ∷ bs) =
    (omega (arith, length-take size (b ∷ bs)), cut_up_sizes size n (drop size (b ∷ bs)))

-- There are no more pieces than so many.
length-cut_up : (size n : ℕ) (bytes : List ℕ) → length (cut_up size n bytes) ≤ n
length-cut_up size zero bytes = omega arith
length-cut_up size (suc n) [] = omega arith
length-cut_up size (suc n) (b ∷ bs) = omega (arith, length-cut_up size n (drop size (b ∷ bs)))

module _ (g : Task) (begin : Startable g) where
  pub last-bounded : suc (length (pieces_of g)) < int_max
  last-bounded = omega (arith, begin.few, length-cut_up g.args.buffer_size (length g.file) g.file)

  abbrev pub stream_of : Stream
  stream_of = record {
    bytes = packet_bytes (pieces_of g);
    last = suc (length (pieces_of g));
    ended = packet_bytes_past (pieces_of g);
    bounded = last-bounded;
  }

  -- All of them together are the file.
  pub contents-stream_of : contents stream_of ≡ g.file
  contents-stream_of =
      before-packet_bytes (pieces_of g) (length (pieces_of g))
      ∙ (ap concat (take_all (length (pieces_of g)) (pieces_of g) (omega arith))
          ∙ concat-pieces_of g begin)
