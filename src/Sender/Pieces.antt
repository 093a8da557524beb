-- ===== src/Sender/Pieces.antt =====
-- What rcopy.c may send when it has read certain pieces of its input file, each by one `read`: the setup
-- packet, the packets of the pieces, and the EOF packet when everything has been acknowledged.
use selective_reject.Base.{
  ℕ, zero, suc, ◌≤◌, ◌<◌, ◌≡◌, refl, sym, ◌∙◌, ap, arith, ◌⊎◌, inl, inr, Bool, true, false, some,
  List, [], ◌∷◌, ◌++◌, append_assoc, append-nil, length, length-append, length-drop, take, drop,
  get_elem?, All,
}
use selective_reject.Pdu.Build.{frame, data_pkt, eof_flag, rr_packet, flag_of, acked_num_of}
use selective_reject.Receiver.Slots.{Slot}
use selective_reject.Server.Network.{Contains}

-- The pieces behind each other.
abbrev pub concat : List (List ℕ) → List ℕ
concat [] = []
concat (b ∷ bs) = b ++ concat bs

pub concat-append : (bs : List (List ℕ)) (b : List ℕ) → concat (bs ++ b ∷ []) ≡ concat bs ++ b
concat-append [] b = append-nil b
concat-append (c ∷ bs) b = ap (◌++◌ c) (concat-append bs b) ∙ sym (append_assoc c (concat bs) b)

-- The file cut up into pieces of `size` bytes, the last of which may be shorter, for so many pieces.
abbrev pub cut_up : ℕ → ℕ → List ℕ → List (List ℕ)
cut_up size zero bytes = []
cut_up size (suc n) [] = []
cut_up size (suc n) (b ∷ bs) = take size (b ∷ bs) ∷ cut_up size n (drop size (b ∷ bs))

pub cut_up-nil : (size n : ℕ) → cut_up size n [] ≡ []
cut_up-nil size zero = refl
cut_up-nil size (suc n) = refl

pub take-drop : (n : ℕ) (xs : List ℕ) → take n xs ++ drop n xs ≡ xs
take-drop zero xs = refl
take-drop (suc n) [] = refl
take-drop (suc n) (x ∷ xs) = ap (◌∷◌ x) (take-drop n xs)

-- With as many pieces as bytes nothing is left over.
pub concat-cut_up :
    (size n : ℕ) (bytes : List ℕ)
    → 0 < size
    → length bytes ≤ n
    → concat (cut_up size n bytes) ≡ bytes
concat-cut_up size zero [] some_size h = refl
concat-cut_up size zero (b ∷ bs) some_size h = absurd (omega arith)
concat-cut_up size (suc n) [] some_size h = refl
concat-cut_up size (suc n) (b ∷ bs) some_size h =
    ap (◌++◌ (take size (b ∷ bs))) (
      concat-cut_up size n (drop size (b ∷ bs)) some_size
        (omega (arith, length-drop size (b ∷ bs))))
    ∙ take-drop size (b ∷ bs)

pub take-eq-nil : (n : ℕ) (xs : List ℕ) → 0 < n → take n xs ≡ [] → xs ≡ []
take-eq-nil zero xs h e = absurd (omega arith)
take-eq-nil (suc n) [] h e = refl
take-eq-nil (suc n) (x ∷ xs) h e = absurd (cc)

-- The next piece, and what is left to cut up.
pub cut_up-next :
    (size n : ℕ) (bytes : List ℕ) (b : ℕ) (bs : List ℕ)
    → take size bytes ≡ b ∷ bs
    → 0 < size
    → length bytes ≤ n
    → (m : ℕ) × (length (drop size bytes) ≤ m)
      × (cut_up size n bytes ≡ (b ∷ bs) ∷ cut_up size m (drop size bytes))
cut_up-next zero n bytes b bs e h le = absurd (omega arith)
cut_up-next (suc size) n [] b bs e h le = absurd (cc)
cut_up-next (suc size) zero (x ∷ xs) b bs e h le = absurd (omega arith)
cut_up-next (suc size) (suc n) (x ∷ xs) b bs e h le = (
  n,
  omega (arith, length-drop size xs),
  ap (λ (p : List ℕ). p ∷ cut_up (suc size) n (drop size xs)) e,
)

abbrev pub IsPiece : List ℕ → Type 0
IsPiece b = (0 < length b) × (length b ≤ 1400)

-- There are no more pieces than bytes.
pub length-le-concat : (bs : List (List ℕ)) → All IsPiece bs → length bs ≤ length (concat bs)
length-le-concat [] h = omega arith
length-le-concat (b ∷ bs) h =
    omega (arith, h.0, length-append b (concat bs), length-le-concat bs h.1)

module _ {ℓ} {A : Type ℓ} where
  pub get_elem?-append :
      (xs ys : List A) (i : ℕ) (a : A) → get_elem? xs i ≡ some a → get_elem? (xs ++ ys) i ≡ some a
  get_elem?-append [] ys i a e = cc
  get_elem?-append (x ∷ xs) ys zero a e = e
  get_elem?-append (x ∷ xs) ys (suc i) a e = get_elem?-append xs ys i a e

  pub get_elem?-last : (xs : List A) (a : A) → get_elem? (xs ++ a ∷ []) (length xs) ≡ some a
  get_elem?-last [] a = refl
  get_elem?-last (x ∷ xs) a = get_elem?-last xs a

module _ (in_cksum : List ℕ → ℕ) where
  -- An RR packet that asks for packet `m` has been received with its checksum right; for the first
  -- packet nobody needs to ask.
  abbrev pub AckedUpTo : ℕ → List (List ℕ) → Type 0
  AckedUpTo m received =
      (m ≡ 1)
      ⊎ ((d : List ℕ) × Contains d received
          × (in_cksum d ≡ 0)
          × (flag_of d ≡ some rr_packet)
          × (acked_num_of d ≡ some m))

  pub AckedUpTo-append :
      (m : ℕ) (received more : List (List ℕ))
      → AckedUpTo m received
      → AckedUpTo m (received ++ more)
  AckedUpTo-append m received more (inl first) = inl first
  AckedUpTo-append m received more (inr (d, (i, at), good, flagged, asked)) =
      inr (d, (i, get_elem?-append received more i d at), good, flagged, asked)

  -- The packet of a piece.
  abbrev pub PieceOf : List (List ℕ) → List ℕ → Type 0
  PieceOf pieces d =
      (k : ℕ) × (b : List ℕ) × (get_elem? pieces k ≡ some b)
      × (d ≡ frame in_cksum (suc k) data_pkt b)

  -- `over` where the end of the file has been met.
  abbrev pub SentBy : List ℕ → List (List ℕ) → Bool → List (List ℕ) → List ℕ → Type 0
  SentBy setup pieces over received d =
      (d ≡ setup)
      ⊎ (PieceOf pieces d
          ⊎ ((over ≡ true)
              × AckedUpTo (suc (length pieces)) received
              × (d ≡ frame in_cksum (suc (length pieces)) eof_flag (0 ∷ []))))

  module _ (setup : List ℕ) (pieces : List (List ℕ)) where
    pub SentBy-received :
        (over : Bool) (received more : List (List ℕ)) (ds : List (List ℕ))
        → All (SentBy setup pieces over received) ds
        → All (SentBy setup pieces over (received ++ more)) ds
    SentBy-received over received more [] h = tt
    SentBy-received over received more (d ∷ ds) (inl first, h) =
        (inl first, SentBy-received over received more ds h)
    SentBy-received over received more (d ∷ ds) (inr (inl piece), h) =
        (inr (inl piece), SentBy-received over received more ds h)
    SentBy-received over received more (d ∷ ds) (inr (inr (o, acked, e)), h) = (
      inr (inr (o, AckedUpTo-append (suc (length pieces)) received more acked, e)),
      SentBy-received over received more ds h,
    )

    -- The end of the file.
    pub SentBy-over :
        (over : Bool) (received : List (List ℕ)) (ds : List (List ℕ))
        → over ≡ false
        → All (SentBy setup pieces over received) ds
        → All (SentBy setup pieces true received) ds
    SentBy-over over received [] z h = tt
    SentBy-over over received (d ∷ ds) z (inl first, h) =
        (inl first, SentBy-over over received ds z h)
    SentBy-over over received (d ∷ ds) z (inr (inl piece), h) =
        (inr (inl piece), SentBy-over over received ds z h)
    SentBy-over over received (d ∷ ds) z (inr (inr (o, acked, e)), h) = absurd (cc (z, o))

    -- One more piece.
    pub SentBy-piece :
        (b : List ℕ) (over : Bool) (received : List (List ℕ)) (ds : List (List ℕ))
        → over ≡ false
        → All (SentBy setup pieces over received) ds
        → All (SentBy setup (pieces ++ b ∷ []) over received) ds
    SentBy-piece b over received [] z h = tt
    SentBy-piece b over received (d ∷ ds) z (inl first, h) =
        (inl first, SentBy-piece b over received ds z h)
    SentBy-piece b over received (d ∷ ds) z (inr (inl (k, c, at, e)), h) = (
      inr (inl (k, c, get_elem?-append pieces (b ∷ []) k c at, e)),
      SentBy-piece b over received ds z h,
    )
    SentBy-piece b over received (d ∷ ds) z (inr (inr (o, acked, e)), h) = absurd (cc (z, o))

  -- A slot of the window's buffer: empty, or with the packet of a piece.
  abbrev pub SlotSent : List (List ℕ) → Slot → Type 0
  SlotSent pieces s =
      ◌≡◌ {A = ℕ} (length s.buff) 1407 × ((s.pdu_len ≡ 0) ⊎ PieceOf pieces (take s.pdu_len s.buff))

  pub SlotSent-piece :
      (pieces : List (List ℕ)) (b : List ℕ) (buffer : List Slot)
      → All (SlotSent pieces) buffer
      → All (SlotSent (pieces ++ b ∷ [])) buffer
  SlotSent-piece pieces b [] h = tt
  SlotSent-piece pieces b (s ∷ buffer) ((room, inl empty), h) =
      ((room, inl empty), SlotSent-piece pieces b buffer h)
  SlotSent-piece pieces b (s ∷ buffer) ((room, inr (k, c, at, e)), h) = (
    (room, inr (k, c, get_elem?-append pieces (b ∷ []) k c at, e)),
    SlotSent-piece pieces b buffer h,
  )
