-- ===== src/Sender/Reading.antt =====
-- A round of `dataTransfer` (rcopy.c): a piece of the file becomes a packet that is stored and sent.
use selective_reject.Base.{
  ℕ, suc, ◌+◌, ◌%◌, ◌≤◌, ◌<◌, ◌≡◌, ap, arith, inl, inr, Bool, some, List, [], ◌∷◌, ◌++◌, length,
  length-append, set, drop, length-set, length-copy_at, take-append, copy_at, All, All-set,
  All-get_elem?, pos, lt→ltb, int_max,
}
use native.Mathlib.Numerals.{add-one}
use selective_reject.Machine.{World, Meets, Meets-and_then, safe_sendto}
use selective_reject.Pdu.Build.{frame, data_pkt, create_window_packet}
use selective_reject.Pdu.Layout.{sent_create_pdu}
use selective_reject.Receiver.Slots.{Slot}
use selective_reject.Receiver.Stored.{slot_at_pos}
use selective_reject.Window.Defs.{Window, window_store_packet, get_next_seq_num}
use selective_reject.Sender.Loops.{send_packet}
use selective_reject.Sender.Pieces.{
  IsPiece, length-le-concat, get_elem?-last, PieceOf, SlotSent, SlotSent-piece,
}
use selective_reject.Sender.Account.{Task, Startable, Wrote, Kept, Stopped, Good, safe_sendto-Good}

-- The slot of a packet that is stored over an old one.
abbrev stored_over : Slot → ℕ → List ℕ → Slot
stored_over s n pdu = record {
  buff = copy_at s.buff 0 pdu;
  pdu_len = length pdu;
  sequence_number = pos n;
  valid_flag = 0;
}

module _ (g : Task) (D : World → Type 0) (begin : Startable g) where
  -- Storing the packet of a piece succeeds.
  store_piece :
      (pieces : List (List ℕ)) (win : Window) (n : ℕ) (pdu : List ℕ)
      → length win.buffer ≡ g.args.window_size
      → All (SlotSent g.env.in_cksum pieces) win.buffer
      → length pdu ≤ 1407
      → PieceOf g.env.in_cksum pieces pdu
      → (buffer : List Slot) × (window_store_packet win n pdu g.args.window_size
          ≡ some (record win { buffer = buffer }))
        × (length buffer ≡ g.args.window_size)
        × All (SlotSent g.env.in_cksum pieces) buffer
  unfolding window_store_packet
  store_piece pieces win n pdu full slots fits piece =
      let i = n % g.args.window_size in
      let (s, at, got) = slot_at_pos begin.some_window win.buffer full n in
      let (room, old) = All-get_elem? (SlotSent g.env.in_cksum pieces) win.buffer i slots got in
      let new = stored_over s n pdu in
      (
        set win.buffer i new,
        ground (arith, at, room),
        omega (arith, length-set win.buffer i new, full),
        All-set (SlotSent g.env.in_cksum pieces) win.buffer i
            (
              omega (arith, room, length-copy_at s.buff 0 pdu),
              inr (rw (take-append pdu (drop (0 + length pdu) s.buff)) piece),
            )
            slots,
      )

  -- The bytes read become a packet, which is stored and sent.
  pub send_packet-Good :
      (pieces : List (List ℕ)) (b : List ℕ) (over : Bool) (win : Window) (w : World)
      → IsPiece b
      → length pieces < int_max
      → Wrote g (pieces ++ b ∷ []) over w
      → Kept g pieces win w.received
      → Meets
          (Stopped g)
          D
          (λ after v. Good g (pieces ++ b ∷ []) over after v)
          (send_packet g.env g.args.window_size b win w)
  unfolding send_packet get_next_seq_num create_window_packet
  send_packet-Good pieces b over win w (some_bytes, fits) few h k =
      let n = suc win.sequence_num in
      let next : Window = record win { sequence_num = n } in
      let pdu = frame g.env.in_cksum n data_pkt b in
      let (made_in, made, front) =
        sent_create_pdu g.env.in_cksum g.env.garbage n data_pkt b (omega (arith, begin.room))
          (omega arith) in
      let small : win.sequence_num < int_max = omega (arith, k.counted) in
      let piece : PieceOf g.env.in_cksum (pieces ++ b ∷ []) pdu = (
        length pieces,
        b,
        get_elem?-last pieces b,
        ap (λ (m : ℕ). frame g.env.in_cksum (suc m) data_pkt b) k.counted,
      ) in
      let (buffer, stored, full, slots) =
        store_piece (pieces ++ b ∷ []) next n pdu k.full
          (SlotSent-piece g.env.in_cksum pieces b win.buffer k.slots) (omega (arith, fits)) piece in
      let after : Window = record next { buffer = buffer } in
      let kept : Kept g (pieces ++ b ∷ []) after w.received = record {
        counted = omega (arith, k.counted, length-append pieces (b ∷ []));
        full = full;
        slots = slots;
        acked = k.acked;
        low = k.low;
      } in
      rw (lt→ltb win.sequence_num int_max small, add-one win.sequence_num, made, front, stored)
        (Meets-and_then (Stopped g) D (λ _ v. Good g (pieces ++ b ∷ []) over after v)
          (λ last v. Good g (pieces ++ b ∷ []) over last v) (safe_sendto g.env pdu w) _
          (safe_sendto-Good g D (pieces ++ b ∷ []) over pdu after w (inr (inl piece)) (h, kept))
          (λ _ v h'. h'))

  -- There are fewer pieces than the numbers go.
  pub few_pieces :
      (pieces : List (List ℕ)) (over : Bool) (w : World)
      → Wrote g pieces over w
      → length pieces + 1 < int_max
  few_pieces pieces over w h =
      let (rest, n, split, le, cut) = h.within in
      omega (
        arith,
        length-le-concat pieces h.sized,
        ap length h.read,
        ap length split,
        length-append w.input rest,
        begin.few,
      )
