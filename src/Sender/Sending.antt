-- ===== src/Sender/Sending.antt =====
-- A round of `dataTransfer` (rcopy.c): the bytes read become a packet that is stored and sent.
use selective_reject.Base.{
  ℕ, suc, ◌+◌, ◌≤◌, ◌<◌, ◌≡◌, refl, sym, ap, ◌∙◌, arith, true, some, List, length, take, lt→ltb,
  int_max,
}
use native.Mathlib.Numerals.{add-one}
use selective_reject.Machine.{World, Env, HasRoom, ◌>>◌, pure, safe_sendto}
use selective_reject.Pdu.Build.{frame, data_pkt, create_window_packet}
use selective_reject.Pdu.Layout.{sent_create_pdu}
use selective_reject.Sender.Loops.{send_packet}
use selective_reject.Window.Defs.{Window, check_window_open, window_store_packet, get_next_seq_num}
use selective_reject.Window.Holds.{Holds, window_store_packet-Holds}

module _ {pdu_of : ℕ → List ℕ} {window_size : ℕ} (some_room : 0 < window_size) where
  -- Where every packet from `lower` to the last one sent is in its slot, the window is open for the
  -- next number and at most 1400 bytes were read: exactly one datagram is sent, the data packet of the
  -- next number with those bytes, and then every packet from `lower` to that one is in its slot,
  -- `lower` is as before and `sequenceNum` is the new number.
  pub send_packet-Holds :
      (env : Env) (win : Window) (bytes : List ℕ) (w : World)
      → HasRoom env
      → Holds pdu_of window_size win.lower win.sequence_num win.buffer
      → win.lower ≤ suc win.sequence_num
      → win.sequence_num < int_max
      → check_window_open win (suc win.sequence_num) window_size ≡ some true
      → length bytes ≤ 1400
      → pdu_of (suc win.sequence_num) ≡ frame env.in_cksum (suc win.sequence_num) data_pkt bytes
      → (after : Window) × (send_packet env window_size bytes win w
          ≡ (do
            safe_sendto env (frame env.in_cksum (suc win.sequence_num) data_pkt bytes)
            pure after)
              w)
        × Holds pdu_of window_size after.lower after.sequence_num after.buffer
        × (after.lower ≡ win.lower)
        × (after.sequence_num ≡ suc win.sequence_num)
  unfolding send_packet get_next_seq_num create_window_packet check_window_open
  send_packet-Holds env win bytes w room h started small opened fits named =
      let n = suc win.sequence_num in
      let next : Window = record win { sequence_num = n } in
      let (pdu, made, front) =
        sent_create_pdu env.in_cksum env.garbage n data_pkt bytes (omega (arith, room))
          (omega arith) in
      let fitting : length (pdu_of n) ≤ 1407 = rw named (omega (arith, fits)) in
      let (after, stored, held, same, number) =
        window_store_packet-Holds some_room next win.sequence_num h started opened fitting in
      let kept : window_store_packet next n (take (7 + length bytes) pdu) window_size ≡ some after =
        ap (λ (x : List ℕ). window_store_packet next n x window_size) (front ∙ sym named)
        ∙ stored in
      (
        after,
        rw (lt→ltb win.sequence_num int_max small, add-one win.sequence_num, made, kept, front)
            refl,
        rw number held,
        same,
        number,
      )
