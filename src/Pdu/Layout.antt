-- ===== src/Pdu/Layout.antt =====
-- What `createPDU` and `formatReceiverReadyPDU` put where, and that a receiver reads it back.
use selective_reject.Base.{
  ℕ, suc, ◌+◌, ◌^◌, ◌≤◌, ◌<◌, ◌≡◌, refl, ◌∙◌, arith, some, List, [], ◌∷◌, ◌++◌, length, take, drop,
  be32, le16, read_be32, read_be32-be32, take-append, take-append_eq,
}
use native.Mathlib.Nat.{mod-eq_of_lt}
use selective_reject.Pdu.Build.{
  create_pdu, format_receiver_ready_pdu, frame, seq_num_of, flag_of, payload_of, acked_num_of,
}

-- The Internet checksum (RFC 1071): stored in the two bytes that were zero when it was computed, it
-- makes the checksum of the whole packet zero.
abbrev pub Verifies : (List ℕ → ℕ) → Type 0
Verifies in_cksum =
    (a b c d : ℕ) (rest : List ℕ)
    → length rest ≤ 1401
    → in_cksum (a ∷ b ∷ c ∷ d ∷ (le16 (in_cksum (a ∷ b ∷ c ∷ d ∷ 0 ∷ 0 ∷ rest)) ++ rest)) ≡ 0

plus_seven : (n : ℕ) → 7 + n ≡ suc (suc (suc (suc (suc (suc (suc n))))))
plus_seven n = omega arith

module _ (in_cksum : List ℕ → ℕ) where
  -- The packet stands at the front of the buffer; the bytes behind it are the buffer's old ones.
  create_pdu_lem :
      (buffer : List ℕ) (s f : ℕ) (payload : List ℕ)
      → 7 + length payload ≤ length buffer
      → f < 256
      → create_pdu in_cksum buffer s f payload
        ≡ some (
          frame in_cksum s f payload ++ drop (length payload) (drop 7 buffer),
          7 + length payload,
        )
  unfolding create_pdu
  create_pdu_lem (a ∷ b ∷ c ∷ d ∷ e ∷ g ∷ h ∷ rest) s f payload fits byte =
      rw
        (
          plus_seven (length payload),
          take-append payload (drop (length payload) rest),
          mod-eq_of_lt byte,
        )
        (ground arith)
  create_pdu_lem _ s f payload fits byte = absurd (omega arith)

  -- What a sender hands to `sendto`: the packet alone.
  pub take-frame :
      (s f : ℕ) (payload rest : List ℕ)
      → take (7 + length payload) (frame in_cksum s f payload ++ rest) ≡ frame in_cksum s f payload
  take-frame s f payload rest =
      take-append_eq (7 + length payload) (frame in_cksum s f payload) rest (omega arith)

  frame-Verifies :
      (s f : ℕ) (payload : List ℕ)
      → length payload ≤ 1400
      → Verifies in_cksum
      → in_cksum (frame in_cksum s f payload) ≡ 0
  frame-Verifies s f payload fits law = law _ _ _ _ (f ∷ payload) (omega arith)

  frame-number :
      (s f : ℕ) (payload : List ℕ) → s < 2 ^ 32 → read_be32 (frame in_cksum s f payload) ≡ some s
  frame-number s f payload small =
      read_be32-be32 s (le16 (in_cksum (be32 s ++ 0 ∷ 0 ∷ f ∷ payload)) ++ f ∷ payload) small

  -- With a checksum that verifies, a packet that `createPDU` builds in a buffer with room passes the
  -- checksum and gives a receiver the number, the flag and the payload that went in: for every number
  -- below 2^32, every flag below 256 and every payload of at most 1400 bytes.
  pub create_pdu_round_trip :
      Verifies in_cksum
      → (buffer : List ℕ) (s f : ℕ) (payload : List ℕ) → 7 + length payload ≤ length buffer
      → length payload ≤ 1400
      → s < 2 ^ 32
      → f < 256
      → (pdu : List ℕ) × (create_pdu in_cksum buffer s f payload ≡ some (pdu, 7 + length payload))
        × (in_cksum (take (7 + length payload) pdu) ≡ 0)
        × (seq_num_of (take (7 + length payload) pdu) ≡ some s)
        × (flag_of (take (7 + length payload) pdu) ≡ some f)
        × (payload_of (take (7 + length payload) pdu) ≡ payload)
  unfolding seq_num_of flag_of payload_of
  create_pdu_round_trip law buffer s f payload room fits small byte =
      let front = take-frame s f payload (drop (length payload) (drop 7 buffer)) in
      (
        frame in_cksum s f payload ++ drop (length payload) (drop 7 buffer),
        create_pdu_lem buffer s f payload room byte,
        rw front (frame-Verifies s f payload fits law),
        rw front (frame-number s f payload small),
        rw front refl,
        rw front refl,
      )

  -- `formatReceiverReadyPDU` builds the packet that `createPDU` builds with the acknowledged number,
  -- in network order, as the payload.
  pub format_receiver_ready_pdu-eq-create_pdu :
      (buffer : List ℕ) (pkt rr flag : ℕ)
      → format_receiver_ready_pdu in_cksum buffer pkt rr flag
        ≡ create_pdu in_cksum buffer pkt flag (be32 rr)
  unfolding format_receiver_ready_pdu create_pdu
  format_receiver_ready_pdu-eq-create_pdu buffer pkt rr flag = refl

  -- With a checksum that verifies, an RR or SREJ packet (number 0) that `formatReceiverReadyPDU`
  -- builds in a buffer with room passes the checksum and gives the sender its flag and the number
  -- acknowledged, for every number below 2^32 and every flag below 256.
  pub format_receiver_ready_pdu_round_trip :
      Verifies in_cksum
      → (buffer : List ℕ) (rr flag : ℕ) → 11 ≤ length buffer
      → rr < 2 ^ 32
      → flag < 256
      → (pdu : List ℕ) × (format_receiver_ready_pdu in_cksum buffer 0 rr flag ≡ some (pdu, 11))
        × (in_cksum (take 11 pdu) ≡ 0)
        × (flag_of (take 11 pdu) ≡ some flag)
        × (acked_num_of (take 11 pdu) ≡ some rr)
  unfolding flag_of acked_num_of
  format_receiver_ready_pdu_round_trip law buffer rr flag room small byte = (
    frame in_cksum 0 flag (be32 rr) ++ drop 4 (drop 7 buffer),
    format_receiver_ready_pdu-eq-create_pdu buffer 0 rr flag
        ∙ create_pdu_lem buffer 0 flag (be32 rr) room byte,
    frame-Verifies 0 flag (be32 rr) (omega arith) law,
    refl,
    read_be32-be32 rr [] small,
  )

  -- The two ways in which the code builds a packet in a buffer of MAXBUF bytes and hands over its
  -- front: what a continuation gets.
  pub sent_create_pdu :
      (buffer : List ℕ) (s f : ℕ) (payload : List ℕ)
      → 7 + length payload ≤ length buffer
      → f < 256
      → (pdu : List ℕ) × (create_pdu in_cksum buffer s f payload ≡ some (pdu, 7 + length payload))
        × (take (7 + length payload) pdu ≡ frame in_cksum s f payload)
  sent_create_pdu buffer s f payload room byte = (
    frame in_cksum s f payload ++ drop (length payload) (drop 7 buffer),
    create_pdu_lem buffer s f payload room byte,
    take-frame s f payload (drop (length payload) (drop 7 buffer)),
  )

  pub sent_receiver_ready :
      (buffer : List ℕ) (rr flag : ℕ)
      → 11 ≤ length buffer
      → flag < 256
      → (pdu : List ℕ) × (format_receiver_ready_pdu in_cksum buffer 0 rr flag ≡ some (pdu, 11))
        × (take 11 pdu ≡ frame in_cksum 0 flag (be32 rr))
  sent_receiver_ready buffer rr flag room byte = (
    frame in_cksum 0 flag (be32 rr) ++ drop 4 (drop 7 buffer),
    format_receiver_ready_pdu-eq-create_pdu buffer 0 rr flag
        ∙ create_pdu_lem buffer 0 flag (be32 rr) room byte,
    refl,
  )
