-- ===== src/Pdu/Print.antt =====
-- `printPDU` (windowing.c): what it reads of a packet and prints.
use selective_reject.Base.{
  ℕ, ◌+◌, ◌^◌, ◌≤◌, ◌<◌, ◌≡◌, refl, Option, none, some, Bool, false, List, [], ◌∷◌, length, take,
  not, ◌==◌, if◌then◌else◌,
}
use selective_reject.Pdu.Build.{create_pdu, seq_num_of, flag_of, payload_of}
use selective_reject.Pdu.Layout.{Verifies, create_pdu_round_trip}

pub record Printed : Type 0 where
  pub checksum_failed : Bool
  pub sequence_number : ℕ
  pub checksum : ℕ
  pub flag : ℕ
  pub message : List ℕ

-- What `%.*s` prints: the bytes before the first 0, and at most so many.
unfoldable pub text_of : List ℕ → List ℕ
text_of [] = []
text_of (c ∷ cs) = if c == 0 then [] else c ∷ text_of cs

module _ (in_cksum : List ℕ → ℕ) where
  -- `none` for a packet that is shorter than a header: its payload's length is negative, and `printf`
  -- looks for a 0 without a bound.
  unfoldable pub print_pdu : List ℕ → ℕ → Option Printed
  print_pdu a_pdu pdu_length =
      let pdu = take pdu_length a_pdu in
      elim (seq_num_of pdu) [
        | none ↦ none
        | some sequence_number ↦ elim (flag_of pdu) [
          | none ↦ none
          | some flag ↦ some (record {
            checksum_failed = not (in_cksum pdu == 0);
            sequence_number = sequence_number;
            checksum = in_cksum pdu;
            flag = flag;
            message = text_of (payload_of pdu);
          })
        ]
      ]

  -- With a checksum that verifies, printing a packet that `createPDU` has built shows no failed checksum,
  -- the number and the flag that went in, and the payload up to its first 0.
  pub print_pdu-create_pdu :
      Verifies in_cksum
      → (buffer : List ℕ) (s f : ℕ) (payload : List ℕ) → 7 + length payload ≤ length buffer
      → length payload ≤ 1400
      → s < 2 ^ 32
      → f < 256
      → (pdu : List ℕ) × (create_pdu in_cksum buffer s f payload ≡ some (pdu, 7 + length payload))
        × (print_pdu pdu (7 + length payload)
            ≡ some (record {
              checksum_failed = false;
              sequence_number = s;
              checksum = 0;
              flag = f;
              message = text_of payload;
            }))
  unfolding print_pdu
  print_pdu-create_pdu law buffer s f payload room fits small byte =
      let (pdu, made, verified, number, flagged, carried) =
        create_pdu_round_trip in_cksum law buffer s f payload room fits small byte in
      (pdu, made, rw (number, print_pdu, flagged, print_pdu, verified, carried) refl)
