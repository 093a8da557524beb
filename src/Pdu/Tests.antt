-- ===== src/Pdu/Tests.antt =====
-- Concrete packets.
use selective_reject.Base.{false, be32, ℕ, ◌≡◌, refl, arith, some, List, [], ◌∷◌, take, replicate}
use selective_reject.Pdu.Build.{
  create_pdu, format_receiver_ready_pdu, seq_num_of, flag_of, payload_of, acked_num_of, data_pkt,
  rr_packet,
}
use selective_reject.Pdu.Layout.{
  format_receiver_ready_pdu-eq-create_pdu, create_pdu_round_trip,
  format_receiver_ready_pdu_round_trip,
}
use selective_reject.Pdu.Print.{print_pdu, text_of, print_pdu-create_pdu}
use selective_reject.Pdu.Example.{internet_checksum, internet_checksum-Verifies}

abbrev scratch : List ℕ
scratch = replicate 20 9

create_pdu_round_trip_example :
    (pdu : List ℕ) × (create_pdu internet_checksum scratch 258 data_pkt (7 ∷ 8 ∷ 9 ∷ [])
      ≡ some (pdu, 10))
    × (internet_checksum (take 10 pdu) ≡ 0)
    × (seq_num_of (take 10 pdu) ≡ some 258)
    × (flag_of (take 10 pdu) ≡ some data_pkt)
    × (payload_of (take 10 pdu) ≡ 7 ∷ 8 ∷ 9 ∷ [])
create_pdu_round_trip_example =
    create_pdu_round_trip internet_checksum internet_checksum-Verifies scratch 258 data_pkt
      (7 ∷ 8 ∷ 9 ∷ []) (omega arith) (omega arith) (omega arith) (omega arith)

format_receiver_ready_pdu_round_trip_example :
    (pdu : List ℕ) × (format_receiver_ready_pdu internet_checksum scratch 0 70000 rr_packet
      ≡ some (pdu, 11))
    × (internet_checksum (take 11 pdu) ≡ 0)
    × (flag_of (take 11 pdu) ≡ some rr_packet)
    × (acked_num_of (take 11 pdu) ≡ some 70000)
format_receiver_ready_pdu_round_trip_example =
    format_receiver_ready_pdu_round_trip internet_checksum internet_checksum-Verifies scratch 70000
      rr_packet (omega arith) (omega arith) (omega arith)

format_receiver_ready_pdu-eq-create_pdu_example :
    format_receiver_ready_pdu internet_checksum scratch 0 70000 rr_packet
    ≡ create_pdu internet_checksum scratch 0 rr_packet (be32 70000)
format_receiver_ready_pdu-eq-create_pdu_example =
    format_receiver_ready_pdu-eq-create_pdu internet_checksum scratch 0 70000 rr_packet

-- The bytes of a data packet, in a buffer whose old contents stay behind it.
create_pdu_bytes :
    create_pdu internet_checksum (replicate 10 9) 1 data_pkt (72 ∷ 105 ∷ [])
    ≡ some (0 ∷ 0 ∷ 0 ∷ 1 ∷ 147 ∷ 182 ∷ 3 ∷ 72 ∷ 105 ∷ 9 ∷ [], 9)
unfolding create_pdu
create_pdu_bytes = refl

print_pdu-create_pdu_example :
    (pdu : List ℕ) × (create_pdu internet_checksum scratch 258 data_pkt (72 ∷ 0 ∷ 9 ∷ [])
      ≡ some (pdu, 10))
    × (print_pdu internet_checksum pdu 10
        ≡ some (record {
          checksum_failed = false;
          sequence_number = 258;
          checksum = 0;
          flag = data_pkt;
          message = text_of (72 ∷ 0 ∷ 9 ∷ []);
        }))
print_pdu-create_pdu_example =
    print_pdu-create_pdu internet_checksum internet_checksum-Verifies scratch 258 data_pkt
      (72 ∷ 0 ∷ 9 ∷ []) (omega arith) (omega arith) (omega arith) (omega arith)
