-- ===== src/Pdu/Build.antt =====
-- The functions that fill a packet buffer: `createPDU`, `createWindowPacket` (windowing.c) and
-- `formatReceiverReadyPDU` (bufferMngment.c), with the flags (bufferMngment.h). A store outside the
-- buffer is `none`.
use selective_reject.Base.{
  ℕ, ◌+◌, ◌%◌, Option, none, some, List, [], ◌∷◌, length, copy_at, take, drop, leb, if◌then◌else◌,
  be32, le16, get_elem?, read_be32, ◌++◌,
}

-- enum FLAG
abbrev pub setup_packet : ℕ
setup_packet = 1

abbrev pub setup_response : ℕ
setup_response = 2

abbrev pub data_pkt : ℕ
data_pkt = 3

abbrev pub rr_packet : ℕ
rr_packet = 5

abbrev pub srej_packet : ℕ
srej_packet = 6

abbrev pub rcopy_to_server : ℕ
rcopy_to_server = 7

abbrev pub server_to_rcopy : ℕ
server_to_rcopy = 8

abbrev pub err_flag : ℕ
err_flag = 32

abbrev pub eof_flag : ℕ
eof_flag = 33

abbrev pub eof_ack : ℕ
eof_ack = 34

abbrev pub rr_pdu_size : ℕ
rr_pdu_size = 11

module _ (in_cksum : List ℕ → ℕ) where
  -- The stores of `createPDU` in their order, on the buffer's old contents; then the length.
  unfoldable pub create_pdu : List ℕ → ℕ → ℕ → List ℕ → Option (List ℕ × ℕ)
  create_pdu pdu_buffer sequence_number flag payload =
      let pdu_length = 4 + 2 + 1 + length payload in
      let numbered = copy_at pdu_buffer 0 (be32 sequence_number) in
      let flagged = copy_at numbered 6 ((flag % 256) ∷ []) in
      let filled = copy_at flagged 7 payload in
      let zeroed = copy_at filled 4 (0 ∷ 0 ∷ []) in
      let cksum = in_cksum (take pdu_length zeroed) in
      if leb pdu_length (length pdu_buffer)
      then some (copy_at zeroed 4 (le16 cksum), pdu_length)
      else none

  unfoldable pub create_window_packet : List ℕ → ℕ → List ℕ → Option (List ℕ × ℕ)
  unfolding create_pdu
  create_window_packet packet_buffer sn payload = create_pdu packet_buffer sn data_pkt payload

  unfoldable pub format_receiver_ready_pdu : List ℕ → ℕ → ℕ → ℕ → Option (List ℕ × ℕ)
  format_receiver_ready_pdu pdu_buffer pkt_seq_num rr_seq_num flag =
      let numbered = copy_at pdu_buffer 0 (be32 pkt_seq_num) in
      let flagged = copy_at numbered 6 ((flag % 256) ∷ []) in
      let filled = copy_at flagged 7 (be32 rr_seq_num) in
      let zeroed = copy_at filled 4 (0 ∷ 0 ∷ []) in
      let cksum = in_cksum (take rr_pdu_size zeroed) in
      if leb rr_pdu_size (length pdu_buffer)
      then some (copy_at zeroed 4 (le16 cksum), rr_pdu_size)
      else none

  -- The packet that a receiver is to see: four bytes of number, two of checksum, the flag, the rest.
  abbrev pub frame : ℕ → ℕ → List ℕ → List ℕ
  frame sequence_number flag payload =
      be32 sequence_number
      ++ (le16 (in_cksum (be32 sequence_number ++ 0 ∷ 0 ∷ flag ∷ payload)) ++ flag ∷ payload)

-- What a receiver takes from the bytes of a packet: the number (`memcpy`, `ntohl`), the flag
-- (byte 6), the payload (from byte 7). `none` if the packet is shorter than that.
unfoldable pub seq_num_of : List ℕ → Option ℕ
seq_num_of = read_be32

unfoldable pub flag_of : List ℕ → Option ℕ
flag_of pdu = get_elem? pdu 6

unfoldable pub payload_of : List ℕ → List ℕ
payload_of = drop 7

-- The number that an RR or SREJ packet carries behind its flag.
unfoldable pub acked_num_of : List ℕ → Option ℕ
acked_num_of pdu = read_be32 (drop 7 pdu)
