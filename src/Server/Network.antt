-- ===== src/Server/Network.antt =====
-- What the network may deliver to the server (the callers of `recvfrom` in server.c): packets of one
-- sender, in any order, any number of times or never, and damaged packets that the checksum reveals.
use selective_reject.Base.{
  ◌⊎◌, some_inj, unsigned32, ℕ, suc, ◌≤◌, ◌<◌, ◌≡◌, ◌≢◌, refl, sym, ap, ◌∙◌, inl, inr, arith, some,
  List, [], ◌∷◌, length, take, get_elem?, All-get_elem?, pos, unsigned32_small, int_max, be32,
  read_be32-be32,
}
use selective_reject.Machine.{World, Env, maxbuf}
use selective_reject.Pdu.Build.{
  server_to_rcopy, frame, data_pkt, eof_flag, eof_ack, rr_packet, srej_packet, acked_num_of,
  flag_of, seq_num_of, payload_of,
}
use selective_reject.Receiver.Stored.{Stream}
use selective_reject.Receiver.Delivered.{Delivered, Honest}
use selective_reject.Receiver.InTurn.{Genuine}
use selective_reject.Server.Receive.{parse_pdu}

abbrev pub Contains : List ℕ → List (List ℕ) → Type 0
Contains d ds = (i : ℕ) × (get_elem? ds i ≡ some d)

-- The server has sent an RR that asks for the EOF packet, or that is the first one.
abbrev pub ToldAll : Stream → List (List ℕ) → Type 0
ToldAll stream sent =
    ((d : List ℕ) × Contains d sent
      × (flag_of d ≡ some rr_packet)
      × (acked_num_of d ≡ some stream.last))
    ⊎ (stream.last ≡ 1)

-- A packet of the sender of `stream`, received when the server has sent `sent`. It sends the EOF
-- packet only when an RR packet has told it that everything before has arrived, or there was nothing.
pub data FromSender (stream : Stream) (in_cksum : List ℕ → ℕ) (sent : List (List ℕ)) (d : List ℕ)
    : Type 0 where
  data_packet :
      (n : ℕ)
      → n < stream.last
      → length (stream.bytes n) ≤ 1400
      → d ≡ frame in_cksum n data_pkt (stream.bytes n)
      → FromSender stream in_cksum sent d
  eof_packet :
      ToldAll stream sent
      → d ≡ frame in_cksum stream.last eof_flag (0 ∷ [])
      → FromSender stream in_cksum sent d
  other_packet :
      (n flag : ℕ) (payload : List ℕ)
      → n ≤ int_max
      → flag ≢ data_pkt
      → flag ≢ eof_flag
      → d ≡ frame in_cksum n flag payload
      → FromSender stream in_cksum sent d

-- The network's part: what passes the checksum is a packet of the sender.
abbrev pub DeliversFrom : Env → Stream → Type 0
DeliversFrom env stream =
    (w : World) (d : List ℕ)
    → env.recvfrom_answer w ≡ some d
    → env.in_cksum (take maxbuf d) ≡ 0
    → FromSender stream env.in_cksum w.sent (take maxbuf d)

pos_injective : (m n : ℕ) → pos m ≡ pos n → m ≡ n
pos_injective m n h = ground arith

module _ (in_cksum : List ℕ → ℕ) where
  pub acked_num_of-frame :
      (a flag : ℕ) → a ≤ int_max → acked_num_of (frame in_cksum 0 flag (be32 a)) ≡ some a
  unfolding acked_num_of
  acked_num_of-frame a flag h = read_be32-be32 a [] (omega arith)

  flag_of-frame :
      (n flag : ℕ) (payload : List ℕ) → flag_of (frame in_cksum n flag payload) ≡ some flag
  unfolding flag_of
  flag_of-frame n flag payload = refl

  -- The flag that is read from a frame is the one that went in.
  pub other_flag :
      (n flag asked : ℕ) (payload d : List ℕ)
      → d ≡ frame in_cksum n flag payload
      → flag_of d ≡ some asked
      → flag ≡ asked
  other_flag n flag asked payload d same flagged =
      some_inj (sym (flag_of-frame n flag payload) ∙ (rw same at flagged))

  pub same_flag : (m n f g : ℕ) (p q : List ℕ) → frame in_cksum m f p ≡ frame in_cksum n g q → f ≡ g
  same_flag m n f g p q same =
      some_inj (sym (flag_of-frame m f p) ∙ (ap flag_of same ∙ flag_of-frame n g q))

  -- A server that may send an RR packet of a number expects that number or a later one.
  Honest-rr_pdu :
      (last e n : ℕ) (d : List ℕ)
      → e ≤ int_max
      → Honest in_cksum last e d
      → flag_of d ≡ some rr_packet
      → acked_num_of d ≡ some n
      → n ≤ e
  Honest-rr_pdu last e n d he (inl (r, le, inl same)) flagged asked =
      let small : unsigned32 (pos r) ≡ r = unsigned32_small r (omega arith) in
      let number : some r ≡ some n =
        sym (rw small (acked_num_of-frame r rr_packet (omega arith))) ∙ (rw same at asked) in
      omega (arith, some_inj number)
  Honest-rr_pdu last e n d he (inl (r, le, inr same)) flagged asked =
      absurd (
        omega
          (arith, other_flag 0 srej_packet rr_packet (be32 (unsigned32 (pos r))) d same flagged))
  Honest-rr_pdu last e n d he (inr (inl (k, late, le, same))) flagged asked =
      absurd
        (omega (arith, other_flag (unsigned32 (pos k)) eof_ack rr_packet (0 ∷ []) d same flagged))
  Honest-rr_pdu last e n d he (inr (inr same)) flagged asked =
      absurd (omega (arith, other_flag 0 server_to_rcopy rr_packet (0 ∷ []) d same flagged))

  pub parse_pdu-frame :
      (n flag : ℕ) (payload : List ℕ)
      → n ≤ int_max
      → parse_pdu (frame in_cksum n flag payload) ≡ some (n, flag, payload)
  unfolding parse_pdu seq_num_of flag_of payload_of
  parse_pdu-frame n flag payload h =
      ap (λ (m : ℕ). some (m, flag, payload)) (some_inj (read_be32-be32 n [] (omega arith)))

  module _ (stream : Stream) (e : ℕ) (w : World) (top : e ≤ suc stream.last)
      (d : Delivered stream in_cksum e w) where
    pub data_packet-Genuine :
        (n : ℕ)
        → n < stream.last
        → length (stream.bytes n) ≤ 1400
        → Genuine stream e (pos n) data_pkt (stream.bytes n)
    data_packet-Genuine n less fits = record {
      fits = fits;
      carries = λ _ m same.
          (omega (arith, pos_injective n m same), ap stream.bytes (pos_injective n m same));
      ends = λ other. absurd (other refl);
    }

    ToldAll-le : ToldAll stream w.sent → stream.last ≤ e
    ToldAll-le (inl (told, (i, at), flagged, asked)) =
        Honest-rr_pdu stream.last e stream.last told (omega (arith, stream.bounded))
          (All-get_elem? (Honest in_cksum stream.last e) w.sent i d.honest at) flagged asked
    ToldAll-le (inr first) = omega (arith, d.started)

    pub eof_packet-Genuine :
        ToldAll stream w.sent → Genuine stream e (pos stream.last) eof_flag (0 ∷ [])
    eof_packet-Genuine told =
        let le = ToldAll-le told in
        record {
          fits = omega arith;
          carries = λ z. absurd (omega arith);
          ends = λ _ m same less. (
            omega (arith, pos_injective stream.last m same),
            sym (pos_injective stream.last m same),
          );
        }
