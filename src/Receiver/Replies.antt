-- ===== src/Receiver/Replies.antt =====
-- The packets that the receiving side sends: `sendRR`, `sendSREJ`, `sendEOFAck` (bufferMngment.c).
use selective_reject.Base.{[], ◌∷◌, take, ℤ, unsigned32}
use selective_reject.Machine.{Env, M, ◌>>=◌, defined, safe_sendto}
use selective_reject.Pdu.Build.{
  create_pdu, format_receiver_ready_pdu, rr_packet, srej_packet, eof_ack,
}

module _ (env : Env) where
  unfoldable pub send_rr : ℤ → M (Unit {0})
  send_rr rr_seq_num = do
    (pdu, pdu_size) ←
        defined
          (format_receiver_ready_pdu env.in_cksum env.garbage 0 (unsigned32 rr_seq_num) rr_packet)
    safe_sendto env (take pdu_size pdu)

  unfoldable pub send_srej : ℤ → M (Unit {0})
  send_srej srej_seq_num = do
    (pdu, pdu_size) ←
        defined (
          format_receiver_ready_pdu env.in_cksum env.garbage 0 (unsigned32 srej_seq_num)
            srej_packet)
    safe_sendto env (take pdu_size pdu)

  unfoldable pub send_eof_ack : ℤ → M (Unit {0})
  send_eof_ack eof_seq_num = do
    (pdu, num_bytes) ←
        defined (create_pdu env.in_cksum env.garbage (unsigned32 eof_seq_num) eof_ack (0 ∷ []))
    safe_sendto env (take num_bytes pdu)
