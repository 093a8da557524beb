-- ===== src/Server/Complete.antt =====
-- What an EOF acknowledgement of the server (server.c, bufferMngment.c) means for the output file.
use native.Mathlib.Decide.{dec_le}
use selective_reject.Base.{
  All, ℕ, zero, suc, ◌≤◌, ◌≡◌, ap, ◌∙◌, inl, inr, arith, some, List, [], ◌∷◌, ◌++◌, append-nil,
  All-get_elem?, be32, pos, unsigned32,
}
use selective_reject.Machine.{World, Env, final, Meets-final}
use selective_reject.Receiver.States.{BufferInfo}
use selective_reject.Receiver.InTurn.{Ready}
use selective_reject.Server.Receive.{manage_incoming_data}
use selective_reject.Server.Network.{DeliversFrom, Contains, other_flag}
use selective_reject.Server.Delivery.{manage_incoming_data-Meets}
use selective_reject.Pdu.Build.{eof_ack, rr_packet, srej_packet, server_to_rcopy, flag_of}
use selective_reject.Receiver.Stored.{Stream}
use selective_reject.Receiver.Delivered.{before, before-suc, Honest, Stops}

-- The bytes of all the packets of a stream.
abbrev pub contents : Stream → List ℕ
contents stream = before stream.bytes stream.last

-- Past the last packet nothing is added.
pub before_past :
    (stream : Stream) (e : ℕ)
    → 1 ≤ stream.last
    → stream.last ≤ e
    → before stream.bytes e ≡ contents stream
before_past stream zero some_data le = absurd (omega arith)
before_past stream (suc e) some_data le = elim (dec_le stream.last e) [
  | yes past ↦
      before-suc stream.bytes e (omega arith)
      ∙ (ap (◌++◌ (before stream.bytes e)) (stream.ended e past)
          ∙ (append-nil (before stream.bytes e) ∙ before_past stream e some_data past))
  | no more ↦ ap (before stream.bytes) {x = suc e} {y = stream.last} (omega arith)
]

module _ (in_cksum : List ℕ → ℕ) where
  -- A server that may send a packet flagged as an EOF acknowledgement expects a number past the EOF
  -- packet's.
  Honest-eof_ack :
      (last e : ℕ) (d : List ℕ) → Honest in_cksum last e d → flag_of d ≡ some eof_ack → suc last ≤ e
  Honest-eof_ack last e d (inl (r, le, inl same)) flagged = absurd (
      omega
        (arith, other_flag in_cksum 0 rr_packet eof_ack (be32 (unsigned32 (pos r))) d same flagged))
  Honest-eof_ack last e d (inl (r, le, inr same)) flagged = absurd (
      omega (
        arith,
        other_flag in_cksum 0 srej_packet eof_ack (be32 (unsigned32 (pos r))) d same flagged,
      ))
  Honest-eof_ack last e d (inr (inl (k, late, le, same))) flagged = omega arith
  Honest-eof_ack last e d (inr (inr same)) flagged =
      absurd (omega (arith, other_flag in_cksum 0 server_to_rcopy eof_ack (0 ∷ []) d same flagged))

  -- With an acknowledgement of the EOF packet sent, whole packets are the whole stream.
  pub eof_ack_complete :
      (stream : Stream) (w : World) (d : List ℕ)
      → 1 ≤ stream.last
      → Stops stream in_cksum w
      → Contains d w.sent
      → flag_of d ≡ some eof_ack
      → w.file ≡ contents stream
  eof_ack_complete stream w d some_data (e, done) (i, at) flagged =
      let past =
        Honest-eof_ack stream.last e d
          (All-get_elem? (Honest in_cksum stream.last e) w.sent i done.honest at) flagged in
      done.written ∙ before_past stream e some_data (omega (arith, past))

module _ (env : Env) (info : BufferInfo) (ready : Ready env info) (stream : Stream) where
  -- Wherever `manage_incoming_data` has got to, be it that it has returned, has exited or still runs:
  -- once it has sent a packet with the flag of an EOF acknowledgement, what the process has written to
  -- the output file is the whole stream, every packet's bytes once and in order and nothing else. It needs a network that
  -- delivers only packets of one sender (or damaged ones that the checksum reveals), in any order
  -- and any number of times, a window of at least one packet, an open and empty file, nothing sent
  -- but the answer to the setup packet, an EOF number from 1 to below INT_MAX, and no short write.
  pub manage_incoming_data_complete :
      (rounds socket_num : ℕ) (w : World) (d : List ℕ)
      → DeliversFrom env stream
      → 1 ≤ stream.last
      → w.file ≡ []
      → All (Honest env.in_cksum stream.last 1) w.sent
      → Contains d (final (manage_incoming_data env rounds socket_num info w)).sent
      → flag_of d ≡ some eof_ack
      → (final (manage_incoming_data env rounds socket_num info w)).file ≡ contents stream
  manage_incoming_data_complete rounds socket_num w d net some_data empty silent told flagged =
      let run = manage_incoming_data env rounds socket_num info w in
      eof_ack_complete env.in_cksum stream (final run) d some_data
        (Meets-final (Stops stream env.in_cksum) run (
          manage_incoming_data-Meets env info ready stream (Stops stream env.in_cksum) rounds
            socket_num w (inr (λ v s. s)) net some_data empty silent))
        told flagged
