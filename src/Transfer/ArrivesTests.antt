-- ===== src/Transfer/ArrivesTests.antt =====
-- The transfer of three bytes with a server whose first datagram is damaged, to its end.
use selective_reject.Base.{ℕ, zero, suc, ◌≤◌, ◌≡◌, refl, arith, inr, [], ◌∷◌, pos}
use selective_reject.Machine.{final}
use selective_reject.Pdu.Example.{internet_checksum, internet_checksum-Verifies}
use selective_reject.Receiver.Example.{start, length-blank}
use selective_reject.Receiver.Delivered.{eof_ack_pdu}
use selective_reject.Receiver.Stored.{Stream}
use selective_reject.Sender.Setup.{first_packet}
use selective_reject.Server.Network.{Contains}
use selective_reject.Server.Child.{process_file}
use selective_reject.Server.Served.{Serves}
use selective_reject.Server.Damaging.{
  damaging_env, damaging_env-Works, NextPacket, damaging_env-Gives,
}
use selective_reject.Transfer.Streams.{stream_of}
use selective_reject.Transfer.Link.{rcopy_task}
use selective_reject.Transfer.Arrives.{process_file_arrives}
use selective_reject.Transfer.Example.{sample_args, caller, caller-Startable}

damaging_env-Serves : Serves damaging_env sample_args
damaging_env-Serves = record {
  law = internet_checksum-Verifies;
  room = length-blank;
  whole = λ w bytes. inr refl;
  fd = 5;
  opens = λ w. refl;
  named = (λ z. cc, (λ z. cc, (λ z. cc, (λ z. cc, tt))));
  short = omega arith;
  some_window = omega arith;
  window = omega arith;
  buffer = omega arith;
}

abbrev pieces : Stream
pieces = stream_of (rcopy_task damaging_env caller) caller-Startable

pieces_behind : (e : ℕ) → 1 ≤ e → e ≤ 3 → NextPacket pieces e
pieces_behind zero one top = absurd (omega arith)
pieces_behind (suc zero) one top = (refl, refl)
pieces_behind (suc (suc zero)) one top = (refl, refl)
pieces_behind (suc (suc (suc zero))) one top = (refl, refl)
pieces_behind (suc (suc (suc (suc n)))) one top = absurd (omega arith)

process_file_arrives_example :
    ((final (process_file damaging_env 4 (first_packet damaging_env sample_args) start)).file
      ≡ 72 ∷ 105 ∷ 33 ∷ [])
    × Contains
        (eof_ack_pdu internet_checksum (pos 3))
        (final (process_file damaging_env 4 (first_packet damaging_env sample_args) start)).sent
process_file_arrives_example =
    process_file_arrives damaging_env caller damaging_env-Serves caller-Startable 4 1 start
      damaging_env-Works (λ v. (3, refl, omega arith)) (damaging_env-Gives pieces pieces_behind)
      refl (omega arith)
