-- ===== src/Server/FinishTests.antt =====
-- The transfer of three bytes over a network that damages the first datagram, to its end.
use selective_reject.Base.{ℕ, zero, suc, ◌≤◌, ◌≡◌, refl, arith, pos}
use selective_reject.Machine.{final}
use selective_reject.Pdu.Example.{internet_checksum}
use selective_reject.Receiver.Example.{sample, sample_info, start}
use selective_reject.Receiver.Delivered.{eof_ack_pdu}
use selective_reject.Server.Receive.{manage_incoming_data}
use selective_reject.Server.Network.{Contains}
use selective_reject.Server.Complete.{contents}
use selective_reject.Server.Finishes.{manage_incoming_data_arrives}
use selective_reject.Server.Damaging.{
  damaging_env, damaging_env-Works, NextPacket, damaging_env-Gives,
}

sample_behind : (e : ℕ) → 1 ≤ e → e ≤ 3 → NextPacket sample e
sample_behind zero one top = absurd (omega arith)
sample_behind (suc zero) one top = (refl, refl)
sample_behind (suc (suc zero)) one top = (refl, refl)
sample_behind (suc (suc (suc zero))) one top = (refl, refl)
sample_behind (suc (suc (suc (suc n)))) one top = absurd (omega arith)

manage_incoming_data_arrives_example :
    ((final (manage_incoming_data damaging_env 4 5 sample_info start)).file ≡ contents sample)
    × Contains
        (eof_ack_pdu internet_checksum (pos 3))
        (final (manage_incoming_data damaging_env 4 5 sample_info start)).sent
manage_incoming_data_arrives_example =
    manage_incoming_data_arrives damaging_env damaging_env-Works sample_info 5 refl (omega arith)
      sample (omega arith) 1 (damaging_env-Gives sample sample_behind) 4 5 start (omega arith) refl
      tt (omega arith)
