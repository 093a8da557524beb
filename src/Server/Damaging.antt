-- ===== src/Server/Damaging.antt =====
-- The server's surroundings for a transfer of three bytes, over a network that damages one datagram.
use selective_reject.Base.{
  ℕ, zero, suc, ◌≤◌, ◌≡◌, refl, arith, inl, inr, Bool-cases, ==_iff, some, List, [], ◌∷◌, length,
  take, ◌==◌, if◌then◌else◌,
}
use selective_reject.Machine.{Env, maxbuf}
use selective_reject.Pdu.Build.{frame, eof_flag}
use selective_reject.Pdu.Example.{internet_checksum}
use selective_reject.Receiver.Example.{sample_env, packet, length-blank}
use selective_reject.Receiver.Stored.{Stream}
use selective_reject.Receiver.Delivered.{before}
use selective_reject.Server.Working.{Works}
use selective_reject.Server.Finishes.{damaged, awaited, Gives}

-- The packet behind so many bytes of the file.
abbrev pub next_packet : ℕ → List ℕ
next_packet zero = packet 1
next_packet (suc zero) = []
next_packet (suc (suc zero)) = packet 2
next_packet (suc (suc (suc n))) = frame internet_checksum 3 eof_flag (0 ∷ [])

abbrev pub damaging_env : Env
damaging_env = record sample_env {
  recvfrom_answer = λ w.
      if damaged internet_checksum w.received == 0
      then some (1 ∷ [])
      else some (next_packet (length w.file));
}

pub damaging_env-Works : Works damaging_env
damaging_env-Works = record {
  room = length-blank;
  sends = λ w. refl;
  writes = λ w bytes. refl;
  allocates = λ w. refl;
}

-- What the network gives behind the packets before `e`.
abbrev pub NextPacket : Stream → ℕ → Type 0
NextPacket stream e =
    (take maxbuf (next_packet (length (before stream.bytes e)))
      ≡ awaited internet_checksum stream e)
    × (internet_checksum (take maxbuf (next_packet (length (before stream.bytes e)))) ≡ 0)

pub damaging_env-Gives :
    (stream : Stream)
    → ((e : ℕ) → 1 ≤ e → e ≤ stream.last → NextPacket stream e)
    → Gives damaging_env stream 1
damaging_env-Gives stream behind w e top at =
    elim (Bool-cases (damaged internet_checksum w.received == 0)) [
      | inl first ↦
          let none_yet = (==_iff (damaged internet_checksum w.received) 0).0 first in
          (1 ∷ [], rw first refl, inr (omega arith, omega (arith, none_yet)))
      | inr later ↦ (
        next_packet (length w.file),
        rw later refl,
        inl (rw at.written (behind e at.started top)),
      )
    ]
