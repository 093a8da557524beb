-- ===== src/Server/Example.antt =====
-- A network that carries the small transfer to its end: packet 1, packet 2, and the EOF packet once the
-- server has asked for packet 3.
use selective_reject.Base.{
  ℕ, suc, ◌≡◌, refl, ap, inl, inr, arith, Bool, true, false, ◌&&◌, some, some_inj, List, [], ◌∷◌,
  length, ◌==◌, ==_iff, Bool-cases, pos, if◌then◌else◌,
}
use selective_reject.Machine.{World, Env}
use selective_reject.Pdu.Example.{internet_checksum}
use selective_reject.Pdu.Build.{frame, eof_flag, rr_packet, flag_of}
use selective_reject.Receiver.Delivered.{rr_pdu}
use selective_reject.Receiver.InTurn.{Ready}
use selective_reject.Receiver.Example.{sample, sample_env, sample_info, length-blank, packet}
use selective_reject.Server.Network.{
  Contains, DeliversFrom, data_packet, eof_packet, acked_num_of-frame,
}

abbrev pub same_bytes : List ℕ → List ℕ → Bool
same_bytes [] [] = true
same_bytes (x ∷ xs) (y ∷ ys) = x == y && same_bytes xs ys
same_bytes _ _ = false

abbrev pub was_sent : List ℕ → List (List ℕ) → Bool
was_sent d [] = false
was_sent d (x ∷ xs) = if same_bytes x d then true else was_sent d xs

and_true : (a b : Bool) → (a && b) ≡ true → (a ≡ true) × (b ≡ true)
and_true a b h = ground arith

same_bytes-eq : (xs ys : List ℕ) → same_bytes xs ys ≡ true → xs ≡ ys
same_bytes-eq [] [] h = refl
same_bytes-eq [] (y ∷ ys) h = absurd (cc)
same_bytes-eq (x ∷ xs) [] h = absurd (cc)
same_bytes-eq (x ∷ xs) (y ∷ ys) h =
    let (first, others) = and_true (x == y) (same_bytes xs ys) h in
    rw ((==_iff x y).0 first, same_bytes-eq xs ys others) refl

pub was_sent-Contains : (d : List ℕ) (ds : List (List ℕ)) → was_sent d ds ≡ true → Contains d ds
was_sent-Contains d [] h = absurd (cc)
was_sent-Contains d (x ∷ xs) h = elim (Bool-cases (same_bytes x d)) [
  | inl same ↦ (0, ap (λ (y : List ℕ). some y) (same_bytes-eq x d same))
  | inr other ↦ let (i, at) = was_sent-Contains d xs (rw other at h) in (suc i, at)
]

abbrev third_asked : World → Bool
third_asked w = was_sent (rr_pdu internet_checksum (pos 3)) w.sent

abbrev pub whole_env : Env
whole_env = record sample_env {
  recvfrom_answer = λ w.
      if third_asked w
      then some (frame internet_checksum 3 eof_flag (0 ∷ []))
      else if length w.file == 0
      then some (packet 1)
      else some (packet 2);
}

pub whole_env-Ready : Ready whole_env sample_info
whole_env-Ready = record {
  room = length-blank;
  whole = λ w bytes. inr refl;
  fd = 5;
  opened = refl;
  window = omega arith;
}

pub third_flag : flag_of (rr_pdu internet_checksum (pos 3)) ≡ some rr_packet
unfolding flag_of
third_flag = refl

pub whole_env-DeliversFrom : DeliversFrom whole_env sample
whole_env-DeliversFrom w d got good = elim (Bool-cases (third_asked w)) [
  | inl asked ↦ rw (← some_inj (rw asked at got)) (
      eof_packet
        (inl (
          rr_pdu internet_checksum (pos 3),
          was_sent-Contains (rr_pdu internet_checksum (pos 3)) w.sent asked,
          third_flag,
          acked_num_of-frame internet_checksum 3 rr_packet (omega arith),
        ))
        refl)
  | inr early ↦ elim (Bool-cases (length w.file == 0)) [
    | inl none_yet ↦
        rw (← some_inj (rw (early, none_yet) at got))
          (data_packet 1 (omega arith) (omega arith) refl)
    | inr one ↦
        rw (← some_inj (rw (early, one) at got)) (data_packet 2 (omega arith) (omega arith) refl)
  ]
]
