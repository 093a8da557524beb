-- ===== src/Pdu/Example.antt =====
-- A checksum that meets the law of the Internet checksum, to run the tests with.
use Prim.Native.Nat.{ℕ, ◌+◌, ◌-◌, ◌*◌, ◌%◌, ◌/◌, ◌≤◌}
use selective_reject.Base.{◌≡◌, refl, arith, List, [], ◌∷◌, ◌==◌, if◌then◌else◌}
use selective_reject.Pdu.Layout.{Verifies}

-- The sum of the 16-bit little-endian words; a last odd byte counts as a word of its own.
abbrev pub sum_words : List ℕ → ℕ
sum_words [] = 0
sum_words (a ∷ []) = a
sum_words (a ∷ b ∷ rest) = a + 256 * b + sum_words rest

-- The sum with its carries added back, complemented.
abbrev pub complement : ℕ → ℕ
complement s = if s == 0 then 65535 else 65534 - (s - 1) % 65535

abbrev pub internet_checksum : List ℕ → ℕ
internet_checksum bytes = complement (sum_words bytes)

complement_fills : (s t c : ℕ) → c ≡ complement s → t ≡ s + c → complement t ≡ 0
complement_fills s t c e d = ground arith

complement-le : (s : ℕ) → complement s ≤ 65535
complement-le s = ground arith

pub internet_checksum-Verifies : Verifies internet_checksum
internet_checksum-Verifies a b c d rest h =
    let x = complement (a + 256 * b + (c + 256 * d + (0 + 256 * 0 + sum_words rest))) in
    complement_fills (a + 256 * b + (c + 256 * d + (0 + 256 * 0 + sum_words rest)))
      (a + 256 * b + (c + 256 * d + (x % 256 + 256 * (x / 256 % 256) + sum_words rest))) x refl
      (omega (arith, complement-le (a + 256 * b + (c + 256 * d + (0 + 256 * 0 + sum_words rest)))))
