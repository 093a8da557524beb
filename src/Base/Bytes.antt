-- ===== src/Base/Bytes.antt =====
-- Numbers as bytes in memory: network order (`htonl`, `htons` and back) and the little-endian order
-- of the host for which the repository's binaries are built.
use Prim.Native.Nat.{ℕ, ◌+◌, ◌*◌, ◌/◌, ◌%◌, ◌^◌, ◌<◌}
use Prim.Native.Char.{code}
use Prim.Native.String.{String}
use mathlib.Core.Path.{◌≡◌}
use mathlib.Core.List.{List, [], ◌∷◌, ◌++◌}
use mathlib.Core.Option.{Option, none, some}
use native.Mathlib.Omega.{arith}

-- The bytes of an ASCII text.
abbrev pub codes : String → List ℕ
codes String.[] = []
codes (String.◌∷◌ c s) = code c ∷ codes s

-- The four bytes that `memcpy(p, &x, 4)` stores for `x = htonl(n)`.
abbrev pub be32 : ℕ → List ℕ
be32 n = (n / 2 ^ 24 % 256) ∷ (n / 2 ^ 16 % 256) ∷ (n / 2 ^ 8 % 256) ∷ (n % 256) ∷ []

-- The two bytes of `htons(n)`.
abbrev pub be16 : ℕ → List ℕ
be16 n = (n / 2 ^ 8 % 256) ∷ (n % 256) ∷ []

-- The two bytes of an `unsigned short` in host order.
abbrev pub le16 : ℕ → List ℕ
le16 n = (n % 256) ∷ (n / 2 ^ 8 % 256) ∷ []

-- `ntohl` of the first four bytes; `none` if there are fewer.
abbrev pub read_be32 : List ℕ → Option ℕ
read_be32 (a ∷ b ∷ c ∷ d ∷ _) = some (a * 2 ^ 24 + b * 2 ^ 16 + c * 2 ^ 8 + d)
read_be32 _ = none

-- `ntohs` of the first two bytes.
abbrev pub read_be16 : List ℕ → Option ℕ
read_be16 (a ∷ b ∷ _) = some (a * 2 ^ 8 + b)
read_be16 _ = none

module _ (n : ℕ) (rest : List ℕ) where
  pub read_be32-be32 : n < 2 ^ 32 → read_be32 (be32 n ++ rest) ≡ some n
  read_be32-be32 h = ground arith

  pub read_be16-be16 : n < 2 ^ 16 → read_be16 (be16 n ++ rest) ≡ some n
  read_be16-be16 h = ground arith
