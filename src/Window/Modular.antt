-- ===== src/Window/Modular.antt =====
-- Numbers that are less than a window apart have different slots.
use native.Mathlib.Nat.{mod-add-mod, mod-eq_of_lt, mod-eq-sub-mod, mod-lt}
use native.Mathlib.Decide.{dec_lt}
use selective_reject.Base.{ℕ, ◌+◌, ◌-◌, ◌%◌, ◌<◌, ◌≢◌, sym, ap, ◌∙◌, arith}

-- A shift by less than the modulus moves a remainder.
shifted-ne : (w r d : ℕ) → r < w → 0 < d → d < w → (r + d) % w ≢ r
shifted-ne w r d small up less = elim (dec_lt (r + d) w) [
  | yes fits ↦ omega (arith, mod-eq_of_lt fits)
  | no over ↦ omega (
    arith,
    mod-eq-sub-mod {n = r + d} {m = w} (omega arith),
    mod-eq_of_lt {n = r + d - w} {m = w} (omega arith),
  )
]

pub mod-ne : (w a b : ℕ) → a < b → b < a + w → a % w ≢ b % w
mod-ne w a b less near same =
    shifted-ne w (a % w) (b - a) (mod-lt a (omega arith)) (omega arith) (omega arith) (
      mod-add-mod a w (b - a)
      ∙ (ap (λ (x : ℕ). x % w) {x = a + (b - a)} {y = b} (omega arith) ∙ sym same))
