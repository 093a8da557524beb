-- ===== src/Machine/Triple.antt =====
-- Partial and total correctness of a run: what holds when it returns, when it exits, and when its
-- rounds are used up. A run with undefined behaviour has no such property.
use selective_reject.Base.{ℕ, ◌≡◌, refl, length, Option, none, some}
use selective_reject.Machine.Defs.{
  World, Run, returned, exited, undefined, unfinished, Env, and_then, defined,
}

-- `E` where the process exits, `U` where the rounds are used up, `Q` where it returns.
abbrev pub Ends :
    {A : Type 0} → (World → Type 0) → (World → Type 0) → (A → World → Type 0) → Run A → Type 0
Ends E U Q (returned a w) = Q a w
Ends E U Q (exited w) = E w
Ends E U Q (undefined w) = ⊥
Ends E U Q (unfinished w) = U w

abbrev pub Never : World → Type 0
Never w = ⊥

module _ {A B : Type 0} (E U : World → Type 0) where
  pub Ends-and_then :
      (P : A → World → Type 0) (Q : B → World → Type 0) (m : Run A) (f : A → World → Run B)
      → Ends E U P m
      → ((a : A) (w : World) → P a w → Ends E U Q (f a w))
      → Ends E U Q (and_then m f)
  Ends-and_then P Q (returned a w) f h k = k a w h
  Ends-and_then P Q (exited w) f h k = h
  Ends-and_then P Q (undefined w) f h k = absurd h
  Ends-and_then P Q (unfinished w) f h k = h

module _ {A : Type 0} (E U : World → Type 0) where
  pub Ends-mono :
      (P Q : A → World → Type 0) (m : Run A)
      → Ends E U P m
      → ((a : A) (w : World) → P a w → Q a w)
      → Ends E U Q m
  Ends-mono P Q (returned a w) h k = k a w h
  Ends-mono P Q (exited w) h k = h
  Ends-mono P Q (undefined w) h k = h
  Ends-mono P Q (unfinished w) h k = h

-- An uninitialised array has room for a datagram.
abbrev pub HasRoom : Env → Type 0
HasRoom env = ◌≡◌ {A = ℕ} (length env.garbage) 1407

-- A run that is never cut short meets any claim about one that is.
pub Ends-weaken :
    {A : Type 0} (E U : World → Type 0) (Q : A → World → Type 0) (m : Run A)
    → Ends E Never Q m
    → Ends E U Q m
Ends-weaken E U Q (returned a w) h = h
Ends-weaken E U Q (exited w) h = h
Ends-weaken E U Q (undefined w) h = h
Ends-weaken E U Q (unfinished w) h = absurd h

-- The process and its surroundings where a run stands at the end.
abbrev pub final : {A : Type 0} → Run A → World
final (returned a w) = w
final (exited w) = w
final (undefined w) = w
final (unfinished w) = w

pub Ends-final :
    {A : Type 0} (P : World → Type 0) (m : Run A) → Ends P P (λ _ w. P w) m → P (final m)
Ends-final P (returned a w) h = h
Ends-final P (exited w) h = h
Ends-final P (undefined w) h = absurd h
Ends-final P (unfinished w) h = h

-- A run that meets a claim meets every weaker one.
pub Ends-mapped :
    {A : Type 0} (E E' U U' : World → Type 0) (Q Q' : A → World → Type 0) (m : Run A)
    → ((w : World) → E w → E' w)
    → ((w : World) → U w → U' w)
    → ((a : A) (w : World) → Q a w → Q' a w)
    → Ends E U Q m
    → Ends E' U' Q' m
Ends-mapped E E' U U' Q Q' (returned a w) e u q h = q a w h
Ends-mapped E E' U U' Q Q' (exited w) e u q h = e w h
Ends-mapped E E' U U' Q Q' (undefined w) e u q h = h
Ends-mapped E E' U U' Q Q' (unfinished w) e u q h = u w h

-- As `Ends`, with a claim `D` on where the behaviour becomes undefined, and one claim `I` wherever the
-- process exits or its rounds are used up.
abbrev pub Meets :
    {A : Type 0} → (World → Type 0) → (World → Type 0) → (A → World → Type 0) → Run A → Type 0
Meets I D Q (returned a w) = Q a w
Meets I D Q (exited w) = I w
Meets I D Q (undefined w) = D w
Meets I D Q (unfinished w) = I w

module _ {A B : Type 0} (I D : World → Type 0) where
  pub Meets-and_then :
      (P : A → World → Type 0) (Q : B → World → Type 0) (m : Run A) (f : A → World → Run B)
      → Meets I D P m
      → ((a : A) (w : World) → P a w → Meets I D Q (f a w))
      → Meets I D Q (and_then m f)
  Meets-and_then P Q (returned a w) f h k = k a w h
  Meets-and_then P Q (exited w) f h k = h
  Meets-and_then P Q (undefined w) f h k = h
  Meets-and_then P Q (unfinished w) f h k = h

  -- A value that is there goes on; one that is not has to be excused.
  pub Meets-defined :
      (Q : B → World → Type 0) (o : Option A) (f : A → World → Run B) (w : World)
      → (o ≡ none → D w)
      → ((a : A) → o ≡ some a → Meets I D Q (f a w))
      → Meets I D Q (and_then (defined o w) f)
  Meets-defined Q none f w lost k = lost refl
  Meets-defined Q (some a) f w lost k = k a refl

pub Meets-final :
    {A : Type 0} (P : World → Type 0) (m : Run A) → Meets P P (λ _ w. P w) m → P (final m)
Meets-final P (returned a w) h = h
Meets-final P (exited w) h = h
Meets-final P (undefined w) h = h
Meets-final P (unfinished w) h = h

-- Where undefined behaviour has no excuse, there is none.
pub Meets-Ends :
    {A : Type 0} (I : World → Type 0) (Q : A → World → Type 0) (m : Run A)
    → Meets I Never Q m
    → Ends I I Q m
Meets-Ends I Q (returned a w) h = h
Meets-Ends I Q (exited w) h = h
Meets-Ends I Q (undefined w) h = h
Meets-Ends I Q (unfinished w) h = h

-- A claim on the result alone comes on top of another.
pub Meets-both :
    {A : Type 0} (I D : World → Type 0) (P Q : A → World → Type 0) (m : Run A)
    → Meets I D P m
    → Meets (λ _. Unit {0}) (λ _. Unit {0}) Q m
    → Meets I D (λ a w. P a w × Q a w) m
Meets-both I D P Q (returned a w) h k = (h, k)
Meets-both I D P Q (exited w) h k = h
Meets-both I D P Q (undefined w) h k = h
Meets-both I D P Q (unfinished w) h k = h

pub Meets-mapped :
    {A : Type 0} (I I' D D' : World → Type 0) (Q Q' : A → World → Type 0) (m : Run A)
    → ((w : World) → I w → I' w)
    → ((w : World) → D w → D' w)
    → ((a : A) (w : World) → Q a w → Q' a w)
    → Meets I D Q m
    → Meets I' D' Q' m
Meets-mapped I I' D D' Q Q' (returned a w) i d q h = q a w h
Meets-mapped I I' D D' Q Q' (exited w) i d q h = i w h
Meets-mapped I I' D D' Q Q' (undefined w) i d q h = d w h
Meets-mapped I I' D D' Q Q' (unfinished w) i d q h = i w h

-- A run without undefined behaviour meets any claim about it.
pub Ends-Meets :
    {A : Type 0} (I D : World → Type 0) (Q : A → World → Type 0) (m : Run A)
    → Ends I I Q m
    → Meets I D Q m
Ends-Meets I D Q (returned a w) h = h
Ends-Meets I D Q (exited w) h = h
Ends-Meets I D Q (undefined w) h = absurd h
Ends-Meets I D Q (unfinished w) h = h

-- What is known of a run anyway, and that its behaviour is defined.
pub Meets-Never :
    {A : Type 0} (I D D' E U : World → Type 0) (Q Q' : A → World → Type 0) (m : Run A)
    → Meets I D Q m
    → Ends E U Q' m
    → Meets I D' Q m
Meets-Never I D D' E U Q Q' (returned a w) h k = h
Meets-Never I D D' E U Q Q' (exited w) h k = h
Meets-Never I D D' E U Q Q' (undefined w) h k = absurd k
Meets-Never I D D' E U Q Q' (unfinished w) h k = h

-- A run that can only return.
pub Meets-returns :
    {A : Type 0} (I D I' D' E U : World → Type 0) (Q Q' : A → World → Type 0) (m : Run A)
    → Meets I D Q m
    → Ends E U Q' m
    → ((w : World) → ¬ E w)
    → ((w : World) → ¬ U w)
    → Meets I' D' Q m
Meets-returns I D I' D' E U Q Q' (returned a w) h k e u = h
Meets-returns I D I' D' E U Q Q' (exited w) h k e u = absurd (e w k)
Meets-returns I D I' D' E U Q Q' (undefined w) h k e u = absurd k
Meets-returns I D I' D' E U Q Q' (unfinished w) h k e u = absurd (u w k)

pub and_then_assoc :
    {A B C : Type 0} (m : Run A) (f : A → World → Run B) (g : B → World → Run C)
    → and_then (and_then m f) g ≡ and_then m (λ a w. and_then (f a w) g)
and_then_assoc (returned a w) f g = refl
and_then_assoc (exited w) f g = refl
and_then_assoc (undefined w) f g = refl
and_then_assoc (unfinished w) f g = refl
