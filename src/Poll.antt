-- ===== src/Poll.antt =====
-- `pollCall` of pollLib.c: it waits for a socket of the poll set and returns the lowest ready one.
pub mod Set
pub mod Added
pub mod Watched
pub mod Removed
pub mod Kept
mod Tests
use selective_reject.Base.{
  refl, inr, inl, Option-cases, ◌≡◌, ℕ, ◌+◌, List, [], ◌∷◌, ltb, if◌then◌else◌, ℤ, pos, negsuc,
  none, some,
}
use selective_reject.Machine.{Ends, World, Env, M, returned, exited}

-- The loop over `revents`, from index `i`: the first entry above 0, else -1.
unfoldable pub first_ready : List ℕ → ℕ → ℤ
first_ready [] i = negsuc 0
first_ready (r ∷ rs) i = if ltb 0 r then pos i else first_ready rs (i + 1)

module _ (env : Env) where
  -- -1 on a timeout; an error of `poll` ends the process.
  unfoldable pub poll_call : M ℤ
  unfolding first_ready
  poll_call w = elim (env.poll_answer w) [
    | none ↦ exited (record w { clock = w.clock + 1 })
    | some (poll_value, revents) ↦
        returned (if ltb 0 poll_value then first_ready revents 0 else negsuc 0)
          (record w { clock = w.clock + 1 })
  ]

-- Waiting changes neither the file nor what was sent.
pub same_poll_call :
    (env : Env) (E U : World → Type 0) (P : World → Type 0) (w : World)
    → ((v : World) → v.file ≡ w.file → v.sent ≡ w.sent → P v)
    → ((v : World) → P v → E v)
    → Ends E U (λ _ v. P v) (poll_call env w)
unfolding poll_call
same_poll_call env E U P w keep exit = elim (Option-cases (env.poll_answer w)) [
  | inl e ↦ rw (e, poll_call) (exit _ (keep _ refl refl))
  | inr (a, e) ↦ rw (e, poll_call) (keep _ refl refl)
]
