-- ===== src/Machine/Safe.antt =====
-- The wrappers of safeUtil.c that the file transfer itself does not call: an error ends the process.
use selective_reject.Base.{ℕ, ◌+◌, none, some, List, [], ◌∷◌, ◌++◌, take, replicate, if◌then◌else◌}
use selective_reject.Machine.Defs.{Env, M, returned, exited, tick}

module _ (env : Env) where
  -- `recv` into a buffer of `len` bytes.
  unfoldable pub safe_recv : ℕ → M (List ℕ)
  safe_recv len w = elim (env.recv_answer w) [
    | none ↦ exited (tick w)
    | some bytes ↦ returned (take len bytes) (tick w)
  ]

  unfoldable pub safe_send : List ℕ → M (Unit {0})
  safe_send bytes w =
      if env.send_fails w
      then exited (tick w)
      else returned tt (record w { clock = w.clock + 1; sent = w.sent ++ bytes ∷ [] })

  -- The block of memory keeps its first elements; those behind them are not initialised yet.
  unfoldable pub srealloc : M (Unit {0})
  srealloc w = if env.malloc_fails w then exited (tick w) else returned tt (tick w)

  -- So many elements, all of whose bytes are 0.
  unfoldable pub s_calloc : {A : Type 0} → ℕ → A → M (List A)
  s_calloc nmemb zeros w =
      if env.malloc_fails w then exited (tick w) else returned (replicate nmemb zeros) (tick w)
