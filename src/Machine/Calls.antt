-- ===== src/Machine/Calls.antt =====
-- What one call of the operating system can change (safeUtil.c, `write`).
use selective_reject.Base.{
  take, ℕ, ap, ◌≡◌, refl, ◌⊎◌, inl, inr, arith, none, some, List, [], ◌∷◌, ◌++◌, length, take_all,
  pos, negsuc, Bool-cases, Option-cases,
}
use selective_reject.Machine.Defs.{maxbuf, World, Env, safe_sendto, safe_recvfrom, write}
use selective_reject.Machine.Triple.{Ends}

-- A write fails, or takes all the bytes that it is given.
abbrev pub NoShortWrite : Env → Type 0
NoShortWrite env =
    (w : World) (bytes : List ℕ)
    → (env.write_answer w bytes ≡ none) ⊎ (env.write_answer w bytes ≡ some (length bytes))

module _ (env : Env) (E U : World → Type 0) where
  -- A datagram is sent, or the process exits; nothing is written.
  pub safe_sendto-Ends :
      (d : List ℕ) (w : World)
      → ((v : World) → v.file ≡ w.file → v.sent ≡ w.sent → E v)
      → Ends E U (λ _ v. (v.file ≡ w.file) × (v.sent ≡ w.sent ++ d ∷ [])) (safe_sendto env d w)
  unfolding safe_sendto
  safe_sendto-Ends d w exit = elim (Bool-cases (env.sendto_fails w)) [
    | inl e ↦ rw e (exit _ refl refl)
    | inr e ↦ rw e (refl, refl)
  ]

  -- A write returns -1 and leaves the file, or returns the length and extends the file.
  pub write-Ends :
      (bytes : List ℕ) (w : World)
      → NoShortWrite env
      → Ends E U
          (λ n v.
            ((n ≡ negsuc 0) × (v.file ≡ w.file) × (v.sent ≡ w.sent)
              ⊎ (n ≡ pos (length bytes)) × (v.file ≡ w.file ++ bytes) × (v.sent ≡ w.sent)))
          (write env bytes w)
  unfolding write
  write-Ends bytes w whole = elim (whole w bytes) [
    | inl e ↦ rw (e, write) (inl (refl, refl, refl))
    | inr e ↦
        rw (e, write)
          (inr (refl, ap (◌++◌ w.file) (take_all (length bytes) bytes (omega arith)), refl))
  ]

-- Receiving a datagram changes neither the file nor what was sent.
pub same_recvfrom :
    (env : Env) (E U : World → Type 0) (P : World → Type 0) (w : World)
    → ((v : World) → v.file ≡ w.file → v.sent ≡ w.sent → P v)
    → ((v : World) → P v → E v)
    → Ends E U (λ _ v. P v) (safe_recvfrom env w)
unfolding safe_recvfrom
same_recvfrom env E U P w keep exit = elim (Option-cases (env.recvfrom_answer w)) [
  | inl e ↦ rw (e, safe_recvfrom) (exit _ (keep _ refl refl))
  | inr (d, e) ↦ rw (e, safe_recvfrom) (keep _ refl refl)
]

-- The datagram that is received, and that nothing else changes.
pub safe_recvfrom-Ends :
    (env : Env) (E U : World → Type 0) (w : World)
    → ((v : World) → v.file ≡ w.file → v.sent ≡ w.sent → E v)
    → Ends E U
        (λ pdu v.
          (d : List ℕ) × (env.recvfrom_answer w ≡ some d)
          × (pdu ≡ take maxbuf d)
          × (v.file ≡ w.file)
          × (v.sent ≡ w.sent))
        (safe_recvfrom env w)
unfolding safe_recvfrom
safe_recvfrom-Ends env E U w exit = elim (Option-cases (env.recvfrom_answer w)) [
  | inl e ↦ rw (e, safe_recvfrom) (exit _ refl refl)
  | inr (d, e) ↦ rw (e, safe_recvfrom) (d, refl, refl, refl, refl)
]
