-- ===== src/Poll/Kept.antt =====
-- What the set-up of the poll set of one socket (pollLib.c) leaves alone.
use selective_reject.Base.{
  ℕ, ◌+◌, ◌≤◌, ◌≡◌, true, ◌⊎◌, inl, inr, length, ltb, leb, Bool-cases, int_max,
}
use selective_reject.Machine.{
  World, Env, Run, and_then, and_then_assoc, Meets, Meets-and_then, Meets-mapped, Meets-Never,
  Never, tick, ◌>>=◌, srealloc, s_calloc,
}
use selective_reject.Poll.Set.{
  PollFd, PollSet, no_poll_set, poll_set_size, setup_poll_set, grow_poll_set, add_to_poll_set,
  store_fd,
}
use selective_reject.Poll.Watched.{Watches, add_to_poll_set-Watches}

module _ (env : Env) (P I : World → Type 0) (ticks : (w : World) → P w → P (tick w))
    (safe : (w : World) → P w → I w) where
  setup_poll_set-Kept :
      (ps : PollSet) (w : World) → P w → Meets I P (λ _ v. P v) (setup_poll_set env ps w)
  unfolding setup_poll_set s_calloc
  setup_poll_set-Kept ps w q = elim (Bool-cases (env.malloc_fails w)) [
    | inl fails ↦ rw fails (safe (tick w) (ticks w q))
    | inr allocates ↦ rw allocates (ticks w q)
  ]

  store_fd-Kept :
      (s : ℕ) (e : PollFd) (ps : PollSet) (w : World)
      → P w
      → Meets I P (λ _ v. P v) (store_fd s e ps w)
  unfolding store_fd
  store_fd-Kept s e ps w q = elim (Bool-cases (ltb s (length ps.descriptors))) [
    | inl inside ↦ rw inside q
    | inr outside ↦ rw outside q
  ]

  grow_poll_set-Kept :
      (size : ℕ) (ps : PollSet) (w : World)
      → P w
      → Meets I P (λ _ v. P v) (grow_poll_set env size ps w)
  unfolding grow_poll_set srealloc
  grow_poll_set-Kept size ps w q = elim (Bool-cases (leb size ps.size)) [
    | inl small ↦ rw small (safe w q)
    | inr larger ↦ elim (Bool-cases (env.malloc_fails w)) [
      | inl fails ↦ rw (larger, fails, srealloc) (safe (tick w) (ticks w q))
      | inr allocates ↦ rw (larger, allocates, srealloc) (ticks w q)
    ]
  ]

  add_to_poll_set-Kept :
      (s : ℕ) (ps : PollSet) (w : World) → P w → Meets I P (λ _ v. P v) (add_to_poll_set env s ps w)
  unfolding add_to_poll_set
  add_to_poll_set-Kept s ps w q = elim (Bool-cases (leb ps.size s)) [
    | inr fits ↦ rw fits (store_fd-Kept s _ _ w q)
    | inl grows ↦ elim (Bool-cases (leb (s + poll_set_size) int_max)) [
      | inr large ↦ rw (grows, large) q
      | inl small ↦
          rw (grows, small)
            (Meets-and_then I P (λ _ v. P v) (λ _ v. P v)
              (grow_poll_set env (s + poll_set_size) ps w) _
              (grow_poll_set-Kept (s + poll_set_size) ps w q)
              (λ grown v q'. store_fd-Kept s _ _ v q'))
    ]
  ]

  pub both-Kept :
      (s : ℕ) (w : World)
      → P w
      → Meets I P (λ _ v. P v) ((setup_poll_set env no_poll_set >>= add_to_poll_set env s) w)
  both-Kept s w q =
      Meets-and_then I P (λ _ v. P v) (λ _ v. P v) (setup_poll_set env no_poll_set w) _
        (setup_poll_set-Kept no_poll_set w q) (λ ps v q'. add_to_poll_set-Kept s ps v q')

  -- The two calls, and what follows them: they keep what calls of the allocator keep. Where the number
  -- of the socket allows no overflow, their behaviour is defined.
  pub poll_set-Kept :
      {B : Type 0} (D : World → Type 0) (Q : B → World → Type 0) (s : ℕ) (w : World)
      (next : PollSet → World → Run B)
      → (s + 10 ≤ int_max) ⊎ ((v : World) → P v → D v)
      → P w
      → ((ps : PollSet) (v : World) → P v → Meets I D Q (next ps v))
      → Meets I D Q (
          and_then
            (setup_poll_set env no_poll_set w)
            (λ ps v. and_then (add_to_poll_set env s ps v) next))
  poll_set-Kept D Q s w next excuse q on =
      rw (← and_then_assoc (setup_poll_set env no_poll_set w) (add_to_poll_set env s) next) (
        Meets-and_then I D (λ _ v. P v) Q
          ((setup_poll_set env no_poll_set >>= add_to_poll_set env s) w) next
          (elim excuse [
            | inl small ↦
                Meets-Never I P D (λ v. (u : World) × (env.malloc_fails u ≡ true)) Never
                  (λ _ v. P v) (λ ps v. Watches s ps)
                  ((setup_poll_set env no_poll_set >>= add_to_poll_set env s) w) (both-Kept s w q)
                  (add_to_poll_set-Watches env s w small)
            | inr allowed ↦
                Meets-mapped I I P D (λ _ v. P v) (λ _ v. P v)
                  ((setup_poll_set env no_poll_set >>= add_to_poll_set env s) w) (λ _ i. i) allowed
                  (λ _ v h. h) (both-Kept s w q)
          ])
          (λ ps v h. on ps v h))
