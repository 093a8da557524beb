-- ===== src/Poll/Watched.antt =====
-- The poll set of one socket, as server.c and rcopy.c set it up, and `pollCall` on it (pollLib.c).
use selective_reject.Base.{
  ◌==◌, ==_iff, ℕ, suc, ◌+◌, ◌≤◌, ◌<◌, ◌≡◌, ◌≢◌, refl, ◌∙◌, ap, arith, inl, inr, List, [], ◌∷◌,
  length, take, replicate, get_elem?, take_all, ltb, ltb→lt, ltb→le, get_elem?-lt, ◌⊎◌, sym, zero,
  Bool-cases, int_max, pos, negsuc, some, true,
}
use selective_reject.Machine.{Ends-mapped, World, Env, Ends, Never, s_calloc, returned, tick, ◌>>=◌}
use selective_reject.Poll.{first_ready, poll_call}
use selective_reject.Poll.Set.{
  PollFd, PollSet, no_poll_set, blank_fd, pollin, setup_poll_set, add_to_poll_set, poll_set_call,
}
use selective_reject.Poll.Added.{
  WellFormed, Keeps, first_ready_lem, add_to_poll_set-WellFormed, get_elem?-behind, Quiet,
}

-- A set in whose polled part one socket is to be watched, and no other entry is.
pub record Watches (s : ℕ) (ps : PollSet) : Type 0 where
  pub formed : WellFormed ps
  pub polled : s < ps.max_fd
  pub watched : get_elem? ps.descriptors s ≡ some (record { fd = s; events = pollin })
  pub others : (i : ℕ) → i ≢ s → (e : PollFd) → get_elem? ps.descriptors i ≡ some e → e ≡ blank_fd

abbrev fresh : PollSet
fresh = record { descriptors = replicate 10 blank_fd; max_fd = 0; size = 10 }

fresh-Watches : (s : ℕ) (after : PollSet) → Keeps fresh s after → Watches s after
fresh-Watches s after (formed, longer, polled, at, old) = record {
  formed = formed;
  polled = ground (arith, polled);
  watched = at;
  others = λ i ne e there. elim (Bool-cases (ltb i 10)) [
    | inl inside ↦
        get_elem?-behind [] 10 i blank_fd e (omega arith)
          (sym ((old i ne).0 (ltb→lt i 10 inside)) ∙ there)
    | inr behind ↦ (old i ne).1 (ltb→le i 10 behind) e there
  ];
}

-- What `poll` documents of its answer on a set: as many `revents` as entries polled, and some if it
-- counts some. An entry that asks for nothing may still have an error to report.
pub record PollAnswers (env : Env) (ps : PollSet) : Type 0 where
  pub whole :
      (w : World) (count : ℕ) (revents : List ℕ)
      → env.poll_answer w ≡ some (count, revents)
      → length revents ≡ ps.max_fd
  pub counted :
      (w : World) (count : ℕ) (revents : List ℕ)
      → env.poll_answer w ≡ some (count, revents)
      → 0 < count
      → (i r : ℕ) × (get_elem? revents i ≡ some r) × (0 < r)

length-some : (xs : List ℕ) (i r : ℕ) → get_elem? xs i ≡ some r → i < length xs
length-some [] i r at = cc
length-some (x ∷ xs) zero r at = omega arith
length-some (x ∷ xs) (suc i) r at = omega (arith, length-some xs i r at)

-- The first index with an answer: the watched socket, or another number, whose entry is blank.
abbrev pub FirstReady : ℕ → PollSet → List ℕ → ℕ → Type 0
FirstReady s ps revents k =
    (r : ℕ) × (get_elem? revents k ≡ some r)
    × (0 < r)
    × Quiet revents k
    × ((k ≡ s) ⊎ ((k ≢ s) × (get_elem? ps.descriptors k ≡ some blank_fd)))

first_ready-FirstReady :
    (s : ℕ) (ps : PollSet) (revents : List ℕ)
    → Watches s ps
    → length revents ≡ ps.max_fd
    → ((i r : ℕ) × (get_elem? revents i ≡ some r) × (0 < r))
    → (k : ℕ) × (first_ready revents 0 ≡ pos k) × FirstReady s ps revents k
first_ready-FirstReady s ps revents h whole (i, r, at, up) = elim (first_ready_lem revents 0) [
  | inl (result, silent) ↦ absurd (omega (arith, silent (suc i) i r (omega arith) at))
  | inr (k, r', result, at', up', quiet) ↦
      let which : (k ≡ s) ⊎ ((k ≢ s) × (get_elem? ps.descriptors k ≡ some blank_fd)) =
        elim (Bool-cases (k == s)) [
          | inl same ↦ inl ((==_iff k s).0 same)
          | inr other ↦
              let ne : k ≢ s = λ z. cc (other, (==_iff k s).1 z) in
              let (e, there) = get_elem?-lt ps.descriptors k (
                omega
                  (arith, length-some revents k r' at', whole, h.formed.full, h.formed.inside)) in
              inr (ne, there ∙ ap (λ (x : PollFd). some x) (h.others k ne e there))
        ] in
      (k, result ∙ ap pos {x = 0 + k} {y = k} (omega arith), (r', at', up', quiet, which))
]

module _ (env : Env) where
  -- `setupPollSet` and `addToPollSet` in a new process, for a socket number to which ten can be added:
  -- no store is outside the block, exactly that socket is watched, and the process exits only if there
  -- is no memory.
  pub add_to_poll_set-Watches :
      (s : ℕ) (w : World)
      → s + 10 ≤ int_max
      → Ends
          (λ v. (u : World) × (env.malloc_fails u ≡ true))
          Never
          (λ ps v. Watches s ps)
          ((setup_poll_set env no_poll_set >>= add_to_poll_set env s) w)
  unfolding setup_poll_set s_calloc
  add_to_poll_set-Watches s w small = elim (Bool-cases (env.malloc_fails w)) [
    | inl fails ↦ rw fails (w, fails)
    | inr allocates ↦ rw allocates (
        Ends-mapped (λ v. (env.malloc_fails (tick w) ≡ true) × (fresh.size ≤ s))
          (λ v. (u : World) × (env.malloc_fails u ≡ true)) Never Never
          (λ after v. Keeps fresh s after) (λ ps v. Watches s ps)
          (add_to_poll_set env s fresh (tick w)) (λ v f. (tick w, f.0)) (λ v z. z)
          (λ ps v k. fresh-Watches s ps k)
          (add_to_poll_set-WellFormed env s fresh (tick w)
            (record { full = refl; inside = omega arith }) small))
  ]

  -- `pollCall` on a set that watches one socket, where `poll` answers as it documents: the transfer's
  -- `poll_call` is this call; it returns -1 if `poll` counts none ready, and else the lowest number for
  -- which `poll` reports something, which is that socket or a number whose entry is a blank one (of
  -- descriptor 0, about which `poll` may report an error).
  pub poll_set_call-Watches :
      (s : ℕ) (ps : PollSet) (w : World) (count : ℕ) (revents : List ℕ)
      → Watches s ps
      → PollAnswers env ps
      → env.poll_answer w ≡ some (count, revents)
      → (poll_set_call env ps w ≡ poll_call env w)
        × (((count ≡ 0) × (poll_set_call env ps w ≡ returned (negsuc 0) (tick w)))
            ⊎ ((k : ℕ) × (poll_set_call env ps w ≡ returned (pos k) (tick w))
                × FirstReady s ps revents k))
  unfolding poll_set_call poll_call
  poll_set_call-Watches s ps w count revents h answers got =
      let whole : take ps.max_fd revents ≡ revents =
        take_all ps.max_fd revents (omega (arith, answers.whole w count revents got)) in
      (
        rw (got, poll_set_call, poll_call, whole) refl,
        elim (Bool-cases (ltb 0 count)) [
          | inr none_ready ↦
              inl
                (omega (arith, ltb→le 0 count none_ready), rw (got, poll_set_call, none_ready) refl)
          | inl some_ready ↦
              let (k, found, first) =
                first_ready-FirstReady s ps revents h (answers.whole w count revents got)
                  (answers.counted w count revents got (ltb→lt 0 count some_ready)) in
              inr (k, rw (got, poll_set_call, some_ready, whole, found) refl, first)
        ],
      )
