-- ===== src/Poll/Added.antt =====
-- What the functions of pollLib.c do to the poll set: every store is inside the block, a socket that is
-- added is in the set, and `pollCall` finds it.
use selective_reject.Base.{
  if◌then◌else◌, some_inj, ℕ, zero, suc, ◌+◌, ◌-◌, ◌≤◌, ◌<◌, ◌≡◌, ◌≢◌, refl, ◌∙◌, sym, arith, ◌⊎◌,
  inl, inr, List, [], ◌∷◌, ◌++◌, length, set, take, replicate, get_elem?, length-set, length-append,
  length-take, length-replicate, get_elem?-set_self, get_elem?-set_ne, take_all, ltb, leb,
  Bool-cases, int_max, pos, negsuc, some, true, false,
}
use selective_reject.Machine.{tick, World, Env, Ends, Never, srealloc, returned}
use selective_reject.Poll.{first_ready}
use selective_reject.Poll.Set.{
  PollFd, PollSet, blank_fd, pollin, store_fd, grow_poll_set, add_to_poll_set,
}

-- The block of memory is as long as the variable says, and the polled part lies inside it.
pub record WellFormed (ps : PollSet) : Type 0 where
  pub full : length ps.descriptors ≡ ps.size
  pub inside : ps.max_fd ≤ ps.size

-- No answer before an index.
abbrev pub Quiet : List ℕ → ℕ → Type 0
Quiet revents k = (j r : ℕ) → j < k → get_elem? revents j ≡ some r → r ≡ 0

Quiet-cons : (x : ℕ) (xs : List ℕ) (k : ℕ) → x ≡ 0 → Quiet xs k → Quiet (x ∷ xs) (suc k)
Quiet-cons x xs k e h zero r less at = some_inj (sym at) ∙ e
Quiet-cons x xs k e h (suc j) r less at = h j r (omega arith) at

-- The loop of `pollCall`, from index `i`: it returns -1 if no element has an answer, and else the index
-- of the first one that has.
pub first_ready_lem :
    (revents : List ℕ) (i : ℕ)
    → ((first_ready revents i ≡ negsuc 0) × ((k : ℕ) → Quiet revents k))
      ⊎ ((k r : ℕ) × (first_ready revents i ≡ pos (i + k))
          × (get_elem? revents k ≡ some r)
          × (0 < r)
          × Quiet revents k)
unfolding first_ready
first_ready_lem [] i = inl (refl, λ k j r less e. cc)
first_ready_lem (x ∷ xs) i = elim (Bool-cases (ltb 0 x)) [
  | inl ready ↦
      inr (
        0,
        x,
        ground (arith, ready),
        refl,
        ground (arith, ready),
        λ j r less e. absurd (omega arith),
      )
  | inr not_ready ↦
      let none_here : x ≡ 0 = ground (arith, not_ready) in
      elim (first_ready_lem xs (i + 1)) [
        | inl (result, silent) ↦ inl (
          ground (arith, not_ready, result),
          λ k j r less. Quiet-cons x xs k none_here (silent k) j r (omega arith),
        )
        | inr (k, r, result, at, up, quiet) ↦
            inr (
              suc k,
              r,
              ground (arith, not_ready, result),
              at,
              up,
              Quiet-cons x xs k none_here quiet,
            )
      ]
]

-- Storing inside the block.
pub store_fd-lt :
    (i : ℕ) (e : PollFd) (ps : PollSet) (w : World)
    → i < length ps.descriptors
    → store_fd i e ps w ≡ returned (record ps { descriptors = set ps.descriptors i e }) w
unfolding store_fd
store_fd-lt i e ps w h = ground arith

-- The set with a socket in it.
abbrev with_socket : ℕ → PollSet → PollSet
with_socket s ps = record {
  descriptors = set ps.descriptors s (record { fd = s; events = pollin });
  max_fd = if leb ps.max_fd (s + 1) then s + 1 else ps.max_fd;
  size = ps.size;
}

-- The entry at an index is that of the set before, and behind that set it is blank.
abbrev pub SameAt : PollSet → PollSet → ℕ → Type 0
SameAt ps after i =
    (i < ps.size → get_elem? after.descriptors i ≡ get_elem? ps.descriptors i)
    × (ps.size ≤ i → (e : PollFd) → get_elem? after.descriptors i ≡ some e → e ≡ blank_fd)

-- The set after a socket was added: the socket's entry is in the polled part, which is otherwise as long
-- as before, every other entry is as before, and those behind the old set are blank.
abbrev pub Keeps : PollSet → ℕ → PollSet → Type 0
Keeps ps s after =
    WellFormed after
    × (ps.size ≤ after.size)
    × (after.max_fd ≡ (if leb ps.max_fd (s + 1) then s + 1 else ps.max_fd))
    × (get_elem? after.descriptors s ≡ some (record { fd = s; events = pollin }))
    × ((i : ℕ) → i ≢ s → SameAt ps after i)

with_socket-WellFormed :
    (s : ℕ) (ps : PollSet) → WellFormed ps → s < ps.size → WellFormed (with_socket s ps)
with_socket-WellFormed s ps h less = record {
  full = length-set ps.descriptors s (record { fd = s; events = pollin }) ∙ h.full;
  inside = ground (arith, h.inside);
}

with_socket-Keeps :
    (before : PollSet) (s : ℕ) (ps : PollSet)
    → WellFormed ps
    → s < ps.size
    → before.size ≤ ps.size
    → ps.max_fd ≡ before.max_fd
    → ((i : ℕ) → SameAt before ps i)
    → Keeps before s (with_socket s ps)
with_socket-Keeps before s ps h less longer polled old =
    let entry : PollFd = record { fd = s; events = pollin } in
    (
      with_socket-WellFormed s ps h less,
      longer,
      rw polled refl,
      get_elem?-set_self ps.descriptors s entry (omega (arith, h.full)),
      λ i ne.
          let kept = get_elem?-set_ne ps.descriptors s i entry (λ z. ne (sym z)) in
          (λ inside. kept ∙ (old i).0 inside, λ behind e at. (old i).1 behind e (sym kept ∙ at)),
    )

get_elem?-front :
    (ds es : List PollFd) (i : ℕ) → i < length ds → get_elem? (ds ++ es) i ≡ get_elem? ds i
get_elem?-front [] es i less = absurd (omega arith)
get_elem?-front (d ∷ ds) es zero less = refl
get_elem?-front (d ∷ ds) es (suc i) less = get_elem?-front ds es i (omega arith)

pub get_elem?-behind :
    (ds : List PollFd) (k i : ℕ) (b e : PollFd)
    → length ds ≤ i
    → get_elem? (ds ++ replicate k b) i ≡ some e
    → e ≡ b
get_elem?-behind [] zero i b e le at = cc
get_elem?-behind [] (suc k) zero b e le at = sym (some_inj at)
get_elem?-behind [] (suc k) (suc i) b e le at = get_elem?-behind [] k i b e (omega arith) at
get_elem?-behind (d ∷ ds) k zero b e le at = absurd (omega arith)
get_elem?-behind (d ∷ ds) k (suc i) b e le at = get_elem?-behind ds k i b e (omega arith) at

-- The set that `growPollSet` leaves.
abbrev grown : ℕ → PollSet → PollSet
grown n ps = record {
  descriptors = take ps.size ps.descriptors ++ replicate (n - ps.size) blank_fd;
  max_fd = ps.max_fd;
  size = n;
}

pub get_elem?-some :
    (ds : List PollFd) (i : ℕ) (e : PollFd) → get_elem? ds i ≡ some e → i < length ds
get_elem?-some [] i e at = cc
get_elem?-some (d ∷ ds) zero e at = omega arith
get_elem?-some (d ∷ ds) (suc i) e at = omega (arith, get_elem?-some ds i e at)

grown-WellFormed : (n : ℕ) (ps : PollSet) → WellFormed ps → ps.size ≤ n → WellFormed (grown n ps)
grown-WellFormed n ps h le = record {
  full = omega (
    arith,
    h.full,
    length-append (take ps.size ps.descriptors) (replicate (n - ps.size) blank_fd),
    length-take ps.size ps.descriptors,
    length-replicate (n - ps.size) blank_fd,
  );
  inside = omega (arith, h.inside);
}

grown-SameAt : (n : ℕ) (ps : PollSet) (i : ℕ) → WellFormed ps → SameAt ps (grown n ps) i
grown-SameAt n ps i h =
    let whole : take ps.size ps.descriptors ≡ ps.descriptors =
      take_all ps.size ps.descriptors (omega (arith, h.full)) in
    (
      λ inside. rw whole (
          get_elem?-front ps.descriptors (replicate (n - ps.size) blank_fd) i
            (omega (arith, h.full))),
      λ behind e at.
          get_elem?-behind ps.descriptors (n - ps.size) i blank_fd e (omega (arith, h.full))
            (rw whole at at),
    )

module _ (env : Env) where
  -- `addToPollSet` on a well-formed set, for a socket number to which ten can be added: every store is
  -- inside the block, also where it has to grow; the set is well-formed again and no shorter, the socket
  -- is watched, `maxFileDescriptor` is the greater of the one before and the socket's number plus one;
  -- every other entry that was there is still there and unchanged, and the entries that are new are
  -- blank. The process exits only if there is no memory.
  pub add_to_poll_set-WellFormed :
      (s : ℕ) (ps : PollSet) (w : World)
      → WellFormed ps
      → s + 10 ≤ int_max
      → Ends
          (λ v. (env.malloc_fails w ≡ true) × (ps.size ≤ s))
          Never
          (λ after v. Keeps ps s after)
          (add_to_poll_set env s ps w)
  unfolding add_to_poll_set grow_poll_set srealloc
  add_to_poll_set-WellFormed s ps w h small = elim (Bool-cases (leb ps.size s)) [
    | inr fits ↦
        let less : s < ps.size = ground (arith, fits) in
        rw
          (
            fits,
            store_fd-lt s (record { fd = s; events = pollin })
                (record ps { max_fd = if leb ps.max_fd (s + 1) then s + 1 else ps.max_fd }) w
                (omega (arith, h.full)),
          )
          (with_socket-Keeps ps s ps h less (omega arith) refl (λ i. (
            λ inside. refl,
            λ behind e at. absurd (omega (arith, h.full, get_elem?-some ps.descriptors i e at)),
          )))
    | inl over ↦
        let le : ps.size ≤ s = ground (arith, over) in
        let formed = grown-WellFormed (s + 10) ps h (omega arith) in
        let bigger : leb (s + 10) ps.size ≡ false = ground arith in
        let room : leb (s + 10) int_max ≡ true = ground arith in
        elim (Bool-cases (env.malloc_fails w)) [
          | inl fails ↦ rw (over, room, bigger, fails) (refl, le)
          | inr allocates ↦
              rw
                (
                  over,
                  room,
                  bigger,
                  allocates,
                  store_fd-lt s (record { fd = s; events = pollin })
                      (record (grown (s + 10) ps) {
                        max_fd = if leb ps.max_fd (s + 1) then s + 1 else ps.max_fd;
                      })
                      (tick w) (omega (arith, formed.full)),
                )
                (with_socket-Keeps ps s (grown (s + 10) ps) formed (omega arith) (omega arith) refl
                  (λ i. grown-SameAt (s + 10) ps i h))
        ]
  ]
