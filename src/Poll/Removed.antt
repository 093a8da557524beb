-- ===== src/Poll/Removed.antt =====
-- A socket that is added to the poll set of pollLib.c and taken out again.
use selective_reject.Base.{
  ℕ, ◌+◌, ◌≤◌, ◌≡◌, sym, ◌∙◌, ap, arith, inl, inr, true, set, get_elem?, get_elem?-lt,
  get_elem?-set_self, get_elem?-set_ne, length-set, Bool-cases, ◌==◌, ==_iff, int_max, some, ◌<◌,
  length, leb, if◌then◌else◌, ◌≢◌, some_inj,
}
use selective_reject.Machine.{World, Env, Ends, Ends-and_then, Never, ◌>>=◌}
use selective_reject.Poll.Set.{PollFd, PollSet, blank_fd, add_to_poll_set, remove_from_poll_set}
use selective_reject.Poll.Added.{
  WellFormed, Keeps, SameAt, get_elem?-some, add_to_poll_set-WellFormed, store_fd-lt,
}

-- Every entry is that of the set before, and blank behind it.
abbrev pub SameEntries : PollSet → PollSet → Type 0
SameEntries ps after = (i : ℕ) → SameAt ps after i

-- An entry inside the set that is not watched is blank.
unwatched_entry :
    (ps : PollSet) (s : ℕ)
    → WellFormed ps
    → ((e : PollFd) → get_elem? ps.descriptors s ≡ some e → e ≡ blank_fd)
    → s < ps.size
    → get_elem? ps.descriptors s ≡ some blank_fd
unwatched_entry ps s formed unwatched inside =
    let (e, at) = get_elem?-lt ps.descriptors s (omega (arith, formed.full)) in
    at ∙ ap (λ (x : PollFd). some x) (unwatched e at)

blanked-SameEntries :
    (ps after : PollSet) (s : ℕ)
    → WellFormed ps
    → ((e : PollFd) → get_elem? ps.descriptors s ≡ some e → e ≡ blank_fd)
    → s < length after.descriptors
    → ((i : ℕ) → i ≢ s → SameAt ps after i)
    → SameEntries ps (record after { descriptors = set after.descriptors s blank_fd })
blanked-SameEntries ps after s formed unwatched room old i = elim (Bool-cases (i == s)) [
  | inr other ↦
      let ne : i ≢ s = λ z. cc (other, (==_iff i s).1 z) in
      let kept = get_elem?-set_ne after.descriptors s i blank_fd (λ z. ne (sym z)) in
      (λ inside. kept ∙ (old i ne).0 inside, λ behind e at. (old i ne).1 behind e (sym kept ∙ at))
  | inl same ↦
      let here : i ≡ s = (==_iff i s).0 same in
      let stored = get_elem?-set_self after.descriptors s blank_fd room in
      rw here (
        λ inside. stored ∙ sym (unwatched_entry ps s formed unwatched inside),
        λ behind e at. some_inj (sym at ∙ stored),
      )
]

module _ (env : Env) where
  -- `addToPollSet` and then `removeFromPollSet` of a socket that was not watched, on a well-formed set
  -- and for a socket number to which ten can be added: no store is outside the block, the set is
  -- well-formed again, every entry from before is still there and unchanged, those behind them, where it
  -- has grown, are blank, and `maxFileDescriptor` stays where `addToPollSet` has put it: the greater of
  -- the one before and the socket's number plus one. The process exits only if there is no memory.
  pub add_to_poll_set-remove_from_poll_set :
      (s : ℕ) (ps : PollSet) (w : World)
      → WellFormed ps
      → s + 10 ≤ int_max
      → ((e : PollFd) → get_elem? ps.descriptors s ≡ some e → e ≡ blank_fd)
      → Ends
          (λ v. (env.malloc_fails w ≡ true) × (ps.size ≤ s))
          Never
          (λ after v.
            WellFormed after
            × SameEntries ps after
            × (after.max_fd ≡ (if leb ps.max_fd (s + 1) then s + 1 else ps.max_fd)))
          ((add_to_poll_set env s ps >>= remove_from_poll_set env s) w)
  unfolding remove_from_poll_set
  add_to_poll_set-remove_from_poll_set s ps w formed small unwatched =
      Ends-and_then (λ v. (env.malloc_fails w ≡ true) × (ps.size ≤ s)) Never
        (λ after v. Keeps ps s after) _ (add_to_poll_set env s ps w) _
        (add_to_poll_set-WellFormed env s ps w formed small)
        (λ after v keeps.
          let (formed', longer, polled, watched, old) = keeps in
          let room : s < length after.descriptors = get_elem?-some after.descriptors s _ watched in
          rw (store_fd-lt s blank_fd after v room) (
            record {
              full = length-set after.descriptors s blank_fd ∙ formed'.full;
              inside = formed'.inside;
            },
            blanked-SameEntries ps after s formed unwatched room old,
            polled,
          ))
