-- ===== src/Poll/Tests.antt =====
-- The theorems about pollLib.c for the socket number 3, and for one that makes the set grow.
use selective_reject.Base.{
  ◌≤◌, ℕ, ◌≡◌, refl, arith, zero, suc, List, [], ◌∷◌, replicate, get_elem?, pos, negsuc, ◌⊎◌, some,
  some_inj, true, sym, subst, ◌<◌, length, ◌≢◌,
}
use selective_reject.Machine.{Env, World, Ends, Never, returned, tick, ◌>>=◌}
use selective_reject.Receiver.Example.{sample_env, start}
use selective_reject.Poll.{poll_call}
use selective_reject.Poll.Set.{
  PollFd, PollSet, no_poll_set, blank_fd, pollin, setup_poll_set, add_to_poll_set,
  remove_from_poll_set, poll_set_call,
}
use selective_reject.Poll.Added.{WellFormed, Keeps, add_to_poll_set-WellFormed}
use selective_reject.Poll.Removed.{SameEntries, add_to_poll_set-remove_from_poll_set}
use selective_reject.Poll.Watched.{
  Watches, PollAnswers, FirstReady, add_to_poll_set-Watches, poll_set_call-Watches,
}

abbrev ten_blank : PollSet
ten_blank = record { descriptors = replicate 10 blank_fd; max_fd = 0; size = 10 }

add_to_poll_set-WellFormed_example :
    Ends
      (λ v. (sample_env.malloc_fails start ≡ true) × (10 ≤ 12))
      Never
      (λ after v. Keeps ten_blank 12 after)
      (add_to_poll_set sample_env 12 ten_blank start)
add_to_poll_set-WellFormed_example =
    add_to_poll_set-WellFormed sample_env 12 ten_blank start
      (record { full = refl; inside = omega arith }) (omega arith)

add_to_poll_set-Watches_example :
    Ends
      (λ v. (u : World) × (sample_env.malloc_fails u ≡ true))
      Never
      (λ ps v. Watches 3 ps)
      ((setup_poll_set sample_env no_poll_set >>= add_to_poll_set sample_env 3) start)
add_to_poll_set-Watches_example = add_to_poll_set-Watches sample_env 3 start (omega arith)

-- A set in which descriptor 1 is watched, and a `poll` that finds it ready.
abbrev one_watched : PollSet
one_watched = record {
  descriptors = blank_fd ∷ record { fd = 1; events = pollin } ∷ [];
  max_fd = 2;
  size = 2;
}

abbrev ready_env : Env
ready_env = record sample_env { poll_answer = λ w. some (1, 0 ∷ 1 ∷ []) }

one_watched-Watches : Watches 1 one_watched
one_watched-Watches = record {
  formed = record { full = refl; inside = omega arith };
  polled = omega arith;
  watched = refl;
  others = blank_elsewhere;
}
  where
    blank_elsewhere :
        (i : ℕ) → i ≢ 1 → (e : PollFd) → get_elem? one_watched.descriptors i ≡ some e → e ≡ blank_fd
    blank_elsewhere zero ne e at = some_inj (sym at)
    blank_elsewhere (suc zero) ne e at = absurd (ne refl)
    blank_elsewhere (suc (suc i)) ne e at = absurd (cc)

ready_env-PollAnswers : PollAnswers ready_env one_watched
ready_env-PollAnswers = record {
  whole = λ w count revents got. subst (λ (p : ℕ × List ℕ). length p.1 ≡ 2) (some_inj got) refl;
  counted = λ w count revents got some_ready.
      subst (λ (p : ℕ × List ℕ). (i r : ℕ) × (get_elem? p.1 i ≡ some r) × (0 < r)) (some_inj got)
        (1, 1, refl, omega arith);
}

poll_set_call-Watches_example :
    (poll_set_call ready_env one_watched start ≡ poll_call ready_env start)
    × (((◌≡◌ {A = ℕ} 1 0)
          × (poll_set_call ready_env one_watched start ≡ returned (negsuc 0) (tick start)))
        ⊎ ((k : ℕ) × (poll_set_call ready_env one_watched start ≡ returned (pos k) (tick start))
            × FirstReady 1 one_watched (0 ∷ 1 ∷ []) k))
poll_set_call-Watches_example =
    poll_set_call-Watches ready_env 1 one_watched start 1 (0 ∷ 1 ∷ []) one_watched-Watches
      ready_env-PollAnswers refl

add_to_poll_set-remove_from_poll_set_example :
    Ends
      (λ v. (sample_env.malloc_fails start ≡ true) × (10 ≤ 12))
      Never
      (λ after v. WellFormed after × SameEntries ten_blank after × (after.max_fd ≡ 13))
      ((add_to_poll_set sample_env 12 ten_blank >>= remove_from_poll_set sample_env 12) start)
add_to_poll_set-remove_from_poll_set_example =
    add_to_poll_set-remove_from_poll_set sample_env 12 ten_blank start
      (record { full = refl; inside = omega arith }) (omega arith) (λ e at. absurd (cc))
