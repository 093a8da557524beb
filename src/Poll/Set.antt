-- ===== src/Poll/Set.antt =====
-- The poll set of pollLib.c: the static variables, and the functions that change them.
use selective_reject.Base.{
  ℕ, ◌+◌, ◌-◌, List, [], ◌++◌, length, set, take, replicate, ltb, leb, if◌then◌else◌, int_max, ℤ,
  negsuc, none, some,
}
use selective_reject.Machine.{
  Env, M, ◌>>=◌, ◌>>◌, pure, trap, exited, returned, srealloc, s_calloc, tick,
}
use selective_reject.Poll.{first_ready}

-- `struct pollfd` without the answer `revents`.
pub record PollFd : Type 0 where
  pub fd : ℕ
  pub events : ℕ

abbrev pub pollin : ℕ
pollin = 1

abbrev pub poll_set_size : ℕ
poll_set_size = 10

abbrev pub blank_fd : PollFd
blank_fd = record { fd = 0; events = 0 }

-- `pollFileDescriptors` with its elements, `maxFileDescriptor`, `currentPollSetSize`.
pub record PollSet : Type 0 where
  pub descriptors : List PollFd
  pub max_fd : ℕ
  pub size : ℕ

-- The static variables of a process that has not called `setupPollSet`.
abbrev pub no_poll_set : PollSet
no_poll_set = record { descriptors = []; max_fd = 0; size = 0 }

-- A store to an element; outside the block it is not defined.
unfoldable pub store_fd : ℕ → PollFd → PollSet → M PollSet
store_fd socket_number entry ps =
    if ltb socket_number (length ps.descriptors)
    then pure (record ps { descriptors = set ps.descriptors socket_number entry })
    else trap

module _ (env : Env) where
  -- `maxFileDescriptor` stays as it is.
  unfoldable pub setup_poll_set : PollSet → M PollSet
  setup_poll_set ps = do
    descriptors ← s_calloc env poll_set_size blank_fd
    pure (record ps { descriptors = descriptors; size = poll_set_size })

  -- The loop zeroes the elements behind the old ones.
  unfoldable pub grow_poll_set : ℕ → PollSet → M PollSet
  grow_poll_set new_set_size ps = if leb new_set_size ps.size then (λ w. exited w) else (do
    srealloc env
    pure (record ps {
      descriptors = take ps.size ps.descriptors ++ replicate (new_set_size - ps.size) blank_fd;
      size = new_set_size;
    }))

  -- The sum `socketNumber + POLL_SET_SIZE` is an `int`.
  unfoldable pub add_to_poll_set : ℕ → PollSet → M PollSet
  add_to_poll_set socket_number ps = do
    grown ←
        (if leb ps.size socket_number
          then (if leb (socket_number + poll_set_size) int_max
              then grow_poll_set (socket_number + poll_set_size) ps
              else trap)
          else pure ps)
    store_fd socket_number (record { fd = socket_number; events = pollin })
        (record grown {
          max_fd = if leb grown.max_fd (socket_number + 1) then socket_number + 1 else grown.max_fd;
        })

  -- The entry stays within `maxFileDescriptor`, as one of descriptor 0.
  unfoldable pub remove_from_poll_set : ℕ → PollSet → M PollSet
  remove_from_poll_set socket_number ps = store_fd socket_number blank_fd ps

  -- `pollCall` on the set: the loop reads the `revents` of its first `maxFileDescriptor` elements.
  unfoldable pub poll_set_call : PollSet → M ℤ
  poll_set_call ps w = elim (env.poll_answer w) [
    | none ↦ exited (tick w)
    | some (poll_value, revents) ↦
        returned (if ltb 0 poll_value then first_ready (take ps.max_fd revents) 0 else negsuc 0)
          (tick w)
  ]
