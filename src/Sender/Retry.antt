-- ===== src/Sender/Retry.antt =====
-- What rcopy.c sends again and how often (`sendSetupPacket`, the timeout of `waitOnAck`).
use selective_reject.Base.{
  sym, append-nil, some, get_elem?-lt, ◌==◌, zero, suc, refl, ap, ◌∙◌, inl, inr, [], ◌∷◌,
  append_assoc, Bool-cases, pos, ltb_ℤ, ◌⊎◌, ℕ, ◌+◌, ◌≤◌, ◌<◌, ◌≡◌, refl, arith, some, List, ◌++◌,
  length, replicate, lt→ltb, take, ltb, leb, true, if◌then◌else◌,
}
use selective_reject.Machine.{
  Ends, Ends-and_then, Ends-mono, Never, safe_sendto-Ends, safe_recvfrom, safe_recvfrom-Ends, World,
  Env, ◌>>◌, pure, safe_sendto, maxbuf, tick,
}
use selective_reject.Pdu.Build.{flag_of, server_to_rcopy}
use selective_reject.Poll.{poll_call, same_poll_call}
use selective_reject.Sender.Steps.{
  RcopyState, file_ok, done, setup_loop, wait_on_ack, Transfer, resend_lowest, wait_for_ack,
}
use selective_reject.Window.Holds.{Holds, get_packet_to_resend-Holds}

-- Every datagram received has at least the bytes of a header.
abbrev pub DeliversHeaders : Env → Type 0
DeliversHeaders env =
    (w : World) (d : List ℕ) → env.recvfrom_answer w ≡ some d → 7 ≤ length (take maxbuf d)

module _ {pdu_of : ℕ → List ℕ} {window_size : ℕ} (some_room : 0 < window_size) where
  resend_lowest_lem :
      (env : Env) (t : Transfer) (stored : ℕ) (w : World)
      → Holds pdu_of window_size t.window.lower stored t.window.buffer
      → t.window.lower ≤ stored
      → 0 < length (pdu_of t.window.lower)
      → resend_lowest env window_size t w
        ≡ (do
          safe_sendto env (pdu_of t.window.lower)
          pure (wait_on_ack, record t { counter = t.counter + 1 }))
            w
  unfolding resend_lowest
  resend_lowest_lem env t stored w h le long =
      rw
        (
          get_packet_to_resend-Holds some_room t.window stored t.window.lower h (omega arith) le,
          lt→ltb 0 (length (pdu_of t.window.lower)) long,
        )
        refl

  -- `waitOnAck` where `poll` times out, the packets from `lower` to `stored` are in their slots, there
  -- is such a packet, and it is not empty: below ten timeouts it sends again exactly the packet numbered
  -- `lower` as it was stored, counts the timeout and waits on; from ten it sends nothing, changes
  -- nothing and gives up.
  pub wait_for_ack_timeout :
      (env : Env) (t : Transfer) (stored : ℕ) (w : World) (revents : List ℕ)
      → env.poll_answer w ≡ some (0, revents)
      → Holds pdu_of window_size t.window.lower stored t.window.buffer
      → t.window.lower ≤ stored
      → 0 < length (pdu_of t.window.lower)
      → wait_for_ack env window_size t w
        ≡ (if ltb t.counter 10
              then (do
                safe_sendto env (pdu_of t.window.lower)
                pure (wait_on_ack, record t { counter = t.counter + 1 }))
              else pure (done, t))
            (tick w)
  unfolding wait_for_ack poll_call
  wait_for_ack_timeout env t stored w revents silent h le long =
      elim (Bool-cases (ltb t.counter 10)) [
        | inl few ↦ rw (silent, poll_call, few) (resend_lowest_lem env t stored (tick w) h le long)
        | inr many ↦
            let over : leb 10 t.counter ≡ true = ground (arith, many) in
            rw (silent, poll_call, many, over) refl
      ]

pub flag_there : (d : List ℕ) → 7 ≤ length d → (flag : ℕ) × (flag_of d ≡ some flag)
unfolding flag_of
flag_there d h = get_elem?-lt d 6 (omega arith)

replicate-suc : (c : ℕ) (pdu : List ℕ) → replicate c pdu ++ pdu ∷ [] ≡ replicate (suc c) pdu
replicate-suc zero pdu = refl
replicate-suc (suc c) pdu = ap (◌∷◌ pdu) (replicate-suc c pdu)

module _ (env : Env) (base : List (List ℕ)) (pdu : List ℕ) (total : ℕ) where
  -- Behind what was sent before, so many copies of one packet and nothing else.
  abbrev pub Copies : ℕ → World → Type 0
  Copies k w = w.sent ≡ base ++ replicate k pdu

  abbrev pub AtMost : World → Type 0
  AtMost w = (k : ℕ) × (k ≤ total) × Copies k w

  -- An answer after at most so many copies, or the end after exactly as many.
  abbrev pub Answered : RcopyState → World → Type 0
  Answered r w = (k : ℕ) × (k ≤ total) × Copies k w × ((r ≡ file_ok) ⊎ ((r ≡ done) × (k ≡ total)))

  one_more : (c : ℕ) (w v : World) → Copies c w → v.sent ≡ w.sent ++ pdu ∷ [] → Copies (suc c) v
  one_more c w v h s =
      s
      ∙ (ap (λ (x : List (List ℕ)). x ++ pdu ∷ []) h
          ∙ (append_assoc base (replicate c pdu) (pdu ∷ []) ∙ ap (◌++◌ base) (replicate-suc c pdu)))

  counting_setup_loop :
      (rounds c : ℕ) (w : World)
      → DeliversHeaders env
      → c + rounds ≡ total
      → Copies c w
      → Ends AtMost Never Answered (setup_loop env rounds pdu w)
  unfolding setup_loop
  counting_setup_loop zero c w long sum h = (c, omega arith, h, inr (refl, omega arith))
  counting_setup_loop (suc rounds) c w long sum h =
      Ends-and_then AtMost Never (λ _ v. Copies (suc c) v) Answered (safe_sendto env pdu w) _
        (Ends-mono AtMost Never (λ _ v. (v.file ≡ w.file) × (v.sent ≡ w.sent ++ pdu ∷ []))
          (λ _ v. Copies (suc c) v) (safe_sendto env pdu w)
          (safe_sendto-Ends env AtMost Never pdu w (λ v f s. (c, omega arith, s ∙ h)))
          (λ _ v p. one_more c w v h p.1))
        (λ _ v h'.
          Ends-and_then AtMost Never (λ _ u. Copies (suc c) u) Answered (poll_call env v) _
            (same_poll_call env AtMost Never (Copies (suc c)) v (λ u f s. s ∙ h')
              (λ u k. (suc c, omega arith, k)))
            (λ r u k. elim (Bool-cases (ltb_ℤ r (pos 0))) [
              | inl timeout ↦ rw timeout (counting_setup_loop rounds (suc c) u long (omega arith) k)
              | inr ready ↦ rw ready (
                  Ends-and_then AtMost Never _ Answered (safe_recvfrom env u) _
                    (safe_recvfrom-Ends env AtMost Never u (λ x f s. (suc c, omega arith, s ∙ k)))
                    (λ d x (e, got, cut, f, s).
                      let (flag, at) = flag_there d (rw cut (long u e got)) in
                      elim (Bool-cases (flag == server_to_rcopy)) [
                        | inl answer ↦ rw (at, answer) (suc c, omega arith, s ∙ k, inl refl)
                        | inr other ↦
                            rw (at, other)
                              (counting_setup_loop rounds (suc c) x long (omega arith) (s ∙ k))
                      ]))
            ]))

-- The loop of `sendSetupPacket`, over a network whose datagrams have at least a header: it ends without
-- undefined behaviour, and sends nothing but the setup packet. It ends in FILE_OK after at most as many
-- copies as it has rounds, or in DONE after exactly as many; where the process exits, at most as many
-- were sent.
pub setup_loop-Answered :
    (env : Env) (rounds : ℕ) (pdu : List ℕ) (w : World)
    → DeliversHeaders env
    → Ends
        (AtMost env w.sent pdu rounds)
        Never
        (Answered env w.sent pdu rounds)
        (setup_loop env rounds pdu w)
setup_loop-Answered env rounds pdu w long =
    counting_setup_loop env w.sent pdu rounds rounds 0 w long (omega arith)
      (sym (append-nil w.sent))
