-- ===== src/Sender/Received.antt =====
-- The calls of rcopy.c take datagrams in and never drop one: what has been received stays.
use selective_reject.Base.{
  ◌≡◌, refl, sym, inl, inr, List, [], ◌∷◌, ◌++◌, append-nil, ℕ, take, length, ltb, signed32,
  Bool-cases, Option-cases,
}
use selective_reject.Machine.{World, Env, Meets, Meets-defined, maxbuf, safe_sendto, safe_recvfrom}
use selective_reject.Poll.{poll_call}
use selective_reject.Pdu.Build.{acked_num_of}
use selective_reject.Window.Defs.{Window, get_packet_to_resend, process_srej_packet}

abbrev pub Later : World → World → Type 0
Later w v = (more : List (List ℕ)) × (v.received ≡ w.received ++ more)

abbrev pub Any : World → Type 0
Any v = Unit {0}

module _ (env : Env) (w : World) where
  pub safe_sendto-Later : (d : List ℕ) → Meets Any Any (λ _ v. Later w v) (safe_sendto env d w)
  unfolding safe_sendto
  safe_sendto-Later d = elim (Bool-cases (env.sendto_fails w)) [
    | inl e ↦ rw e tt
    | inr e ↦ rw e ([], sym (append-nil w.received))
  ]

  pub poll_call-Later : Meets Any Any (λ _ v. Later w v) (poll_call env w)
  unfolding poll_call
  poll_call-Later = elim (Option-cases (env.poll_answer w)) [
    | inl e ↦ rw (e, poll_call) tt
    | inr (a, e) ↦ rw (e, poll_call) ([], sym (append-nil w.received))
  ]

  pub safe_recvfrom-Later : Meets Any Any (λ _ v. Later w v) (safe_recvfrom env w)
  unfolding safe_recvfrom
  safe_recvfrom-Later = elim (Option-cases (env.recvfrom_answer w)) [
    | inl e ↦ rw (e, safe_recvfrom) tt
    | inr (d, e) ↦ rw (e, safe_recvfrom) (take maxbuf d ∷ [], refl)
  ]

  pub process_srej_packet-Later :
      (win : Window) (packet : List ℕ) (window_size : ℕ)
      → Meets Any Any (λ _ v. Later w v) (process_srej_packet env win packet window_size w)
  unfolding process_srej_packet
  process_srej_packet-Later win packet window_size =
      Meets-defined Any Any (λ _ v. Later w v) (acked_num_of packet) _ w (λ _. tt)
        (λ n _.
          Meets-defined Any Any (λ _ v. Later w v)
            (get_packet_to_resend win (signed32 n) window_size) _ w (λ _. tt)
            (λ r _. elim (Option-cases r) [
              | inl nothing ↦ rw nothing ([], sym (append-nil w.received))
              | inr (pdu, something) ↦ elim (Bool-cases (ltb 0 (length pdu))) [
                | inl long ↦ rw (something, long) (safe_sendto-Later pdu)
                | inr empty ↦ rw (something, empty) ([], sym (append-nil w.received))
              ]
            ]))
