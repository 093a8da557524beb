-- ===== src/Server/Acknowledged.antt =====
-- After its EOF acknowledgement a child of the server (server.c, bufferMngment.c) writes no more, whatever
-- arrives.
use selective_reject.Base.{
  ℕ, zero, suc, ◌+◌, ◌≡◌, refl, sym, ◌∙◌, inl, inr, some, List, [], ◌∷◌, ◌++◌, get_elem?, ltb,
  ltb_ℤ, pos, ◌==◌, ◌||◌, ◌⊎◌, true, signed32, unsigned32, take, Bool-cases, ℤ,
}
use selective_reject.Machine.{
  World, Env, Meets, Meets-and_then, Meets-defined, Ends-Meets, safe_sendto, safe_sendto-Ends,
  safe_recvfrom, same_recvfrom, Meets-mapped,
}
use selective_reject.Pdu.Build.{
  eof_flag, data_pkt, srej_packet, eof_ack, create_pdu, format_receiver_ready_pdu,
}
use selective_reject.Poll.{poll_call, same_poll_call}
use selective_reject.Receiver.Replies.{send_srej, send_eof_ack}
use selective_reject.Receiver.States.{
  sending_eof_ack, buffer_done, BufferInfo, ServerStateData, eof_ack_loop,
  continuously_send_eof_ack, dispatch, buffer_management,
}
use selective_reject.Server.Receive.{parse_pdu, note_eof, accept_pdu, handle_pdu, receive_loop}
use selective_reject.Server.Network.{Contains}

-- What the process has written, and that a datagram was sent.
abbrev pub Keeping : List ℕ → List ℕ → World → Type 0
Keeping file d v = (v.file ≡ file) × Contains d v.sent

get_elem?-more :
    (xs ys : List (List ℕ)) (i : ℕ) (d : List ℕ)
    → get_elem? xs i ≡ some d
    → get_elem? (xs ++ ys) i ≡ some d
get_elem?-more [] ys i d at = absurd (cc)
get_elem?-more (x ∷ xs) ys zero d at = at
get_elem?-more (x ∷ xs) ys (suc i) d at = get_elem?-more xs ys i d at

module _ (env : Env) (file ack : List ℕ) where
  abbrev K : World → Type 0
  K v = Keeping file ack v

  same-Keeping : (w v : World) → K w → v.file ≡ w.file → v.sent ≡ w.sent → K v
  same-Keeping w v (at, (i, there)) f s = (f ∙ at, (i, rw s there))

  safe_sendto-Keeping :
      (d : List ℕ) (w : World) → K w → Meets K K (λ _ v. K v) (safe_sendto env d w)
  safe_sendto-Keeping d w (at, (i, there)) =
      Meets-mapped K K K K (λ _ v. (v.file ≡ w.file) × (v.sent ≡ w.sent ++ d ∷ [])) (λ _ v. K v)
        (safe_sendto env d w) (λ _ k. k) (λ _ k. k)
        (λ _ v (f, s). (f ∙ at, (i, rw s (get_elem?-more w.sent (d ∷ []) i ack there))))
        (Ends-Meets K K (λ _ v. (v.file ≡ w.file) × (v.sent ≡ w.sent ++ d ∷ []))
          (safe_sendto env d w)
          (safe_sendto-Ends env K K d w (λ v f s. same-Keeping w v (at, (i, there)) f s)))

  poll_call-Keeping : (w : World) → K w → Meets K K (λ _ v. K v) (poll_call env w)
  poll_call-Keeping w k =
      Ends-Meets K K (λ _ v. K v) (poll_call env w)
        (same_poll_call env K K K w (λ v f s. same-Keeping w v k f s) (λ v h. h))

  safe_recvfrom-Keeping : (w : World) → K w → Meets K K (λ _ v. K v) (safe_recvfrom env w)
  safe_recvfrom-Keeping w k =
      Ends-Meets K K (λ _ v. K v) (safe_recvfrom env w)
        (same_recvfrom env K K K w (λ v f s. same-Keeping w v k f s) (λ v h. h))

  send_srej-Keeping : (z : ℤ) (w : World) → K w → Meets K K (λ _ v. K v) (send_srej env z w)
  unfolding send_srej
  send_srej-Keeping z w k =
      Meets-defined K K (λ _ v. K v)
        (format_receiver_ready_pdu env.in_cksum env.garbage 0 (unsigned32 z) srej_packet)
        (λ (pdu, n) v. safe_sendto env (take n pdu) v) w (λ _. k)
        (λ (pdu, n) made. safe_sendto-Keeping (take n pdu) w k)

  send_eof_ack-Keeping : (z : ℤ) (w : World) → K w → Meets K K (λ _ v. K v) (send_eof_ack env z w)
  unfolding send_eof_ack
  send_eof_ack-Keeping z w k =
      Meets-defined K K (λ _ v. K v)
        (create_pdu env.in_cksum env.garbage (unsigned32 z) eof_ack (0 ∷ []))
        (λ (pdu, n) v. safe_sendto env (take n pdu) v) w (λ _. k)
        (λ (pdu, n) made. safe_sendto-Keeping (take n pdu) w k)

  eof_ack_loop-Keeping :
      (rounds counter : ℕ) (eof : ℤ) (w : World)
      → K w
      → Meets K K (λ s v. (s ≡ buffer_done) × K v) (eof_ack_loop env rounds counter eof w)
  unfolding eof_ack_loop
  eof_ack_loop-Keeping zero counter eof w k = k
  eof_ack_loop-Keeping (suc rounds) counter eof w k = elim (Bool-cases (ltb counter 10)) [
    | inr over ↦ rw over (refl, k)
    | inl more ↦ rw more (
        Meets-and_then K K (λ _ v. K v) _ (poll_call env w) _ (poll_call-Keeping w k)
          (λ r v k'. elim (Bool-cases (ltb_ℤ r (pos 0))) [
            | inl timeout ↦ rw timeout (eof_ack_loop-Keeping rounds (counter + 1) eof v k')
            | inr ready ↦ rw ready (
                Meets-and_then K K (λ _ u. K u) _ (safe_recvfrom env v) _
                  (safe_recvfrom-Keeping v k')
                  (λ pdu u k''.
                    Meets-and_then K K (λ _ x. K x) _ (send_eof_ack env eof u) _
                      (send_eof_ack-Keeping eof u k'')
                      (λ _ x k3. eof_ack_loop-Keeping rounds counter eof x k3)))
          ]))
  ]

  buffer_management-Keeping :
      (rounds : ℕ) (z : ℤ) (flag : ℕ) (payload : List ℕ) (info : BufferInfo) (t : ServerStateData)
      (w : World)
      → t.state ≡ sending_eof_ack
      → K w
      → Meets K K
          (λ next v. (next.state ≡ buffer_done) × K v)
          (buffer_management env rounds z flag payload info t w)
  unfolding buffer_management dispatch continuously_send_eof_ack
  buffer_management-Keeping rounds z flag payload info t w state k = rw state (
      Meets-and_then K K (λ s v. (s ≡ buffer_done) × K v) _
        (continuously_send_eof_ack env rounds t.eof_seq_num w) _
        (Meets-and_then K K (λ _ v. K v) (λ s v. (s ≡ buffer_done) × K v)
          (send_eof_ack env t.eof_seq_num w) _ (send_eof_ack-Keeping t.eof_seq_num w k)
          (λ _ v k'. eof_ack_loop-Keeping rounds 0 t.eof_seq_num v k'))
        (λ s v h. h))

  note_eof-state : (flag n : ℕ) (t : ServerStateData) → (note_eof flag n t).state ≡ t.state
  unfolding note_eof
  note_eof-state flag n t = elim (Bool-cases (flag == eof_flag)) [
    | inl is ↦ rw is refl
    | inr other ↦ rw other refl
  ]

  accept_pdu-Keeping :
      (rounds : ℕ) (info : BufferInfo) (t : ServerStateData) (pdu : List ℕ) (w : World)
      → t.state ≡ sending_eof_ack
      → K w
      → Meets K K
          (λ r v. ((r.0 ≡ true) ⊎ (r.1.state ≡ sending_eof_ack)) × K v)
          (accept_pdu env rounds info t pdu w)
  unfolding accept_pdu
  accept_pdu-Keeping rounds info t pdu w state k =
      Meets-defined K K _ (parse_pdu pdu) _ w (λ _. k)
        (λ (n, flag, payload) parsed. elim (Bool-cases (flag == eof_flag || flag == data_pkt)) [
          | inr other ↦ rw other (inr state, k)
          | inl taken ↦ rw taken (
              Meets-and_then K K (λ next v. (next.state ≡ buffer_done) × K v) _
                (buffer_management env rounds (signed32 n) flag payload info (note_eof flag n t) w)
                _
                (buffer_management-Keeping rounds (signed32 n) flag payload info (note_eof flag n t)
                  w (note_eof-state flag n t ∙ state) k)
                (λ next v (last, k'). (inl (rw last refl), k')))
        ])

  handle_pdu-Keeping :
      (rounds : ℕ) (info : BufferInfo) (t : ServerStateData) (pdu : List ℕ) (w : World)
      → t.state ≡ sending_eof_ack
      → K w
      → Meets K K
          (λ r v. ((r.0 ≡ true) ⊎ (r.1.state ≡ sending_eof_ack)) × K v)
          (handle_pdu env rounds info t pdu w)
  unfolding handle_pdu
  handle_pdu-Keeping rounds info t pdu w state k = elim (Bool-cases (env.in_cksum pdu == 0)) [
    | inl good ↦ rw good (accept_pdu-Keeping rounds info t pdu w state k)
    | inr damaged ↦ rw damaged (
        Meets-and_then K K (λ _ v. K v) _ (send_srej env (pos t.expected_seq_num) w) _
          (send_srej-Keeping (pos t.expected_seq_num) w k) (λ _ v k'. (inr state, k')))
  ]

  pub receive_loop-Keeping :
      (rounds : ℕ) (info : BufferInfo) (t : ServerStateData) (w : World)
      → t.state ≡ sending_eof_ack
      → K w
      → Meets K K (λ _ v. K v) (receive_loop env rounds info t w)
  unfolding receive_loop
  receive_loop-Keeping zero info t w state k = k
  receive_loop-Keeping (suc rounds) info t w state k =
      Meets-and_then K K (λ _ v. K v) (λ _ v. K v) (safe_recvfrom env w) _
        (safe_recvfrom-Keeping w k)
        (λ pdu v k'.
          Meets-and_then K K _ (λ _ u. K u) (handle_pdu env rounds info t pdu v) _
            (handle_pdu-Keeping rounds info t pdu v state k')
            (λ (over, next) u (which, k''). elim (Bool-cases over) [
              | inl out ↦ rw out k''
              | inr on ↦ rw on (elim which [
                | inl ended ↦ absurd (cc (sym ended ∙ on))
                | inr still ↦ receive_loop-Keeping rounds info next u still k''
              ])
            ]))
