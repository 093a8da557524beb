-- ===== src/Receiver/Delivered.antt =====
-- What the receiver has done at a point of its run: the bytes of the packets before `expectedSeqNum`
-- are in the output file, in order and nothing else, and no reply says more than that
-- (bufferMngment.c). The replies and the write keep it.
use selective_reject.Base.{
  ℕ, zero, suc, ◌≤◌, ◌≡◌, refl, sym, ◌∙◌, ap, ◌⊎◌, inl, inr, arith, List, [], ◌∷◌, ◌++◌, length,
  be32, All, All-append, ℤ, pos, negsuc, unsigned32,
}
use selective_reject.Machine.{
  World, Env, Ends, Ends-mono, HasRoom, NoShortWrite, safe_sendto, safe_sendto-Ends, write,
  write-Ends,
}
use selective_reject.Pdu.Build.{server_to_rcopy, frame, rr_packet, srej_packet, eof_ack}
use selective_reject.Pdu.Layout.{sent_create_pdu, sent_receiver_ready}
use selective_reject.Receiver.Stored.{Stream}
use selective_reject.Receiver.Replies.{send_rr, send_srej, send_eof_ack}

-- The bytes of the packets 1, …, e - 1 of a stream.
abbrev pub before : (ℕ → List ℕ) → ℕ → List ℕ
before stream zero = []
before stream (suc zero) = []
before stream (suc (suc n)) = before stream (suc n) ++ stream (suc n)

pub before-suc :
    (stream : ℕ → List ℕ) (e : ℕ) → 1 ≤ e → before stream (suc e) ≡ before stream e ++ stream e
before-suc stream zero h = absurd (omega arith)
before-suc stream (suc n) h = refl

abbrev pub rr_pdu : (List ℕ → ℕ) → ℤ → List ℕ
rr_pdu in_cksum r = frame in_cksum 0 rr_packet (be32 (unsigned32 r))

abbrev pub srej_pdu : (List ℕ → ℕ) → ℤ → List ℕ
srej_pdu in_cksum r = frame in_cksum 0 srej_packet (be32 (unsigned32 r))

abbrev pub eof_ack_pdu : (List ℕ → ℕ) → ℤ → List ℕ
eof_ack_pdu in_cksum n = frame in_cksum (unsigned32 n) eof_ack (0 ∷ [])

-- A packet that a receiver may have sent when it expects packet `e` and `last` is the EOF packet: an RR
-- or SREJ of no greater number, an EOF acknowledgement of a smaller one that is not below `last`, or the
-- response to the setup packet.
abbrev pub Honest : (List ℕ → ℕ) → ℕ → ℕ → List ℕ → Type 0
Honest in_cksum last e d =
    ((r : ℕ) × (r ≤ e) × ((d ≡ rr_pdu in_cksum (pos r)) ⊎ (d ≡ srej_pdu in_cksum (pos r))))
    ⊎ (((n : ℕ) × (last ≤ n) × (suc n ≤ e) × (d ≡ eof_ack_pdu in_cksum (pos n)))
        ⊎ (d ≡ frame in_cksum 0 server_to_rcopy (0 ∷ [])))

pub record Delivered (stream : Stream) (in_cksum : List ℕ → ℕ) (e : ℕ) (w : World) : Type 0 where
  pub started : 1 ≤ e
  pub written : w.file ≡ before stream.bytes e
  pub honest : All (Honest in_cksum stream.last e) w.sent

-- At whatever point a process exits, the file holds whole packets in order.
abbrev pub Stops : Stream → (List ℕ → ℕ) → World → Type 0
Stops stream in_cksum w = (e : ℕ) × Delivered stream in_cksum e w

module _ (in_cksum : List ℕ → ℕ) where
  Honest-mono :
      (last e : ℕ) (d : List ℕ) → Honest in_cksum last e d → Honest in_cksum last (suc e) d
  Honest-mono last e d (inl (r, h, c)) = inl (r, omega arith, c)
  Honest-mono last e d (inr (inl (n, l, h, c))) = inr (inl (n, l, omega arith, c))
  Honest-mono last e d (inr (inr c)) = inr (inr c)

  All-Honest-mono :
      (last e : ℕ) (ds : List (List ℕ))
      → All (Honest in_cksum last e) ds
      → All (Honest in_cksum last (suc e)) ds
  All-Honest-mono last e [] h = tt
  All-Honest-mono last e (d ∷ ds) h = (Honest-mono last e d h.0, All-Honest-mono last e ds h.1)

module _ (stream : Stream) (in_cksum : List ℕ → ℕ) (e : ℕ) (w v : World) where
  pub Delivered-same :
      Delivered stream in_cksum e w
      → v.file ≡ w.file
      → v.sent ≡ w.sent
      → Delivered stream in_cksum e v
  Delivered-same h f s = record {
    started = h.started;
    written = f ∙ h.written;
    honest = rw s h.honest;
  }

  pub Delivered-reply :
      (d : List ℕ)
      → Delivered stream in_cksum e w
      → Honest in_cksum stream.last e d
      → v.file ≡ w.file
      → v.sent ≡ w.sent ++ d ∷ []
      → Delivered stream in_cksum e v
  Delivered-reply d h ok f s = record {
    started = h.started;
    written = f ∙ h.written;
    honest = rw s (All-append (Honest in_cksum stream.last e) w.sent (d ∷ []) h.honest (ok, tt));
  }

  -- The packet in turn is written: the next one is expected.
  pub Delivered-next :
      Delivered stream in_cksum e w
      → v.file ≡ w.file ++ stream.bytes e
      → v.sent ≡ w.sent
      → Delivered stream in_cksum (suc e) v
  Delivered-next h f s = record {
    started = omega arith;
    written =
        f ∙ (ap (λ x. x ++ stream.bytes e) h.written ∙ sym (before-suc stream.bytes e h.started));
    honest = rw s (All-Honest-mono in_cksum stream.last e w.sent h.honest);
  }

module _ (env : Env) (room : HasRoom env) (stream : Stream) (U : World → Type 0) (e : ℕ)
    (w : World) where
  pub sends-Delivered :
      (d : List ℕ)
      → Delivered stream env.in_cksum e w
      → Honest env.in_cksum stream.last e d
      → Ends
          (Stops stream env.in_cksum)
          U
          (λ _ v. Delivered stream env.in_cksum e v)
          (safe_sendto env d w)
  sends-Delivered d h ok =
      Ends-mono (Stops stream env.in_cksum) U
        (λ _ v. (v.file ≡ w.file) × (v.sent ≡ w.sent ++ d ∷ []))
        (λ _ v. Delivered stream env.in_cksum e v) (safe_sendto env d w)
        (safe_sendto-Ends env (Stops stream env.in_cksum) U d w
          (λ v f s. (e, Delivered-same stream env.in_cksum e w v h f s)))
        (λ _ v p. Delivered-reply stream env.in_cksum e w v d h ok p.0 p.1)

  pub send_rr-Delivered :
      (r : ℕ)
      → r ≤ e
      → Delivered stream env.in_cksum e w
      → Ends
          (Stops stream env.in_cksum)
          U
          (λ _ v. Delivered stream env.in_cksum e v)
          (send_rr env (pos r) w)
  unfolding send_rr
  send_rr-Delivered r le h =
      let (pdu, made, front) =
        sent_receiver_ready env.in_cksum env.garbage (unsigned32 (pos r)) rr_packet (omega arith)
          (omega arith) in
      rw (made, front) (sends-Delivered (rr_pdu env.in_cksum (pos r)) h (inl (r, le, inl refl)))

  pub send_srej-Delivered :
      (r : ℕ)
      → r ≤ e
      → Delivered stream env.in_cksum e w
      → Ends
          (Stops stream env.in_cksum)
          U
          (λ _ v. Delivered stream env.in_cksum e v)
          (send_srej env (pos r) w)
  unfolding send_srej
  send_srej-Delivered r le h =
      let (pdu, made, front) =
        sent_receiver_ready env.in_cksum env.garbage (unsigned32 (pos r)) srej_packet (omega arith)
          (omega arith) in
      rw (made, front) (sends-Delivered (srej_pdu env.in_cksum (pos r)) h (inl (r, le, inr refl)))

  pub send_eof_ack-Delivered :
      (n : ℕ)
      → stream.last ≤ n
      → suc n ≤ e
      → Delivered stream env.in_cksum e w
      → Ends
          (Stops stream env.in_cksum)
          U
          (λ _ v. Delivered stream env.in_cksum e v)
          (send_eof_ack env (pos n) w)
  unfolding send_eof_ack
  send_eof_ack-Delivered n past le h =
      let (pdu, made, front) =
        sent_create_pdu env.in_cksum env.garbage (unsigned32 (pos n)) eof_ack (0 ∷ []) (omega arith)
          (omega arith) in
      rw (made, front)
        (sends-Delivered (eof_ack_pdu env.in_cksum (pos n)) h (inr (inl (n, past, le, refl))))

  -- Writing the packet in turn fails and leaves the file, or extends it by that packet.
  pub write-Delivered :
      NoShortWrite env
      → (payload : List ℕ) → payload ≡ stream.bytes e
      → Delivered stream env.in_cksum e w
      → Ends
          (Stops stream env.in_cksum)
          U
          (λ n v.
            ((n ≡ negsuc 0) × Delivered stream env.in_cksum e v
              ⊎ (n ≡ pos (length payload)) × Delivered stream env.in_cksum (suc e) v))
          (write env payload w)
  write-Delivered whole payload same h =
      Ends-mono (Stops stream env.in_cksum) U _ _ (write env payload w)
        (write-Ends env (Stops stream env.in_cksum) U payload w whole) (λ n v p. written n v p)
    where
      written :
          (n : ℤ) (v : World)
          → ((n ≡ negsuc 0) × (v.file ≡ w.file) × (v.sent ≡ w.sent)
              ⊎ (n ≡ pos (length payload)) × (v.file ≡ w.file ++ payload) × (v.sent ≡ w.sent))
          → (n ≡ negsuc 0) × Delivered stream env.in_cksum e v
            ⊎ (n ≡ pos (length payload)) × Delivered stream env.in_cksum (suc e) v
      written n v (inl (m, f, s)) = inl (m, Delivered-same stream env.in_cksum e w v h f s)
      written n v (inr (m, f, s)) =
          inr (m, Delivered-next stream env.in_cksum e w v h (f ∙ ap (◌++◌ w.file) same) s)
