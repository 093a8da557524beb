-- ===== src/Sender/Started.antt =====
-- rcopy from its `main` (rcopy.c): what `checkArgs` lets through, and what is then sent.
use selective_reject.Base.{
  ℕ, ◌+◌, ◌≤◌, ◌<◌, ◌≡◌, refl, ap, ◌∙◌, ◌⊎◌, arith, inl, inr, Bool, true, false, some, List, [],
  ◌∷◌, length, ltb, ◌||◌, ltb→le, leb, Bool-cases, Option-cases, ℤ, pos, negsuc, int_max, some_inj,
}
use selective_reject.Machine.{
  World, Env, HasRoom, Meets, Meets-and_then, Meets-final, final, tick, ◌>>=◌, SocketKind, datagram,
}
use selective_reject.Net.Names.{get_ip_address46, gethostbyname6}
use selective_reject.Net.Sockets.{setup_udp_client_to_server, create_udp_socket, open_socket}
use selective_reject.Sender.Steps.{Args, check_args}
use selective_reject.Sender.Main.{parse_args, rcopy_main, rcopy_process_file}
use selective_reject.Sender.Account.{Startable, ReadsFile}
use selective_reject.Sender.Whole.{task}
use selective_reject.Sender.Sent.{Accounted, Quiet, Quiet-Accounted, rcopy_process_file-Meets}

-- The bounds that `checkArgs` tests.
record InBounds (args : Args) : Type 0 where
  short : length args.to_filename ≤ 1000
  some_bytes : 400 ≤ args.buffer_size
  small : args.buffer_size ≤ 1400

or_false : (a b : Bool) → (a || b) ≡ false → (a ≡ false) × (b ≡ false)
or_false a b h = ground arith

ℤ-cases : (z : ℤ) → ((n : ℕ) × (z ≡ pos n)) ⊎ ((n : ℕ) × (z ≡ negsuc n))
ℤ-cases (pos n) = inl (n, refl)
ℤ-cases (negsuc n) = inr (n, refl)

module _ (atoi : List ℕ → ℤ) (from host : List ℕ) (args : Args) (a b c d e f g h : List ℕ) where
  abbrev argv : List (List ℕ)
  argv = a ∷ b ∷ c ∷ d ∷ e ∷ f ∷ g ∷ h ∷ []

  parsed_sizes :
      parse_args atoi argv ≡ some (from, host, args)
      → (c ≡ args.to_filename) × (atoi e ≡ pos args.buffer_size)
  unfolding parse_args
  parsed_sizes parsed = elim (ℤ-cases (atoi d)) [
    | inr (n, bad) ↦ absurd (cc (rw bad at parsed))
    | inl (n, window) ↦ elim (ℤ-cases (atoi e)) [
      | inr (m, bad) ↦ absurd (cc (rw (window, bad) at parsed))
      | inl (m, size) ↦
          let same = some_inj (rw (window, size) at parsed) in
          (
            ap (λ (p : List ℕ × List ℕ × Args). p.2.to_filename) same,
            size ∙ ap (λ (p : List ℕ × List ℕ × Args). pos p.2.buffer_size) same,
          )
    ]
  ]

  checked_sizes :
      (port : ℤ) (size : ℕ)
      → atoi e ≡ pos size
      → check_args atoi argv ≡ some port
      → (length c ≤ 1000) × (400 ≤ size) × (size ≤ 1400)
  unfolding check_args
  checked_sizes port size at checked = elim (Bool-cases (ltb 1000 (length b))) [
    | inl long ↦ absurd (cc (rw long at checked))
    | inr b_short ↦ elim (Bool-cases (ltb 1000 (length c))) [
      | inl long ↦ absurd (cc (rw (b_short, long) at checked))
      | inr c_short ↦ elim (Bool-cases (ltb size 400 || ltb 1400 size)) [
        | inl outside ↦ absurd (cc (rw (b_short, c_short, at, outside) at checked))
        | inr inside ↦
            let (large, small) = or_false (ltb size 400) (ltb 1400 size) inside in
            (ltb→le 1000 (length c) c_short, ltb→le size 400 large, ltb→le 1400 size small)
      ]
    ]
  ]

module _ (atoi : List ℕ → ℤ) (port : ℤ) (from host : List ℕ) (args : Args) where
  check_args-InBounds :
      (argv : List (List ℕ))
      → check_args atoi argv ≡ some port
      → parse_args atoi argv ≡ some (from, host, args)
      → InBounds args
  unfolding check_args parse_args
  check_args-InBounds (a ∷ b ∷ c ∷ d ∷ e ∷ f ∷ g ∷ h ∷ []) checked parsed =
      let (name, size) = parsed_sizes atoi from host args a b c d e f g h parsed in
      let (short, large, small) =
        checked_sizes atoi from host args a b c d e f g h port args.buffer_size size checked in
      record { short = omega (arith, short, ap length name); some_bytes = large; small = small }
  check_args-InBounds [] checked parsed = absurd (cc)
  check_args-InBounds (a ∷ []) checked parsed = absurd (cc)
  check_args-InBounds (a ∷ b ∷ []) checked parsed = absurd (cc)
  check_args-InBounds (a ∷ b ∷ c ∷ []) checked parsed = absurd (cc)
  check_args-InBounds (a ∷ b ∷ c ∷ d ∷ []) checked parsed = absurd (cc)
  check_args-InBounds (a ∷ b ∷ c ∷ d ∷ e ∷ []) checked parsed = absurd (cc)
  check_args-InBounds (a ∷ b ∷ c ∷ d ∷ e ∷ f ∷ []) checked parsed = absurd (cc)
  check_args-InBounds (a ∷ b ∷ c ∷ d ∷ e ∷ f ∷ g ∷ []) checked parsed = absurd (cc)
  check_args-InBounds (a ∷ b ∷ c ∷ d ∷ e ∷ f ∷ g ∷ h ∷ i ∷ rest) checked parsed = absurd (cc)

module _ (env : Env) (args : Args) (file : List ℕ) (begin : Startable (task env args file)) where
  abbrev Fine : World → Type 0
  Fine v = Accounted (task env args file) v

  abbrev Still : World → Type 0
  Still v = Quiet env args file begin v

  Still-Fine : (v : World) → Still v → Fine v
  Still-Fine v q = Quiet-Accounted env args file begin v q

  open_socket-Quiet :
      (kind : SocketKind) (w : World)
      → Still w
      → Meets Fine Fine (λ _ v. Still v) (open_socket env kind w)
  unfolding open_socket
  open_socket-Quiet kind w q = elim (Option-cases (env.socket_answer w)) [
    | inl failed ↦ rw (failed, open_socket) (Still-Fine (tick w) q)
    | inr (fd, opened) ↦ rw (opened, open_socket) q
  ]

  gethostbyname6-Quiet :
      (host : List ℕ) (w : World)
      → Still w
      → Meets Fine Fine (λ _ v. Still v) (gethostbyname6 env host w)
  unfolding gethostbyname6 get_ip_address46
  gethostbyname6-Quiet host w q = elim (Option-cases (env.getaddrinfo_answer w true host)) [
    | inl missing ↦ rw (missing, get_ip_address46) q
    | inr (bytes, found) ↦ elim (Bool-cases (leb 16 (length bytes))) [
      | inl whole ↦ rw (found, get_ip_address46, whole) q
      | inr cut ↦ rw (found, get_ip_address46, cut) (Still-Fine w q)
    ]
  ]

  setup_udp_client_to_server-Quiet :
      (host : List ℕ) (port : ℤ) (w : World)
      → Still w
      → Meets Fine Fine (λ _ v. Still v) (setup_udp_client_to_server env host port w)
  unfolding setup_udp_client_to_server create_udp_socket
  setup_udp_client_to_server-Quiet host port w q =
      Meets-and_then Fine Fine (λ _ v. Still v) (λ _ v. Still v) (open_socket env datagram w) _
        (open_socket-Quiet datagram w q)
        (λ fd v q'.
          Meets-and_then Fine Fine (λ _ u. Still u) (λ _ u. Still u) (gethostbyname6 env host v) _
            (gethostbyname6-Quiet host v q')
            (λ ip u q''. elim (Option-cases ip) [
              | inl none_found ↦ rw none_found (Still-Fine u q'')
              | inr (bytes, found) ↦ rw found q''
            ]))

  started :
      (rounds : ℕ) (from host : List ℕ) (port : ℤ) (w : World)
      → Still w
      → Meets Fine Fine
          (λ _ v. Fine v)
          ((do
            (socket_num, server) ← setup_udp_client_to_server env host port
            rcopy_process_file env rounds from args socket_num)
            w)
  started rounds from host port w q =
      Meets-and_then Fine Fine (λ _ v. Still v) (λ _ v. Fine v)
        (setup_udp_client_to_server env host port w) _
        (setup_udp_client_to_server-Quiet host port w q)
        (λ (socket_num, server) v q'.
          rcopy_process_file-Meets env args file begin rounds from socket_num v q')

module _ (env : Env) (room : HasRoom env) (atoi : List ℕ → ℤ) (argv : List (List ℕ))
    (from host : List ℕ) (args : Args) (port : ℤ) (file : List ℕ) where
  -- rcopy's whole run, for arguments that `checkArgs` lets through with a window of at least one packet,
  -- and an input file of fewer than INT_MAX - 1 bytes that `read` gives as it is asked to: wherever it
  -- has got to, be it that a call has failed, or that it has run into undefined behaviour, it has sent
  -- nothing but the setup packet of these arguments, the data packets of the file's pieces under their
  -- numbers, and the EOF packet behind the last piece when the whole file has been read and an RR packet
  -- for its number has been received with its checksum right, or there is no piece. What has been read
  -- is a beginning of the file.
  pub rcopy_main-Accounted :
      (rounds : ℕ) (w : World)
      → check_args atoi argv ≡ some port
      → parse_args atoi argv ≡ some (from, host, args)
      → 0 < args.window_size
      → ReadsFile env file
      → length file + 1 < int_max
      → w.sent ≡ []
      → w.input ≡ []
      → Accounted (task env args file) (final (rcopy_main env atoi argv rounds w))
  unfolding rcopy_main
  rcopy_main-Accounted rounds w checked parsed some_window reads few silent unread =
      let bounds = check_args-InBounds atoi port from host args argv checked parsed in
      let begin : Startable (task env args file) = record {
        room = room;
        short = bounds.short;
        some_window = some_window;
        some_bytes = omega (arith, bounds.some_bytes);
        small = bounds.small;
        reads = reads;
        few = few;
      } in
      Meets-final (Accounted (task env args file)) (rcopy_main env atoi argv rounds w) (
        rw (checked, rcopy_main, parsed)
          (started env args file begin rounds from host port w (silent, unread)))
