-- ===== src/Transfer/Link.antt =====
-- The network between rcopy.c and server.c, one of each: it may lose, repeat, reorder and damage
-- datagrams.
use selective_reject.Base.{
  ℕ, suc, ◌≤◌, ◌≡◌, arith, inl, inr, true, none, some, List, [], take, length, ltb, if◌then◌else◌,
  All-get_elem?,
}
use selective_reject.Machine.{World, Env, final, maxbuf}
use selective_reject.Pdu.Build.{rcopy_to_server}
use selective_reject.Sender.Steps.{Args, setup_payload}
use selective_reject.Sender.Main.{rcopy_process_file}
use selective_reject.Sender.Account.{Task, Startable, pieces_of}
use selective_reject.Sender.Whole.{task}
use selective_reject.Sender.Sent.{SentFor, rcopy_process_file-Accounted}
use selective_reject.Server.Network.{
  Contains, DeliversFrom, FromSender, data_packet, eof_packet, other_packet,
}
use selective_reject.Transfer.Streams.{stream_of, piece_at-get_elem?, cut_up_sizes}

-- From its call number `c` on, every call of a process that sends, waits or receives fails, so that the
-- process stops where it has got to by then.
abbrev pub halted : ℕ → Env → Env
halted c env = record env {
  sendto_fails = λ w. if ltb w.clock c then env.sendto_fails w else true;
  poll_answer = λ w. if ltb w.clock c then env.poll_answer w else none;
  recvfrom_answer = λ w. if ltb w.clock c then env.recvfrom_answer w else none;
}

-- rcopy as it was called: its surroundings, which has the server's checksum (the library is the same),
-- its arguments, its input file, the file's name and the socket.
pub record Caller : Type 0 where
  pub kernel : Env
  pub args : Args
  pub file : List ℕ
  pub from_file : List ℕ
  pub socket_num : ℕ
  pub start : World

module _ (server : Env) (caller : Caller) where
  abbrev pub rcopy_env : Env
  rcopy_env = record caller.kernel { in_cksum = server.in_cksum }

  -- What rcopy has done by its call number `c`, for so many rounds.
  abbrev pub so_far : ℕ → ℕ → World
  so_far c rounds = final (
      rcopy_process_file (halted c rcopy_env) rounds caller.from_file caller.args caller.socket_num
        caller.start)

  abbrev pub rcopy_task : Task
  rcopy_task = task rcopy_env caller.args caller.file

  -- The network invents nothing but what the checksum reveals: what reaches the server with its checksum
  -- right was sent by rcopy, at a moment by which rcopy had received, with their checksums right, only
  -- packets that this child of the server had sent: none of another child's reach it.
  abbrev pub Carries : Type 0
  Carries =
      (w : World) (d : List ℕ)
      → server.recvfrom_answer w ≡ some d
      → server.in_cksum (take maxbuf d) ≡ 0
      → (c rounds : ℕ) × Contains (take maxbuf d) (so_far c rounds).sent
        × ((x : List ℕ)
            → Contains x (so_far c rounds).received
            → server.in_cksum x ≡ 0
            → Contains x w.sent)

  module _ (begin : Startable rcopy_task) where
    halted-Startable : (c : ℕ) → Startable (task (halted c rcopy_env) caller.args caller.file)
    halted-Startable c = record {
      room = begin.room;
      short = begin.short;
      some_window = begin.some_window;
      some_bytes = begin.some_bytes;
      small = begin.small;
      reads = begin.reads;
      few = begin.few;
    }

    -- A datagram that rcopy may send is one that the server may receive.
    SentFor-FromSender :
        (v : World) (sent : List (List ℕ)) (d : List ℕ)
        → SentFor rcopy_task v d
        → ((x : List ℕ) → Contains x v.received → server.in_cksum x ≡ 0 → Contains x sent)
        → FromSender (stream_of rcopy_task begin) server.in_cksum sent d
    SentFor-FromSender v sent d (inl setup) known =
        other_packet 0 rcopy_to_server (setup_payload caller.args) (omega arith)
          (λ z. absurd (omega arith)) (λ z. absurd (omega arith)) setup
    SentFor-FromSender v sent d (inr (inl (k, b, at, e))) known =
        let (less, same) = piece_at-get_elem? (pieces_of rcopy_task) k b at in
        let sized =
          All-get_elem? (λ (x : List ℕ). length x ≤ caller.args.buffer_size) (pieces_of rcopy_task)
            k (cut_up_sizes caller.args.buffer_size (length caller.file) caller.file) at in
        data_packet (suc k) (omega (arith, less)) (rw same (omega (arith, begin.small, sized)))
          (rw same e)
    SentFor-FromSender v sent d (inr (inr (read, inl first, e))) known = eof_packet (inr first) e
    SentFor-FromSender v sent d (inr (inr (read, inr (x, there, good, flagged, asked), e))) known =
        eof_packet (inl (x, known x there good, flagged, asked)) e

    -- So the network delivers the packets of the file to the server.
    pub Carries-DeliversFrom :
        caller.start.sent ≡ []
        → caller.start.input ≡ []
        → Carries
        → DeliversFrom server (stream_of rcopy_task begin)
    Carries-DeliversFrom silent unread net w d got good =
        let (c, rounds, (i, at), known) = net w d got good in
        let account =
          rcopy_process_file-Accounted (halted c rcopy_env) caller.args caller.file
            (halted-Startable c) rounds caller.from_file caller.socket_num caller.start silent
            unread in
        SentFor-FromSender (so_far c rounds) w.sent (take maxbuf d)
          (All-get_elem?
            (SentFor (task (halted c rcopy_env) caller.args caller.file) (so_far c rounds))
            (so_far c rounds).sent i account.sent at)
          known
