-- ===== src/Server/WholeTests.antt =====
-- The server's whole run at a request and two packets.
use selective_reject.Base.{
  refl, arith, inl, inr, some, some_inj, [], ◌∷◌, length, codes, ◌==◌, Bool-cases, if◌then◌else◌,
  ◌≢◌, ◌≡◌, pos,
}
use selective_reject.Machine.{Env, Ends, Never, exited}
use selective_reject.Pdu.Example.{internet_checksum-Verifies}
use selective_reject.Pdu.Build.{flag_of, rcopy_to_server}
use selective_reject.Receiver.Example.{length-blank, sample, sample_env, packet, start}
use selective_reject.Sender.Steps.{Args, setup_payload}
use selective_reject.Sender.Setup.{first_packet}
use selective_reject.Server.Network.{DeliversFrom, data_packet, other_packet}
use selective_reject.Server.Served.{Serves, SmallSockets}
use selective_reject.Server.Parent.{server_main}
use selective_reject.Server.Whole.{Requests, Role, server_main-Role}

abbrev request : Args
request = record { to_filename = codes "copy"; window_size = 2; buffer_size = 400 }

-- The request, until it is answered; then packet 1, then packet 2 again and again. The process is the
-- child.
abbrev asking_env : Env
asking_env = record sample_env {
  recvfrom_answer = λ w.
      if length w.sent == 0
      then some (first_packet sample_env request)
      else if length w.file == 0
      then some (packet 1)
      else some (packet 2);
  fork_answer = λ w. some 0;
}

request-Serves : Serves asking_env request
request-Serves = record {
  law = internet_checksum-Verifies;
  room = length-blank;
  whole = λ w bytes. inr refl;
  fd = 5;
  opens = λ w. refl;
  named = (λ z. cc, (λ z. cc, (λ z. cc, (λ z. cc, tt))));
  short = omega arith;
  some_window = omega arith;
  window = omega arith;
  buffer = omega arith;
}

asking_env-DeliversFrom : DeliversFrom asking_env sample
asking_env-DeliversFrom w d got good = elim (Bool-cases (length w.sent == 0)) [
  | inl first ↦ rw (← some_inj (rw first at got)) (
      other_packet 0 rcopy_to_server (setup_payload request) (omega arith)
        (λ z. absurd (omega arith)) (λ z. absurd (omega arith)) refl)
  | inr answered ↦ elim (Bool-cases (length w.file == 0)) [
    | inl none_yet ↦
        rw (← some_inj (rw (answered, none_yet) at got))
          (data_packet 1 (omega arith) (omega arith) refl)
    | inr one ↦
        rw (← some_inj (rw (answered, one) at got)) (data_packet 2 (omega arith) (omega arith) refl)
  ]
]

asking_env-Requests : Requests asking_env request
unfolding flag_of
asking_env-Requests w d got good asks = elim (Bool-cases (length w.sent == 0)) [
  | inl first ↦ rw (← some_inj (rw first at got)) refl
  | inr answered ↦ elim (Bool-cases (length w.file == 0)) [
    | inl none_yet ↦
        absurd (omega (arith, some_inj (rw (← some_inj (rw (answered, none_yet) at got)) at asks)))
    | inr one ↦
        absurd (omega (arith, some_inj (rw (← some_inj (rw (answered, one) at got)) at asks)))
  ]
]

asking_env-SmallSockets : SmallSockets asking_env
asking_env-SmallSockets w fd e = omega (arith, some_inj e)

server_main-Role_example :
    Ends
      (Role asking_env sample)
      (Role asking_env sample)
      (λ _ v. Never v)
      (server_main asking_env (λ bytes. pos 4000) (codes "server" ∷ codes "0" ∷ []) 6 start)
    × (length (codes "server" ∷ codes "0" ∷ []) ≢ 2
        → length (codes "server" ∷ codes "0" ∷ []) ≢ 3
        → server_main asking_env (λ bytes. pos 4000) (codes "server" ∷ codes "0" ∷ []) 6 start
          ≡ exited start)
server_main-Role_example =
    server_main-Role asking_env request request-Serves sample asking_env-DeliversFrom
      asking_env-Requests asking_env-SmallSockets (omega arith) (λ bytes. pos 4000)
      (codes "server" ∷ codes "0" ∷ []) 6 start refl refl
