-- ===== src/Transfer/Tests.antt =====
-- The theorems about rcopy.c and server.c together, at a transfer of three bytes.
use selective_reject.Base.{
  some_inj, ℕ, ◌+◌, ◌*◌, ◌-◌, ℤ, List, codes, arith, ◌≡◌, refl, [], ◌∷◌, pos,
}
use selective_reject.Machine.{
  s_calloc, malloc, safe_recvfrom, write, safe_sendto, open_output, final, Ends,
}
use selective_reject.Pdu.Example.{internet_checksum}
use selective_reject.Pdu.Build.{
  seq_num_of, flag_of, payload_of, create_pdu, format_receiver_ready_pdu,
}
use selective_reject.Net.Sockets.{create_udp_socket, open_socket}
use selective_reject.Poll.Set.{setup_poll_set, add_to_poll_set, store_fd}
use selective_reject.Receiver.Slots.{free_slot, slot_at, initialize_buffer}
use selective_reject.Receiver.Replies.{send_rr, send_eof_ack}
use selective_reject.Receiver.States.{
  continuously_send_eof_ack, eof_ack_loop, dispatch, increment, past_eof, write_to, write_in_turn,
  inorder_function, buffer_management,
}
use selective_reject.Receiver.Delivered.{eof_ack_pdu}
use selective_reject.Receiver.Example.{start, length-blank}
use selective_reject.Server.Setup.{c_string, receive_initial_pdu, send_server_response}
use selective_reject.Server.Receive.{
  receive_loop, handle_pdu, accept_pdu, parse_pdu, note_eof, manage_incoming_data,
}
use selective_reject.Server.Network.{Contains}
use selective_reject.Server.Child.{child_step, child_loop, process_file}
use selective_reject.Sender.Loops.{send_file}
use selective_reject.Sender.Steps.{Args, check_args}
use selective_reject.Sender.Whole.{task}
use selective_reject.Sender.Main.{rcopy_process_file, rcopy_main, parse_args}
use selective_reject.Sender.Started.{rcopy_main-Accounted}
use selective_reject.Sender.Setup.{first_packet}
use selective_reject.Sender.Sent.{Accounted, rcopy_process_file-Accounted, send_file-Ends}
use selective_reject.Transfer.Link.{rcopy_env, rcopy_task}
use selective_reject.Transfer.Copied.{
  CopiesBeginning, process_file-CopiesBeginning, process_file_copies,
}
use selective_reject.Transfer.Example.{
  sample_args, sample_file, server_env, caller, caller-Startable, caller-Acks, server_env-Serves,
  sample_Carries, rcopy_kernel, reads_sample, sample_file,
}

rcopy_process_file-Accounted_example :
    Accounted
      (rcopy_task server_env caller)
      (final (rcopy_process_file (rcopy_env server_env caller) 9 (104 ∷ []) sample_args 3 start))
rcopy_process_file-Accounted_example =
    rcopy_process_file-Accounted (rcopy_env server_env caller) sample_args sample_file
      caller-Startable 9 (104 ∷ []) 3 start refl refl

process_file-CopiesBeginning_example :
    Ends
      (CopiesBeginning (rcopy_task server_env caller))
      (CopiesBeginning (rcopy_task server_env caller))
      (λ _ v. CopiesBeginning (rcopy_task server_env caller) v)
      (process_file server_env 4 (first_packet server_env sample_args) start)
process_file-CopiesBeginning_example =
    process_file-CopiesBeginning server_env caller server_env-Serves caller-Startable 4 start
      (λ w fd e. omega (arith, some_inj e)) sample_Carries refl refl refl refl

-- The child acknowledges the EOF packet.
child_acknowledges :
    Contains
      (eof_ack_pdu internet_checksum (pos 3))
      (final (process_file server_env 4 (first_packet server_env sample_args) start)).sent
unfolding process_file child_loop child_step create_udp_socket open_socket receive_initial_pdu
    send_server_response open_output manage_incoming_data initialize_buffer setup_poll_set s_calloc
    add_to_poll_set store_fd malloc receive_loop safe_recvfrom handle_pdu accept_pdu parse_pdu
    seq_num_of flag_of payload_of note_eof buffer_management dispatch inorder_function increment
    past_eof write_to write_in_turn write send_rr send_eof_ack safe_sendto create_pdu
    format_receiver_ready_pdu free_slot slot_at continuously_send_eof_ack eof_ack_loop c_string
child_acknowledges = (3, refl)

process_file_copies_example :
    (final (process_file server_env 4 (first_packet server_env sample_args) start)).file
    ≡ 72 ∷ 105 ∷ 33 ∷ []
unfolding flag_of
process_file_copies_example =
    process_file_copies server_env caller server_env-Serves caller-Startable 4 start
      (eof_ack_pdu internet_checksum (pos 3)) sample_Carries refl refl refl refl child_acknowledges
      refl

send_file-Ends_example :
    Ends
      (Accounted (rcopy_task server_env caller))
      (Accounted (rcopy_task server_env caller))
      (λ _ v. Accounted (rcopy_task server_env caller) v)
      (send_file (rcopy_env server_env caller) 9 sample_args start)
send_file-Ends_example =
    send_file-Ends (rcopy_env server_env caller) sample_args sample_file caller-Startable 9 start
      caller-Acks refl refl

digits : ℕ → List ℕ → ℕ
digits n [] = n
digits n (c ∷ cs) = digits (n * 10 + (c - 48)) cs

abbrev decimal : List ℕ → ℤ
decimal bytes = pos (digits 0 bytes)

abbrev sample_argv : List (List ℕ)
sample_argv =
    codes "rcopy"
    ∷ codes "file"
    ∷ codes "copy"
    ∷ codes "2"
    ∷ codes "400"
    ∷ codes "0"
    ∷ codes "host"
    ∷ codes "4000"
    ∷ []

abbrev parsed_args : Args
parsed_args = record { to_filename = codes "copy"; window_size = 2; buffer_size = 400 }

rcopy_main-Accounted_example :
    Accounted
      (task rcopy_kernel parsed_args sample_file)
      (final (rcopy_main rcopy_kernel decimal sample_argv 9 start))
unfolding check_args parse_args digits
rcopy_main-Accounted_example =
    rcopy_main-Accounted rcopy_kernel length-blank decimal sample_argv (codes "file") (codes "host")
      parsed_args (pos 4000) sample_file 9 start refl refl (omega arith) reads_sample (omega arith)
      refl refl
