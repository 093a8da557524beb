-- ===== src/Server/ChildTests.antt =====
-- The theorems about a child's whole run at a small transfer.
use selective_reject.Base.{some_inj, codes, ◌≡◌, refl, arith, inr, [], ◌∷◌, pos}
use selective_reject.Machine.{
  s_calloc, malloc, safe_recvfrom, write, safe_sendto, open_output, final, Ends,
}
use selective_reject.Pdu.Example.{internet_checksum, internet_checksum-Verifies}
use selective_reject.Pdu.Build.{
  seq_num_of, flag_of, payload_of, create_pdu, format_receiver_ready_pdu,
}
use selective_reject.Net.Sockets.{create_udp_socket, open_socket}
use selective_reject.Poll.Set.{setup_poll_set, add_to_poll_set, store_fd}
use selective_reject.Receiver.Slots.{free_slot, slot_at, initialize_buffer}
use selective_reject.Receiver.Replies.{send_rr, send_eof_ack}
use selective_reject.Receiver.States.{
  continuously_send_eof_ack, eof_ack_loop, dispatch, increment, past_eof, write_to, write_in_turn,
  inorder_function, buffer_management,
}
use selective_reject.Receiver.Delivered.{Stops, eof_ack_pdu}
use selective_reject.Receiver.Example.{length-blank, sample, start}
use selective_reject.Sender.Steps.{Args}
use selective_reject.Server.Setup.{c_string, receive_initial_pdu, send_server_response}
use selective_reject.Server.Receive.{
  receive_loop, handle_pdu, accept_pdu, parse_pdu, note_eof, manage_incoming_data,
}
use selective_reject.Server.Network.{Contains}
use selective_reject.Server.Example.{whole_env, whole_env-DeliversFrom}
use selective_reject.Server.Child.{child_step, child_loop, process_file}
use selective_reject.Sender.Setup.{first_packet}
use selective_reject.Server.Served.{Serves, process_file-Stops, process_file_complete}

abbrev small_request : Args
small_request = record { to_filename = codes "copy"; window_size = 2; buffer_size = 400 }

small_request-Serves : Serves whole_env small_request
small_request-Serves = record {
  law = internet_checksum-Verifies;
  room = length-blank;
  whole = λ w bytes. inr refl;
  fd = 5;
  opens = λ w. refl;
  named = (λ z. cc, (λ z. cc, (λ z. cc, (λ z. cc, tt))));
  short = omega arith;
  some_window = omega arith;
  window = omega arith;
  buffer = omega arith;
}

process_file-Stops_example :
    Ends
      (Stops sample internet_checksum)
      (Stops sample internet_checksum)
      (λ _ v. Stops sample internet_checksum v)
      (process_file whole_env 4 (first_packet whole_env small_request) start)
process_file-Stops_example =
    process_file-Stops whole_env small_request small_request-Serves sample 4 start
      (λ w fd e. omega (arith, some_inj e)) whole_env-DeliversFrom (omega arith) refl refl

-- The child acknowledges the EOF packet.
child_acknowledges :
    Contains
      (eof_ack_pdu internet_checksum (pos 3))
      (final (process_file whole_env 4 (first_packet whole_env small_request) start)).sent
unfolding process_file child_loop child_step create_udp_socket open_socket receive_initial_pdu
    send_server_response open_output manage_incoming_data initialize_buffer setup_poll_set s_calloc
    add_to_poll_set store_fd malloc receive_loop safe_recvfrom handle_pdu accept_pdu parse_pdu
    seq_num_of flag_of payload_of note_eof buffer_management dispatch inorder_function increment
    past_eof write_to write_in_turn write send_rr send_eof_ack safe_sendto create_pdu
    format_receiver_ready_pdu free_slot slot_at continuously_send_eof_ack eof_ack_loop c_string
child_acknowledges = (3, refl)

process_file_complete_example :
    (final (process_file whole_env 4 (first_packet whole_env small_request) start)).file
    ≡ 72 ∷ 105 ∷ 33 ∷ []
unfolding flag_of
process_file_complete_example =
    process_file_complete whole_env small_request small_request-Serves sample 4 start
      (eof_ack_pdu internet_checksum (pos 3)) whole_env-DeliversFrom (omega arith) refl refl
      child_acknowledges refl
