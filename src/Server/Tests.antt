-- ===== src/Server/Tests.antt =====
-- The theorems about the server and its receiver at a small transfer.
use selective_reject.Base.{
  ℕ, List, some, codes, ◌≡◌, refl, arith, inl, inr, [], ◌∷◌, Bool-cases, ltb, pos, negsuc, some_inj,
}
use selective_reject.Machine.{
  s_calloc, returned, ◌>>◌, pure, malloc, safe_recvfrom, write, safe_sendto, final, Ends, Never,
}
use selective_reject.Pdu.Example.{internet_checksum, internet_checksum-Verifies}
use selective_reject.Pdu.Build.{
  seq_num_of, flag_of, payload_of, create_pdu, format_receiver_ready_pdu, data_pkt,
}
use selective_reject.Poll.Set.{setup_poll_set, add_to_poll_set, store_fd}
use selective_reject.Receiver.Slots.{free_slot, slot_at, initialize_buffer}
use selective_reject.Receiver.Replies.{send_rr, send_eof_ack}
use selective_reject.Receiver.States.{
  continuously_send_eof_ack, eof_ack_loop, dispatch, increment, past_eof, write_to, write_in_turn,
  inorder, ServerStateData, inorder_function, buffering_function, flushing_function, flush_loop,
  buffer_management,
}
use selective_reject.Receiver.Delivered.{Stops, eof_ack_pdu}
use selective_reject.Receiver.InTurn.{Genuine, SoundProgress}
use selective_reject.Receiver.Arrivals.{
  inorder_function-SoundProgress, buffering_function-SoundProgress,
}
use selective_reject.Receiver.Flush.{Flushed, flush_loop-Flushed, flushing_function-SoundProgress}
use selective_reject.Receiver.Manage.{Tracks, buffer_management-Tracks}
use selective_reject.Receiver.Example.{
  length-blank, sample, sample_env, sample_info, sample-Ready, start, start-Delivered, start-Sound,
  empty_buffer, stored_buffer, stored-Sound,
}
use selective_reject.Sender.Steps.{Args, setup_pdu}
use selective_reject.Server.Setup.{receive_initial_pdu, send_server_response, manage_incoming}
use selective_reject.Server.Handshake.{setup_pdu-receive_initial_pdu}
use selective_reject.Server.Receive.{
  receive_loop, handle_pdu, accept_pdu, parse_pdu, note_eof, manage_incoming_data,
}
use selective_reject.Server.Network.{Contains, DeliversFrom, data_packet, data_packet-Genuine}
use selective_reject.Server.Delivery.{manage_incoming_data-Stops}
use selective_reject.Server.Complete.{manage_incoming_data_complete}
use selective_reject.Server.Example.{whole_env, whole_env-Ready, whole_env-DeliversFrom}

second_packet : Genuine sample 1 (pos 2) data_pkt (33 ∷ [])
second_packet =
    data_packet-Genuine internet_checksum sample 1 start (omega arith) start-Delivered 2
      (omega arith) (omega arith)

inorder_function-SoundProgress_example :
    Ends
      (Stops sample internet_checksum)
      Never
      (SoundProgress sample_env sample_info sample 1 (negsuc 0))
      (inorder_function sample_env 1
        (pos 2)
        data_pkt
        (33 ∷ [])
        sample_info
        empty_buffer
        (negsuc 0)
        start)
inorder_function-SoundProgress_example =
    inorder_function-SoundProgress sample_env sample_info sample-Ready sample Never 1 (pos 2)
      data_pkt (33 ∷ []) empty_buffer (negsuc 0) start (λ z. absurd (omega arith)) second_packet
      start-Sound

buffering_function-SoundProgress_example :
    Ends
      (Stops sample internet_checksum)
      Never
      (SoundProgress sample_env sample_info sample 1 (negsuc 0))
      (buffering_function sample_env 1
        (pos 2)
        data_pkt
        (33 ∷ [])
        sample_info
        empty_buffer
        (negsuc 0)
        start)
buffering_function-SoundProgress_example =
    buffering_function-SoundProgress sample_env sample_info sample-Ready sample Never 1 (pos 2)
      data_pkt (33 ∷ []) empty_buffer (negsuc 0) start (λ z. absurd (omega arith)) second_packet
      start-Sound

-- One valid slot, two rounds.
flush_loop-Flushed_example :
    Ends
      (Stops sample internet_checksum)
      Never
      (Flushed sample_env sample_info sample 1)
      (flush_loop sample_env 2 1 sample_info stored_buffer start)
flush_loop-Flushed_example =
    flush_loop-Flushed sample_env sample_info sample-Ready sample 2 1 stored_buffer start
      (omega arith) stored-Sound

flushing_function-SoundProgress_example :
    Ends
      (Stops sample internet_checksum)
      Never
      (SoundProgress sample_env sample_info sample 1 (negsuc 0))
      (flushing_function sample_env 1 sample_info stored_buffer (negsuc 0) start)
flushing_function-SoundProgress_example =
    flushing_function-SoundProgress sample_env sample_info sample-Ready sample 1 stored_buffer
      (negsuc 0) start (λ n z. cc) stored-Sound

abbrev first_tracker : ServerStateData
first_tracker = record {
  state = inorder;
  expected_seq_num = 1;
  eof_seq_num = negsuc 0;
  buffer = empty_buffer;
}

buffer_management-Tracks_example :
    Ends
      (Stops sample internet_checksum)
      (Stops sample internet_checksum)
      (Tracks sample_env sample_info sample)
      (buffer_management sample_env 9 (pos 2) data_pkt (33 ∷ []) sample_info first_tracker start)
buffer_management-Tracks_example =
    buffer_management-Tracks sample_env sample_info sample-Ready sample 9 first_tracker (pos 2)
      data_pkt (33 ∷ []) start (λ z. absurd (omega arith)) second_packet
      (record { sound = start-Sound; over = λ z. cc; known = λ n z. cc })

sample-DeliversFrom : DeliversFrom sample_env sample
sample-DeliversFrom w d got good = elim (Bool-cases (ltb w.clock 4)) [
  | inl early ↦ rw (← some_inj (rw early at got)) (data_packet 2 (omega arith) (omega arith) refl)
  | inr later ↦ rw (← some_inj (rw later at got)) (data_packet 1 (omega arith) (omega arith) refl)
]

manage_incoming_data-Stops_example :
    Ends
      (Stops sample internet_checksum)
      (Stops sample internet_checksum)
      (λ _ v. Stops sample internet_checksum v)
      (manage_incoming_data sample_env 9 3 sample_info start)
manage_incoming_data-Stops_example =
    manage_incoming_data-Stops sample_env sample_info sample-Ready sample 9 3 start (omega arith)
      sample-DeliversFrom (omega arith) refl tt

-- The transfer acknowledges the EOF packet.
whole_env-acknowledges :
    Contains
      (eof_ack_pdu internet_checksum (pos 3))
      (final (manage_incoming_data whole_env 4 3 sample_info start)).sent
unfolding manage_incoming_data initialize_buffer setup_poll_set s_calloc add_to_poll_set store_fd
    malloc receive_loop safe_recvfrom handle_pdu accept_pdu parse_pdu seq_num_of flag_of payload_of
    note_eof buffer_management dispatch inorder_function increment past_eof write_to write_in_turn
    write send_rr send_eof_ack safe_sendto create_pdu format_receiver_ready_pdu free_slot slot_at
    continuously_send_eof_ack eof_ack_loop
whole_env-acknowledges = (2, refl)

manage_incoming_data_complete_example :
    (final (manage_incoming_data whole_env 4 3 sample_info start)).file ≡ 72 ∷ 105 ∷ 33 ∷ []
unfolding flag_of
manage_incoming_data_complete_example =
    manage_incoming_data_complete whole_env sample_info whole_env-Ready sample 4 3 start
      (eof_ack_pdu internet_checksum (pos 3)) whole_env-DeliversFrom (omega arith) refl tt
      whole_env-acknowledges refl

abbrev sample_args : Args
sample_args = record { to_filename = codes "copy"; window_size = 300; buffer_size = 1400 }

setup_pdu-receive_initial_pdu_example :
    (pdu : List ℕ) × (setup_pdu sample_env sample_args start ≡ returned pdu start)
    × (receive_initial_pdu sample_env pdu sample_info start
        ≡ (do
          send_server_response sample_env
          pure
              (manage_incoming, record { window_size = 300; buffer_size = 1400; file_fd = some 5 }))
            (record start { clock = 1; file = [] }))
setup_pdu-receive_initial_pdu_example =
    setup_pdu-receive_initial_pdu sample_env internet_checksum-Verifies length-blank sample_args
      (λ z. cc, (λ z. cc, (λ z. cc, (λ z. cc, tt)))) (omega arith) sample_info start start 5
      (omega arith) (omega arith) refl
