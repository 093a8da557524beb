-- ===== src/Window/Tests.antt =====
-- Runs of the window's theorems (windowing.c).
use selective_reject.Base.{
  ℕ, ◌≡◌, refl, arith, true, some, List, [], ◌∷◌, replicate, be32, pos, ◌++◌,
}
use selective_reject.Machine.{safe_sendto}
use selective_reject.Pdu.Build.{acked_num_of}
use selective_reject.Receiver.Example.{sample_env, start}
use selective_reject.Window.Defs.{
  Window, check_window_open, window_store_packet, get_packet_to_resend, process_rr_packet,
  process_srej_packet,
}
use selective_reject.Window.Holds.{
  Holds, window_store_packet-Holds, get_packet_to_resend-Holds, process_srej_packet-Holds,
}
use selective_reject.Window.Acks.{process_rr_packet-Holds}
use selective_reject.Window.Example.{packets_sent, one_sent, one_sent-Holds}

abbrev rr_2 : List ℕ
rr_2 = replicate 7 0 ++ be32 2

abbrev srej_1 : List ℕ
srej_1 = replicate 7 0 ++ be32 1

window_is_open : check_window_open one_sent 2 2 ≡ some true
unfolding check_window_open
window_is_open = refl

rr_2_asks : acked_num_of rr_2 ≡ some 2
unfolding acked_num_of
rr_2_asks = refl

srej_1_asks : acked_num_of srej_1 ≡ some 1
unfolding acked_num_of
srej_1_asks = refl

window_store_packet-Holds_example :
    (after : Window) × (window_store_packet one_sent 2 (2 ∷ 2 ∷ 2 ∷ []) 2 ≡ some after)
    × Holds packets_sent 2 after.lower 2 after.buffer
    × (after.lower ≡ 1)
    × (after.sequence_num ≡ 2)
window_store_packet-Holds_example =
    window_store_packet-Holds (omega arith) one_sent 1 one_sent-Holds (omega arith) window_is_open
      (omega arith)

get_packet_to_resend-Holds_example :
    get_packet_to_resend one_sent (pos 1) 2 ≡ some (some (1 ∷ 1 ∷ 1 ∷ []))
get_packet_to_resend-Holds_example =
    get_packet_to_resend-Holds (omega arith) one_sent 1 1 one_sent-Holds (omega arith) (omega arith)

process_rr_packet-Holds_example :
    (after : Window) × (process_rr_packet one_sent rr_2 2 ≡ some after)
    × (after.lower ≡ 2)
    × (after.sequence_num ≡ 2)
    × Holds packets_sent 2 after.lower 1 after.buffer
process_rr_packet-Holds_example =
    process_rr_packet-Holds (omega arith) one_sent 1 2 rr_2 rr_2_asks (omega arith) one_sent-Holds

process_srej_packet-Holds_example :
    process_srej_packet sample_env one_sent srej_1 2 start
    ≡ safe_sendto sample_env (1 ∷ 1 ∷ 1 ∷ []) start
process_srej_packet-Holds_example =
    process_srej_packet-Holds (omega arith) sample_env one_sent 1 1 srej_1 start srej_1_asks
      (omega arith) one_sent-Holds (omega arith) (omega arith) (omega arith)
