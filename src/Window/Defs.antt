-- ===== src/Window/Defs.antt =====
-- The functions of windowing.c on the window. A slot of its buffer is a `struct SR_buffer`
-- (bufferMngment.h). `none` stands for undefined behaviour.
use selective_reject.Base.{
  ℕ, zero, suc, ◌+◌, ◌-◌, Option, none, some, Bool, true, false, ◌&&◌, not, List, length, take, set,
  leb, ltb, ◌==◌, if◌then◌else◌, copy_at, ℤ, pos, ◌==ℤ◌, signed32, int_max,
}
use selective_reject.Machine.{Env, M, ◌>>=◌, pure, defined, safe_sendto}
use selective_reject.Pdu.Build.{acked_num_of}
use selective_reject.Receiver.Slots.{Slot, slot_at}

-- The static variables, and the buffer that rcopy passes along. Both numbers are `int`s that start at
-- 1 and 0 and are only incremented.
pub record Window : Type 0 where
  pub lower : ℕ
  pub sequence_num : ℕ
  pub buffer : List Slot

-- `lower + window_size` is an `int`.
unfoldable pub check_window_open : Window → ℕ → ℕ → Option Bool
check_window_open win next_seq_num window_size =
    if leb (win.lower + window_size) int_max
    then some (ltb next_seq_num (win.lower + window_size))
    else none

-- `windowStorePacket`: the packet goes to the slot of its number, not yet acknowledged.
unfoldable pub window_store_packet : Window → ℕ → List ℕ → ℕ → Option Window
window_store_packet win sn pdu window_size = elim (slot_at (pos sn) window_size win.buffer) [
  | none ↦ none
  | some (i, s) ↦
      if leb (length pdu) (length s.buff)
      then some (record win {
        buffer = set win.buffer i (record {
          buff = copy_at s.buff 0 pdu;
          pdu_len = length pdu;
          sequence_number = pos sn;
          valid_flag = 0;
        });
      })
      else none
]

-- `getNextSeqNum`: the new number is `sequence_num` of the result.
unfoldable pub get_next_seq_num : Window → Option Window
get_next_seq_num win =
    if ltb win.sequence_num int_max
    then some (record win { sequence_num = win.sequence_num + 1 })
    else none

-- `getPacketToResend`: `some none` is the result -1, for a slot that holds another number.
unfoldable pub get_packet_to_resend : Window → ℤ → ℕ → Option (Option (List ℕ))
get_packet_to_resend win resend_seq_num window_size =
    elim (slot_at resend_seq_num window_size win.buffer) [
      | none ↦ none
      | some (i, s) ↦
          if not (s.sequence_number ==ℤ resend_seq_num)
          then some none
          else some (some (take s.pdu_len s.buff))
    ]

-- `validateBuffer`: marks the packet of a number as acknowledged.
unfoldable pub validate_buffer : List Slot → ℕ → ℕ → Option (List Slot)
validate_buffer buffer seq_num window_size = elim (slot_at (pos seq_num) window_size buffer) [
  | none ↦ none
  | some (i, s) ↦
      if s.sequence_number ==ℤ pos seq_num && s.valid_flag == 0
      then some (set buffer i (record s { valid_flag = 1 }))
      else some buffer
]

-- The loop `while (lower < RR_seq_num)`, for so many rounds. `lower` is converted to unsigned, which
-- changes nothing, as it is not negative; its increment is not defined at INT_MAX.
unfoldable pub validate_loop : ℕ → ℕ → ℕ → ℕ → List Slot → Option (ℕ × List Slot)
validate_loop zero rr_seq_num window_size lower buffer = none
validate_loop (suc rounds) rr_seq_num window_size lower buffer = elim (ltb lower rr_seq_num) [
  | false ↦ some (lower, buffer)
  | true ↦ elim (validate_buffer buffer lower window_size) [
    | none ↦ none
    | some validated ↦ elim (ltb lower int_max) [
      | false ↦ none
      | true ↦ validate_loop rounds rr_seq_num window_size (lower + 1) validated
    ]
  ]
]

-- `processRRpacket` on the packet's bytes. Each round brings `lower` nearer to the number, so the
-- difference and one more rounds are enough.
unfoldable pub process_rr_packet : Window → List ℕ → ℕ → Option Window
process_rr_packet win rr_packet window_size = elim (acked_num_of rr_packet) [
  | none ↦ none
  | some rr_seq_num ↦
      elim (validate_loop (suc (rr_seq_num - win.lower)) rr_seq_num window_size win.lower
        win.buffer) [
          | none ↦ none
          | some (lower, buffer) ↦ some (record win { lower = lower; buffer = buffer })
        ]
]

module _ (env : Env) where
  -- `processSREJpacket`: the packet asked for is sent again, if the buffer has it.
  unfoldable pub process_srej_packet : Window → List ℕ → ℕ → M (Unit {0})
  process_srej_packet win srej_packet window_size = do
    srej_seq_num ← defined (acked_num_of srej_packet)
    resend ← defined (get_packet_to_resend win (signed32 srej_seq_num) window_size)
    elim resend [
      | none ↦ pure tt
      | some pdu ↦ if ltb 0 (length pdu) then safe_sendto env pdu else pure tt
    ]
