-- ===== src/Receiver/Slots.antt =====
-- `struct SR_buffer` and the functions on an array of them: `initializeBuffer`, `checkIfBuffered`,
-- `storePacketInBuffer` (bufferMngment.c), and the two lines that free a slot.
use selective_reject.Base.{
  ℕ, Option, none, some, List, ◌&&◌, Bool, ◌==◌, if◌then◌else◌, leb, length, get_elem?, set,
  replicate, copy_at, ℤ, pos, index, ◌==ℤ◌,
}
use selective_reject.Machine.{Env, M, malloc, ◌>>◌, pure}

-- `buff` is an array of MAXBUF bytes, of which a stored packet fills the first `pdu_len`.
pub record Slot : Type 0 where
  pub buff : List ℕ
  pub pdu_len : ℕ
  pub sequence_number : ℤ
  pub valid_flag : ℕ

abbrev pub empty_slot : List ℕ → Slot
empty_slot garbage = record { buff = garbage; pdu_len = 0; sequence_number = pos 0; valid_flag = 0 }

module _ (env : Env) where
  -- The loop gives each of the `window_size` slots the same fields.
  unfoldable pub initialize_buffer : ℕ → M (List Slot)
  initialize_buffer window_size = do
    malloc env
    pure (replicate window_size (empty_slot env.garbage))

-- The slot of a sequence number, with its index; `none` where the index is out of bounds or the
-- division traps.
unfoldable pub slot_at : ℤ → ℕ → List Slot → Option (ℕ × Slot)
slot_at seq_num window_size buffer = elim (index seq_num window_size) [
  | none ↦ none
  | some i ↦ elim (get_elem? buffer i) [ none ↦ none | some s ↦ some (i, s) ]
]

-- The test `checkIfBuffered(...) == 1`.
unfoldable pub check_if_buffered : ℤ → ℕ → List Slot → Option Bool
check_if_buffered seq_num window_size buffer = elim (slot_at seq_num window_size buffer) [
  | none ↦ none
  | some (i, s) ↦ some (s.valid_flag == 1 && s.sequence_number ==ℤ seq_num)
]

-- A payload that is longer than the slot's array would run over its end.
unfoldable pub store_packet_in_buffer : List Slot → ℤ → List ℕ → ℕ → Option (List Slot)
store_packet_in_buffer buffer seq_num payload window_size =
    elim (slot_at seq_num window_size buffer) [
      | none ↦ none
      | some (i, s) ↦
          if leb (length payload) (length s.buff)
          then some (
              set buffer i (record {
                buff = copy_at s.buff 0 payload;
                pdu_len = length payload;
                sequence_number = seq_num;
                valid_flag = 1;
              }))
          else none
    ]

-- `buffer[seqNum % window_size].validFlag = 0`
unfoldable pub free_slot : ℤ → ℕ → List Slot → Option (List Slot)
free_slot seq_num window_size buffer = elim (slot_at seq_num window_size buffer) [
  | none ↦ none
  | some (i, s) ↦ some (set buffer i (record s { valid_flag = 0 }))
]
