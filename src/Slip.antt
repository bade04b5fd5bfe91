-- ===== src/Slip.antt =====
-- SLIP framing, main/slip_handle.c: the sender's framing of a packet, the queue of frames that
-- wait for the UART, and the receiver's state machine.
pub mod Receive
pub mod Codec
pub mod Queue
pub mod Drain
use esp32_template.Base.{
  ℕ, zero, suc, ◌+◌, ◌-◌, ◌*◌, ◌%◌, ◌^◌, ◌≡◌, Bool, true, false, ◌&&◌, ◌||◌, Option, none, some,
  List, [], ◌∷◌, ◌++◌,
}
use esp32_template.Base.{ltb, leb, ◌==◌, if◌then◌else◌, length, get_or, set}
use esp32_template.Base.Bytes.{Bytes, load, store}
use esp32_template.Base.Int.{ℤ, pos, minus}

abbrev pub slip_end : ℕ
slip_end = 0xC0

abbrev pub slip_esc : ℕ
slip_esc = 0xDB

abbrev pub slip_esc_end : ℕ
slip_esc_end = 0xDC

abbrev pub slip_esc_esc : ℕ
slip_esc_esc = 0xDD

abbrev pub wifi_slip_max_ip_packet : ℕ
wifi_slip_max_ip_packet = 664

abbrev pub slip_max_raw_packet : ℕ
slip_max_raw_packet = 1328

-- The bytes that stand for `c` inside a frame
unfoldable pub escape : ℕ → List ℕ
escape c =
    if c == slip_end
    then slip_esc ∷ slip_esc_end ∷ []
    else if c == slip_esc
    then slip_esc ∷ slip_esc_esc ∷ []
    else c ∷ []

-- The loop over one buffer of the packet; `out` is what `transmit_temp_buff` holds so far. The
-- loop ends early when fewer than three places are left.
unfoldable pub frame_payload : List ℕ → List ℕ → List ℕ
unfolding escape
frame_payload [] out = out
frame_payload (c ∷ payload) out =
    let rest = frame_payload payload (out ++ escape c) in
    if ltb (length out) (slip_max_raw_packet - 3) then rest else out

-- The loop over the chain of buffers that makes up a packet
unfoldable pub frame_chain : List (List ℕ) → List ℕ → List ℕ
unfolding frame_payload
frame_chain [] out = out
frame_chain (q ∷ chain) out = frame_chain chain (frame_payload q out)

unfoldable pub slip_frame : List (List ℕ) → List ℕ
unfolding frame_chain
slip_frame p = frame_chain p (slip_end ∷ []) ++ slip_end ∷ []

-- `flow_control_memory_t`: a slot is free while its length is 0.
pub record Slot : Type 0 where
  pub packet : Bytes
  pub len : ℕ

-- The slots, and the queue of the slots that wait for the UART
pub record FlowControl : Type 0 where
  pub slots : List Slot
  pub queue : List ℕ

-- All slots are looked at; the last free one is taken.
unfoldable pub last_free : List Slot → ℕ → Option ℕ → Option ℕ
last_free [] i found = found
last_free (s ∷ slots) i found = last_free slots (i + 1) (if s.len == 0 then some i else found)

unfoldable pub slip_get_buffer : FlowControl → Option ℕ
unfolding last_free
slip_get_buffer f = last_free f.slots 0 none

-- What stands where no slot is
abbrev pub no_slot : Slot
no_slot = record { packet = λ i. 0; len = 0 }

abbrev pub slot_at : List Slot → ℕ → Slot
slot_at slots i = get_or slots i no_slot

-- A slot with `len` bytes of the buffer copied to its front
abbrev pub fill : Slot → Bytes → ℕ → Slot
fill slot buffer len = record { packet = store slot.packet 0 (load buffer 0 len); len = len }

unfoldable pub slip_fill_buffer : FlowControl → Option ℕ → Bytes → ℕ → ℤ × FlowControl
slip_fill_buffer f none buffer len = (minus 1, f)
slip_fill_buffer f (some i) buffer len =
    if ltb len wifi_slip_max_ip_packet
    then (pos 0, record f { slots = set f.slots i (fill (slot_at f.slots i) buffer len) })
    else (minus 1, f)

-- A slot's length is set to 0 again.
unfoldable pub release : FlowControl → ℕ → FlowControl
release f i = record f {
  slots = set f.slots i (record { packet = (slot_at f.slots i).packet; len = 0 });
}

-- `accepted` is what `queue_send` answers; an accepted message stands at the end of the queue.
unfoldable pub enqueue : FlowControl → ℕ → Bool → ℤ × FlowControl
unfolding release
enqueue f i true = (pos 0, record f { queue = f.queue ++ i ∷ [] })
enqueue f i false = (minus 1, release f i)

-- ESP_OK is 0, ESP_FAIL is -1.
unfoldable pub slip_add_to_send_queue : FlowControl → Bytes → ℕ → Bool → ℤ × FlowControl
slip_add_to_send_queue f buffer len accepted =
    if ltb len wifi_slip_max_ip_packet
    then (elim (slip_get_buffer f) [
      | none ↦ (pos 0, f)
      | some i ↦ enqueue (slip_fill_buffer f (some i) buffer len).1 i accepted
    ])
    else (pos 0, f)

-- The buffer that holds the bytes
abbrev pub buffer_of : List ℕ → Bytes
buffer_of bytes i = get_or bytes i 0

unfoldable pub slip_modem_transmit : FlowControl → List (List ℕ) → Bool → ℤ × FlowControl
unfolding slip_frame slip_add_to_send_queue
slip_modem_transmit f p accepted =
    slip_add_to_send_queue f (buffer_of (slip_frame p)) (length (slip_frame p) % 2 ^ 16) accepted

unfoldable pub slip_modem_transmit_raw : FlowControl → List ℕ → Bool → ℤ × FlowControl
unfolding slip_add_to_send_queue
slip_modem_transmit_raw f buffer accepted =
    slip_add_to_send_queue f (buffer_of buffer) (length buffer % 2 ^ 16) accepted

-- "?I": the request for the parameters
unfoldable pub slip_handle_request_parameters : FlowControl → Bool → FlowControl
unfolding slip_modem_transmit_raw
slip_handle_request_parameters f accepted =
    (slip_modem_transmit_raw f (slip_end ∷ b'?' ∷ b'I' ∷ slip_end ∷ []) accepted).1

-- One round of `slip_flow_control_task`: as many bytes of the oldest message as its slot's length
-- says go to the UART, and the slot becomes free.
unfoldable pub slip_flow_control_step : FlowControl → List ℕ × FlowControl
unfolding release
slip_flow_control_step f = elim f.queue [
  | [] ↦ ([], f)
  | i ∷ rest ↦
      let s = slot_at f.slots i in
      (if s.len == 0 then [] else load s.packet 0 s.len, release (record f { queue = rest }) i)
]
