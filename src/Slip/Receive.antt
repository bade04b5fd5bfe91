-- ===== src/Slip/Receive.antt =====
-- The receiver's half of main/slip_handle.c: the bytes of one `uart_read_bytes`, the filter for
-- commands, and the state machine that takes frames apart.
use esp32_template.Base.{
  ℕ, ◌+◌, ◌≡◌, ◌≤◌, ◌<◌, ap, arith, Bool, true, false, ◌&&◌, none, some, List, [], ◌∷◌, ◌++◌,
}
use esp32_template.Base.{ltb, leb, ◌==◌, if◌then◌else◌, length, get_or, length-append}
use esp32_template.Crc.{check_crc16}
use esp32_template.Slip.{slip_end, slip_esc, slip_esc_end, slip_esc_esc, slip_max_raw_packet}

pub data RecvState : Type 0 where
  normal escape : RecvState

-- `rx_buffer` is the first `recv_buffer_len` bytes of the receive buffer.
pub record Receiver : Type 0 where
  pub recv_state : RecvState
  pub rx_buffer : List ℕ

-- A packet that is complete is handed to the network interface.
unfoldable pub recv_normal : List ℕ → ℕ → Receiver × List (List ℕ)
recv_normal buf c =
    if c == slip_end
    then (record { recv_state = normal; rx_buffer = [] }, if length buf == 0 then [] else buf ∷ [])
    else if c == slip_esc
    then (record { recv_state = escape; rx_buffer = buf }, [])
    else (record { recv_state = normal; rx_buffer = buf ++ c ∷ [] }, [])

-- Any other byte after an escape drops what has been received.
unfoldable pub recv_escape : List ℕ → ℕ → Receiver × List (List ℕ)
recv_escape buf c =
    if c == slip_esc_end
    then (record { recv_state = normal; rx_buffer = buf ++ slip_end ∷ [] }, [])
    else if c == slip_esc_esc
    then (record { recv_state = normal; rx_buffer = buf ++ slip_esc ∷ [] }, [])
    else (record { recv_state = normal; rx_buffer = [] }, [])

unfoldable pub recv_step : RecvState → List ℕ → ℕ → Receiver × List (List ℕ)
unfolding recv_normal recv_escape
recv_step normal buf c = recv_normal buf c
recv_step escape buf c = recv_escape buf c

-- The loop over the bytes read, with the packets that it hands on, in order
unfoldable pub recv_bytes : Receiver → List ℕ → Receiver × List (List ℕ)
unfolding recv_step
recv_bytes r [] = (r, [])
recv_bytes r (c ∷ rest) =
    let (r', out) = recv_step r.recv_state r.rx_buffer c in
    let (r'', out') = recv_bytes r' rest in (r'', out ++ out')

abbrev pub slip_settings_packet_len : ℕ
slip_settings_packet_len = 104

-- Whether `rx_filter` takes the bytes as a command: "!S", or "!I" with settings whose check value
-- is right.
unfoldable pub rx_filter_takes : List ℕ → Bool
rx_filter_takes bytes =
    let at = λ (i : ℕ). get_or bytes i 0 in
    let command = λ (c : ℕ). (at 0 == b'!') && (at 1 == c) in
    if command b'S' && (length bytes == 2)
    then true
    else if command b'I' && leb slip_settings_packet_len (length bytes)
    then (elim (check_crc16 at slip_settings_packet_len) [ some ok ↦ ok | none ↦ false ])
    else false

-- What one read from the UART does to the receiver
unfoldable pub recv_chunk : Receiver → List ℕ → Receiver × List (List ℕ)
unfolding recv_bytes rx_filter_takes
recv_chunk r chunk =
    if rx_filter_takes chunk
    then (record r { rx_buffer = [] }, [])
    else if ltb (length r.rx_buffer + length chunk) slip_max_raw_packet
    then recv_bytes r chunk
    else (record r { rx_buffer = [] }, [])

-- What one byte adds to the buffer
recv_step-length :
    (s : RecvState) (buf : List ℕ) (c : ℕ) → length (recv_step s buf c).0.rx_buffer ≤ length buf + 1
unfolding recv_step
recv_step-length normal buf c = ground (arith, length-append buf (c ∷ []))
recv_step-length escape buf c =
    ground (arith, length-append buf (slip_end ∷ []), length-append buf (slip_esc ∷ []))

recv_bytes-length :
    (r : Receiver) (bytes : List ℕ)
    → length (recv_bytes r bytes).0.rx_buffer ≤ length r.rx_buffer + length bytes
unfolding recv_bytes
recv_bytes-length r [] = omega arith
recv_bytes-length r (c ∷ rest) = omega (
  arith,
  recv_step-length r.recv_state r.rx_buffer c,
  recv_bytes-length (recv_step r.recv_state r.rx_buffer c).0 rest,
)

-- The receive buffer never overflows. If less than its size is in use before a read, less than
-- its size is in use after it, and so it is after each part of a read that is taken byte by byte.
pub recv_chunk-length :
    (r : Receiver) (chunk : List ℕ)
    → length r.rx_buffer < slip_max_raw_packet
    → (length (recv_chunk r chunk).0.rx_buffer < slip_max_raw_packet)
      × ((a b : List ℕ)
          → chunk ≡ a ++ b
          → length r.rx_buffer + length chunk < slip_max_raw_packet
          → length (recv_bytes r a).0.rx_buffer < slip_max_raw_packet)
unfolding recv_chunk
recv_chunk-length r chunk h = (
  ground (arith, recv_bytes-length r chunk),
  λ a b e fits.
      omega (arith, recv_bytes-length r a, ap (λ (l : List ℕ). length l) e, length-append a b),
)
