-- ===== src/Modbus.antt =====
-- The Modbus packets of main/modbus.c: the checks of requests and replies, exceptions, and the
-- reply lengths. A packet is a buffer indexed from its first byte.
pub mod Server
pub mod Reply
pub mod Holding
pub mod Exchange
pub mod Request
pub mod Transaction
pub mod Master
pub mod Slaves
pub mod Dynamic
use esp32_template.Base.{
  ℕ, zero, suc, ◌+◌, ◌-◌, ◌*◌, ◌/◌, ◌%◌, ◌^◌, bit_or, Bool, true, false, ◌&&◌, ◌||◌,
}
use esp32_template.Base.{ltb, leb, ◌==◌, not, if◌then◌else◌}
use esp32_template.Base.Bytes.{Bytes, upd, put_u16}
use esp32_template.Base.Int.{ℤ, pos, negsuc, minus}
use esp32_template.Crc.{modbus_crc16, modbus_crc16_check}
use esp32_template.Platform.{Platform}

abbrev pub illegal_function : ℕ
illegal_function = 1

abbrev pub illegal_data_address : ℕ
illegal_data_address = 2

abbrev pub illegal_data_value : ℕ
illegal_data_value = 3

abbrev pub modbus_max_modbus_regs_num : ℕ
modbus_max_modbus_regs_num = 125

abbrev pub modbus_max_read_coils : ℕ
modbus_max_read_coils = 2000

abbrev pub modbus_max_write_coils : ℕ
modbus_max_write_coils = 1968

abbrev pub modbus_tcp_header_size : ℕ
modbus_tcp_header_size = 6

-- A byte store; the value is cut to eight bits.
abbrev pub put_u8 : Bytes → ℕ → ℕ → Bytes
put_u8 m a v = upd m a (v % 256)

-- A 16-bit value, the high byte first
abbrev pub get_be16 : Bytes → ℕ → ℕ
get_be16 m a = (m a * 256 + m (a + 1)) % 0x10000

-- The bytes of `word_numm` words are swapped, from `buff` on.
unfoldable pub htons_buff : Bytes → ℕ → ℕ → Bytes
htons_buff m buff zero = m
htons_buff m buff (suc word_numm) =
    htons_buff (upd (upd m buff (m (buff + 1))) (buff + 1) (m buff)) (buff + 2) word_numm

-- The packet behind a header, and the packet put back behind it
abbrev pub behind : ℕ → Bytes → Bytes
behind n pckt i = pckt (n + i)

abbrev pub put_behind : ℕ → Bytes → Bytes → Bytes
put_behind n pckt inner i = if ltb i n then pckt i else inner (i - n)

module _ (pf : Platform) where
  unfoldable pub modbus_packet_for_me : Bytes → Bytes → ℕ → Bool
  modbus_packet_for_me m pckt lenght =
      ltb 0 lenght && ((pckt 0 == m pf.mdb_addr) || (pckt 0 == 255))

  unfoldable pub genenerate_error_packet : Bytes → Bytes → ℕ → Bytes
  genenerate_error_packet m packet error_code =
      let p = put_u8 packet 0 (m pf.mdb_addr) in
      let p' = put_u8 (put_u8 p 1 (bit_or (p 1) 0x80)) 2 error_code in
      put_u16 p' 3 (modbus_crc16 p' 3)

  -- The length and the packet
  unfoldable pub modbus_err_packet_type : Bytes → Bool → Bytes → ℕ → ℕ × Bytes
  unfolding genenerate_error_packet
  modbus_err_packet_type m tcp packet error_code =
      if tcp
      then (
        9,
        put_u8
            (put_u8 (put_behind 6 packet (genenerate_error_packet m (behind 6 packet) error_code)) 4
              0)
            5 3,
      )
      else (5, genenerate_error_packet m packet error_code)

unfoldable pub it_modbus_simply_check : Bytes → ℕ → Bool
unfolding modbus_crc16_check
it_modbus_simply_check pckt length =
    (leb (pckt 1) 16 || (pckt 1 == 0x41)) && modbus_crc16_check pckt length

-- A result of 1 for a packet that is accepted, 0 for one that is refused
abbrev pub checked : Bool → ℤ
checked b = if b then pos 1 else pos 0

unfoldable pub it_modbus_request_check : Bytes → ℕ → ℤ
unfolding it_modbus_simply_check
it_modbus_request_check buff length =
    let command = buff 1 in
    if not (leb length 256)
    then pos 0
    else if leb command 6
    then checked (it_modbus_simply_check buff 8)
    else if (command == 15) || (command == 16)
    then checked (it_modbus_simply_check buff (9 + buff 6))
    else if command == 0x41
    then checked (it_modbus_simply_check buff length)
    else minus 1

unfoldable pub it_modbus_responde_check : Bytes → ℕ → ℤ
unfolding it_modbus_simply_check
it_modbus_responde_check buff length =
    let command = buff 1 in
    let status = get_be16 buff 4 in
    if not (leb length 256)
    then pos 0
    else if leb command 4
    then checked (ltb (buff 2) 251 && it_modbus_simply_check buff (buff 2 + 5))
    else if command == 5
    then checked (((status == 0xff00) || (status == 0)) && it_modbus_simply_check buff 8)
    else if (command == 6) || (command == 15) || (command == 16)
    then checked (it_modbus_simply_check buff 8)
    else if command == 0x41
    then pos 1
    else pos 0

-- The crc that a packet over TCP lacks is put behind it before the check. The packet is no shorter
-- than the header.
unfoldable pub it_modbus_tcp_full_check : Bytes → ℕ → Bool
unfolding it_modbus_request_check
it_modbus_tcp_full_check buff len =
    let n = len - modbus_tcp_header_size in
    let inner = behind modbus_tcp_header_size buff in
    is_one (it_modbus_request_check (put_u16 inner n (modbus_crc16 inner n)) (n + 2))
  where
    is_one : ℤ → Bool
    is_one (pos n) = n == 1
    is_one (negsuc n) = false

unfoldable pub modbus_response_lenght : ℕ → ℕ → ℤ
modbus_response_lenght function items_number =
    if leb function 2
    then pos ((items_number + 7) / 8 + 5)
    else if leb function 4
    then pos (items_number * 2 + 5)
    else if leb function 6 || (function == 15) || (function == 16)
    then pos 8
    else minus 1

-- The crc is left out and the header added.
unfoldable pub modbus_tcp_response_lenght : ℕ → ℕ → ℤ
unfolding modbus_response_lenght
modbus_tcp_response_lenght function items_number =
    with_header (modbus_response_lenght function items_number)
  where
    with_header : ℤ → ℤ
    with_header (pos n) = if ltb 2 n then pos (n - 2 + modbus_tcp_header_size) else pos n
    with_header (negsuc n) = negsuc n
