-- ===== src/Modbus/Request.antt =====
-- Requests that the master makes: `modbus_make_packet` and `modbus_make_tcp_packet` of main/modbus.c.
pub mod Accepted
use esp32_template.Base.{
  ℕ, zero, suc, ◌+◌, ◌-◌, ◌*◌, ◌/◌, ◌%◌, ◌^◌, bit_and, Bool, true, false, ◌&&◌, ◌||◌, Option, none,
  some,
}
use esp32_template.Base.{ltb, leb, ◌==◌, not, if◌then◌else◌}
use esp32_template.Base.Bytes.{Bytes, load, store, put_u16}
use esp32_template.Base.Int.{ℤ, pos, negsuc, minus}
use esp32_template.Crc.{modbus_crc16}
use esp32_template.Modbus.{modbus_tcp_header_size, put_u8, htons_buff, behind, put_behind}
use esp32_template.Modbus.Server.{put_bit}

-- A `u8 *`: whether it is NULL, and the bytes that stand there
pub record Pointer : Type 0 where
  pub null : Bool
  pub bytes : Bytes

-- A 16-bit value, the high byte first
abbrev pub put_be16 : Bytes → ℕ → ℕ → Bytes
put_be16 m a v = put_u8 (put_u8 m a (v / 256)) (a + 1) v

-- The bits `i` and up of the request of function 15, one byte of data for each
unfoldable pub pack_bits_loop : Bytes → ℕ → ℕ → Bytes → Bytes
unfolding put_bit
pack_bits_loop bits zero i packet = packet
pack_bits_loop bits (suc left) i packet =
    pack_bits_loop bits left (i + 1) (put_bit packet (7 + i / 8) (i % 8) (bit_and (bits i) 1 == 1))

-- The address, the function and the first word of a request
unfoldable pub request_head : ℕ → ℕ → ℕ → Bytes → Bytes
request_head slave_address function start_addr packet =
    put_be16 (put_u8 (put_u8 packet 0 slave_address) 1 function) 2 start_addr

-- What follows the first four bytes: the length so far, -1 for a request that is not made
-- Function 5 reads its data without asking whether it is NULL.
unfoldable pub request_body : ℕ → ℕ → Pointer → Bytes → ℤ × Bytes
unfolding pack_bits_loop htons_buff load store
request_body function reg_num data_to_write packet =
    let counted = put_be16 packet 4 reg_num in
    let from = data_to_write.bytes in
    if (function == 3) || (function == 4) || (function == 1) || (function == 2)
    then (pos 6, counted)
    else if (function == 16) && leb reg_num 127
    then (let n = reg_num * 2 % 256 in
        if data_to_write.null then (minus 1, packet) else (
          pos (7 + n),
          htons_buff (store (put_u8 counted 6 n) 7 (load from 0 n)) 7 (reg_num % 256),
        ))
    else if (function == 15) && leb reg_num 254
    then (let byte_count = (reg_num + 7) / 8 % 256 in
        if data_to_write.null
        then (minus 1, packet)
        else (pos (7 + byte_count), pack_bits_loop from reg_num 0 (put_u8 counted 6 byte_count)))
    else if function == 6
    then (if data_to_write.null
        then (minus 1, packet)
        else (pos 6, put_u8 (put_u8 packet 4 (from 1)) 5 (from 0)))
    else if function == 5
    then (pos 6, put_be16 packet 4 (if bit_and (from 0) 1 == 1 then 0xff00 else 0))
    else (minus 1, packet)

-- A request that was made gets its crc.
unfoldable pub request_crc : ℤ × Bytes → ℤ × Bytes
request_crc (pos byte, packet) =
    if ltb 0 byte
    then (pos (byte + 2), put_u16 packet byte (modbus_crc16 packet (byte % 2 ^ 16)))
    else (pos byte, packet)
request_crc (negsuc n, packet) = (negsuc n, packet)

-- The length, and the packet; -1 and nothing for a NULL packet
unfoldable pub modbus_make_packet : ℕ → ℕ → ℕ → ℕ → Pointer → Option Bytes → ℤ × Option Bytes
unfolding request_head request_body request_crc
modbus_make_packet slave_address function start_addr reg_num data_to_write none = (minus 1, none)
modbus_make_packet slave_address function start_addr reg_num data_to_write (some packet) =
    let head = request_head slave_address function start_addr packet in
    let (byte, made) = request_crc (request_body function reg_num data_to_write head) in
    (byte, some made)

-- The static transaction number, the packet and its length
pub record TcpRequest : Type 0 where
  pub byte : ℤ
  pub packet : Bytes
  pub transaction_identifier : ℕ

-- The length replaces the crc, and the next request has the next number.
unfoldable pub tcp_request : ℤ → Bytes → ℕ → TcpRequest
tcp_request (pos byte) packet transaction_identifier =
    if ltb 2 byte
    then record {
      byte = pos (byte - 2 + modbus_tcp_header_size);
      packet = put_u8 (put_u8 packet 4 ((byte - 2) / 256)) 5 (byte - 2);
      transaction_identifier = (transaction_identifier + 1) % 2 ^ 16;
    }
    else record {
      byte = pos byte;
      packet = packet;
      transaction_identifier = transaction_identifier;
    }
tcp_request (negsuc n) packet transaction_identifier = record {
  byte = negsuc n;
  packet = packet;
  transaction_identifier = transaction_identifier;
}

unfoldable pub modbus_make_tcp_packet : ℕ → ℕ → ℕ → ℕ → Pointer → Bytes → ℕ → TcpRequest
unfolding tcp_request request_head request_body request_crc
modbus_make_tcp_packet slave_address function start_addr reg_num data_to_write packet
      transaction_identifier =
    let p = put_u8 (put_be16 packet 0 transaction_identifier) 2 0 in
    let p' = put_u8 p 3 0 in
    let inner = request_head slave_address function start_addr (behind modbus_tcp_header_size p') in
    let (byte, made) = request_crc (request_body function reg_num data_to_write inner) in
    tcp_request byte (put_behind modbus_tcp_header_size p' made) transaction_identifier
