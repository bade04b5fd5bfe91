-- ===== src/Modbus/Master.antt =====
-- The Modbus master: the reads, the writes and `modbus_master_execute_request` of main/modbus.c.
-- A local packet holds any bytes at first.
pub mod Reading
pub mod Execute
pub mod Buffer
pub mod RoundTrip
use esp32_template.Base.{
  ℕ, zero, suc, ◌+◌, ◌-◌, ◌*◌, ◌/◌, ◌%◌, ◌^◌, bit_or, Bool, true, false, ◌&&◌, ◌||◌, Option, none,
  some,
}
use esp32_template.Base.{ltb, leb, ◌==◌, not, if◌then◌else◌}
use esp32_template.Base.Bytes.{Bytes, put_u16}
use esp32_template.Base.Int.{ℤ, pos, negsuc, minus, is_negative, is_positive}
use esp32_template.Crc.{modbus_crc16, modbus_crc16_check}
use esp32_template.Modbus.{
  modbus_tcp_header_size, behind, modbus_response_lenght, modbus_tcp_response_lenght,
}
use esp32_template.Modbus.Request.{Pointer, TcpRequest, modbus_make_packet, modbus_make_tcp_packet}
use esp32_template.Modbus.Transaction.{Socket, modbus_tcp_master_packet_transaction}

abbrev pub packet_channel_udp : ℕ
packet_channel_udp = 11

abbrev pub packet_channel_tcp : ℕ
packet_channel_tcp = 12

abbrev pub internal_error : ℤ
internal_error = minus 102

abbrev pub invalid_frame : ℤ
invalid_frame = minus 104

abbrev pub modbus_max_read_bits : ℕ
modbus_max_read_bits = 240

abbrev pub modbus_max_word_num : ℕ
modbus_max_word_num = 112

-- A buffer of 16-bit words, from its first word
abbrev pub Words : Type 0
Words = ℕ → ℕ

abbrev pub set_word : Words → ℕ → ℕ → Words
set_word dest i v k = if k == i then v else dest k

-- The words as the bytes that stand in memory, the low byte first
abbrev pub bytes_of : Words → Bytes
bytes_of w i = if i % 2 == 0 then w (i / 2) % 256 else w (i / 2) / 256 % 256

abbrev pub no_pointer : Pointer
no_pointer = record { null = true; bytes = λ i. 0 }

-- A result, the caller's buffer, and the number of the next transaction
pub record Reply : Type 0 where
  pub res : ℤ
  pub dest : Option Words
  pub transaction_identifier : ℕ

-- The buffer that a function leaves, if it was given one
abbrev pub buffer_of : Words → Option Words → Words
buffer_of old none = old
buffer_of old (some words) = words

abbrev pub framed : ℕ → Bool
framed channel = (channel == packet_channel_tcp) || (channel == packet_channel_udp)

-- The request, by the channel
unfoldable pub make_query : ℕ → ℕ → ℕ → ℕ → ℕ → Pointer → Bytes → ℕ → TcpRequest
unfolding modbus_make_packet modbus_make_tcp_packet
make_query channel slave function start_addr count data_to_write packet transaction_identifier =
    let alone : ℤ × Option Bytes → TcpRequest = λ r. record {
      byte = r.0;
      packet = elim r.1 [ none ↦ packet | some made ↦ made ];
      transaction_identifier = transaction_identifier;
    } in
    if framed channel
    then modbus_make_tcp_packet slave function start_addr count data_to_write packet
        transaction_identifier
    else alone (modbus_make_packet slave function start_addr count data_to_write (some packet))

-- The length that the answer should have, by the channel
abbrev pub expected : ℕ → ℕ → ℕ → ℤ
expected channel function count =
    if framed channel
    then modbus_tcp_response_lenght function count
    else modbus_response_lenght function count

abbrev pub fits_packet : ℤ → Bool
fits_packet (pos n) = ltb 2 n && leb n 256
fits_packet (negsuc n) = false

abbrev pub as_length : ℤ → ℕ
as_length (pos n) = n
as_length (negsuc n) = 0

-- What the first byte of the answer proper is, and its crc, which a packet with a header lacks
unfoldable pub body_of : ℕ → ℕ → Bytes → Bytes
body_of channel response_length packet =
    if framed channel
    then (let n = response_length - modbus_tcp_header_size in
        behind modbus_tcp_header_size
          (put_u16 packet response_length (modbus_crc16 (behind modbus_tcp_header_size packet) n)))
    else packet

-- The common frame of the five functions: the request, the checks of both lengths, the transaction,
-- and what is done with an answer of at least `shortest` bytes.
unfoldable pub transact :
    ℕ → ℕ → TcpRequest → ℤ → Socket → Option Words → (ℕ → Bytes → ℤ × Option Words) → Reply
transact channel shortest query response_length socket dest process =
    let reply : ℤ × Option Words → Reply = λ r. record {
      res = r.0;
      dest = r.1;
      transaction_identifier = query.transaction_identifier;
    } in
    let (len, packet) =
      modbus_tcp_master_packet_transaction query.packet (as_length query.byte % 2 ^ 16) socket in
    if not (is_positive query.byte) || not (fits_packet response_length)
    then reply (internal_error, dest)
    else if is_negative len || ltb (as_length len) shortest
    then reply (invalid_frame, dest)
    else reply (process (as_length len) (body_of channel (as_length len) packet))

-- The bits of one byte, while bits are wanted: the buffer, `coils_processed` and `dest_pos`
unfoldable pub unpack_byte : ℕ → ℕ → ℕ → ℕ → Words → ℕ → ℕ → Words × ℕ × ℕ
unpack_byte temp count zero bit dest coils_processed dest_pos = (dest, coils_processed, dest_pos)
unpack_byte temp count (suc left) bit dest coils_processed dest_pos =
    let dest' = set_word dest dest_pos (if temp / 2 ^ bit % 2 == 1 then 1 else 0) in
    let rest = unpack_byte temp count left (bit + 1) dest' (coils_processed + 1) (dest_pos + 1) in
    if ltb coils_processed count then rest else (dest, coils_processed, dest_pos)

-- The bytes `i` and up of the answer
unfoldable pub unpack_loop : Bytes → ℕ → ℕ → ℕ → Words → ℕ → ℕ → Words
unfolding unpack_byte
unpack_loop body count zero i dest coils_processed dest_pos = dest
unpack_loop body count (suc left) i dest coils_processed dest_pos =
    let (dest', coils_processed', dest_pos') =
      unpack_byte (body (3 + i)) count 8 0 dest coils_processed dest_pos in
    unpack_loop body count left (i + 1) dest' coils_processed' dest_pos'

abbrev pub least : ℕ → ℕ → ℕ
least a b = if ltb a b then a else b

unfoldable pub process_bits : ℕ → ℕ → ℕ → Option Words → ℕ → Bytes → ℤ × Option Words
unfolding unpack_loop modbus_crc16_check
process_bits slave count dest_size dest response_length body =
    if not (body 2 == (count + 7) / 8) || not (body 0 == slave)
    then (pos 0, dest)
    else if not (modbus_crc16_check body (body 2 + 3 + 2))
    then (invalid_frame, dest)
    else (
      pos response_length,
      elim dest [
        | none ↦ none
        | some words ↦ some (unpack_loop body count (least (body 2) dest_size) 0 words 0 0)
      ],
    )

-- `dest[i]` and up from the answer's words, the high byte first
unfoldable pub words_loop : Bytes → ℕ → ℕ → Words → Words
words_loop body zero i dest = dest
words_loop body (suc left) i dest =
    words_loop body left (i + 1)
      (set_word dest i (bit_or (body (3 + i * 2) * 256 % 2 ^ 16) (body (4 + i * 2))))

unfoldable pub process_words : ℕ → ℕ → ℕ → Option Words → ℕ → Bytes → ℤ × Option Words
unfolding words_loop modbus_crc16_check
process_words slave count dest_size dest response_length body =
    let good = modbus_crc16_check body (body 2 + 3 + 2) in
    if not (body 2 == 2 * count) || not (body 0 == slave) then (pos 0, dest) else elim dest [
      | none ↦ (pos response_length, none)
      | some words ↦
          if good
          then (pos response_length, some (words_loop body (least (count % 256) dest_size) 0 words))
          else (invalid_frame, some words)
    ]

-- The answer to the write of one item has a crc and comes from the slave.
abbrev pub acknowledges : ℕ → ℕ → Bytes → ℤ × Option Words
acknowledges slave response_length body =
    if not (modbus_crc16_check body 8) || not (body 0 == slave)
    then (pos 0, none)
    else (pos response_length, none)

-- The answer to a write of several items repeats the first address and their number.
abbrev pub repeats : ℕ → ℕ → ℕ → ℕ → ℕ → Bytes → ℤ × Option Words
repeats function slave start_addr count response_length body =
    if not (body 0 == slave)
      || not (body 1 == function)
      || not (body 2 == start_addr / 256 % 256)
      || not (body 3 == start_addr % 256)
      || not (body 4 == 0)
      || not (body 5 == count)
    then (pos 0, none)
    else (pos response_length, none)

-- The packet, its channel, the socket and the number of this transaction are common to all.
module _ (packet : Bytes) (channel : ℕ) (socket : Socket) (transaction_identifier : ℕ) where
  unfoldable pub modbus_master_read_bits : ℕ → ℕ → ℕ → ℕ → Option Words → ℕ → Reply
  modbus_master_read_bits function slave start_addr count dest dest_size =
      transact channel 6
        (make_query channel slave function start_addr count no_pointer packet
          transaction_identifier)
        (expected channel function count) socket dest (process_bits slave count dest_size dest)

  unfoldable pub modbus_master_read_registers : ℕ → ℕ → ℕ → ℕ → Option Words → ℕ → Reply
  modbus_master_read_registers function slave start_addr count dest dest_size =
      transact channel 6
        (make_query channel slave function start_addr count no_pointer packet
          transaction_identifier)
        (expected channel function count) socket dest (process_words slave count dest_size dest)

  unfoldable pub modbus_master_set_single : ℕ → ℕ → ℕ → ℕ → Reply
  modbus_master_set_single function slave start_addr value =
      let from : Pointer = record { null = false; bytes = bytes_of (λ i. value) } in
      transact channel 6
        (make_query channel slave function start_addr 1 from packet transaction_identifier)
        (expected channel function 1) socket none (acknowledges slave)

  unfoldable pub modbus_master_write_output_bits : ℕ → ℕ → ℕ → Words → ℕ → Reply
  modbus_master_write_output_bits function slave start_addr data_words coil_count =
      let count =
        if ltb modbus_max_read_bits coil_count then modbus_max_read_bits else coil_count in
      let from : Pointer = record { null = false; bytes = bytes_of data_words } in
      transact channel 6
        (make_query channel slave function start_addr count from packet transaction_identifier)
        (expected channel function count) socket none (repeats function slave start_addr count)

  unfoldable pub modbus_master_write_output_words : ℕ → ℕ → ℕ → Words → ℕ → Reply
  modbus_master_write_output_words function slave start_addr data_words reg_numm =
      let count = if ltb modbus_max_word_num reg_numm then modbus_max_word_num else reg_numm in
      let from : Pointer = record { null = false; bytes = bytes_of data_words } in
      transact channel 8
        (make_query channel slave function start_addr count from packet transaction_identifier)
        (expected channel function count) socket none (repeats function slave start_addr count)
