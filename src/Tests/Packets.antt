-- ===== src/Tests/Packets.antt =====
-- Check values and frames: main/crc.c, the crc of main/modbus.c, and main/slip_handle.c.
use mathlib.Core.List.{flatten}
use esp32_template.Base.{
  ℕ, ◌+◌, ◌<◌, ◌≡◌, ◌↔◌, refl, arith, true, false, some, List, [], ◌∷◌, ◌++◌, ◌==◌, if◌then◌else◌,
  length,
}
use esp32_template.Base.Bytes.{Bytes, IsBytes, upd, put_u16}
use esp32_template.Crc.{
  modbus_crc16_byte, modbus_crc16_bit, modbus_crc16, modbus_crc16_check, calc_crc16, check_crc16,
  calc_summ16, check_summ16, calc_summ8, check_summ8,
}
use esp32_template.Crc.Detect.{DifferAt}
use esp32_template.Crc.Frames.{modbus_crc16_check-detects, modbus_crc16_check-residue, check-calc}
use esp32_template.Slip.{slip_frame, frame_chain, frame_payload, escape, slip_max_raw_packet}
use esp32_template.Slip.Codec.{receiving, delivered, recv_chunk-slip_frame}
use esp32_template.Slip.Receive.{recv_bytes, recv_chunk, recv_chunk-length}

-- The request to read one word at address 0 from the slave 1, with its crc
abbrev request : Bytes
request i =
    if i == 0
    then 1
    else if i == 1
    then 3
    else if i == 5
    then 1
    else if i == 6
    then 0x84
    else if i == 7
    then 0x0A
    else 0

request-IsBytes : IsBytes request
request-IsBytes i = ground arith

request_passes : modbus_crc16_check request 8 ≡ true
unfolding modbus_crc16_check modbus_crc16 modbus_crc16_byte modbus_crc16_bit
request_passes = refl

request_crc : modbus_crc16 request 6 ≡ 0x0A84
unfolding modbus_crc16 modbus_crc16_byte modbus_crc16_bit
request_crc = refl

corrupted : DifferAt request (upd request 5 2) 5
corrupted = record {
  bytes = request-IsBytes;
  bytes' = λ i. ground arith;
  differ = omega arith;
  same = λ i ne. ground arith;
}

modbus_crc16_check-detects_example : modbus_crc16_check (upd request 5 2) 8 ≡ false
modbus_crc16_check-detects_example =
    modbus_crc16_check-detects request (upd request 5 2) 5 8 corrupted (omega arith) (omega arith)
      (omega arith) request_passes

modbus_crc16_check-residue_example :
    (modbus_crc16_check request 8 ≡ true) ↔ (modbus_crc16 request 8 ≡ 0)
modbus_crc16_check-residue_example =
    modbus_crc16_check-residue request 8 request-IsBytes (omega arith) (omega arith)

check-calc_example :
    (check_crc16 (put_u16 request 6 (calc_crc16 request 6)) (6 + 2) ≡ some true)
    × (check_summ16 (put_u16 request 6 (calc_summ16 request 6)) (6 + 2) ≡ some true)
    × (check_summ8 (upd request 6 (calc_summ8 request 6)) (6 + 1) ≡ some true)
check-calc_example = check-calc request 6 request-IsBytes (omega arith)

-- The request with a CCITT check value behind it
abbrev framed : Bytes
framed = put_u16 request 6 (calc_crc16 request 6)

framed_corrupted : DifferAt framed (upd framed 2 9) 2
framed_corrupted = record {
  bytes = λ i. ground arith;
  bytes' = λ i. ground arith;
  differ = omega arith;
  same = λ i ne. ground arith;
}

abbrev a_packet : List (List ℕ)
a_packet = (0x45 ∷ 0xC0 ∷ []) ∷ (0xDB ∷ []) ∷ []

a_packet_short : length (slip_frame a_packet) < 664
unfolding slip_frame frame_chain frame_payload escape
a_packet_short = omega arith

recv_chunk-slip_frame_example :
    recv_chunk (receiving []) (slip_frame a_packet) ≡ (receiving [], delivered (flatten a_packet))
recv_chunk-slip_frame_example = recv_chunk-slip_frame a_packet a_packet_short

-- The packet's bytes, in one piece
a_packet_joined : flatten a_packet ≡ 0x45 ∷ 0xC0 ∷ 0xDB ∷ []
unfolding flatten
a_packet_joined = refl

abbrev two_bytes : List ℕ
two_bytes = 1 ∷ 2 ∷ []

recv_chunk-length_example :
    (length (recv_chunk (receiving []) two_bytes).0.rx_buffer < slip_max_raw_packet)
    × ((a b : List ℕ)
        → two_bytes ≡ a ++ b
        → length (receiving []).rx_buffer + length two_bytes < slip_max_raw_packet
        → length (recv_bytes (receiving []) a).0.rx_buffer < slip_max_raw_packet)
recv_chunk-length_example = recv_chunk-length (receiving []) two_bytes (omega arith)
