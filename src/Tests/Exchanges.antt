-- ===== src/Tests/Exchanges.antt =====
-- Both sides of a Modbus exchange, the range of a register, and the crc of a mirror: main/modbus.c,
-- main/regs.c and main/mirror_storage.c.
use esp32_template.Base.{
  ◌+◌, ◌-◌, ◌%◌, ◌==◌, ltb, if◌then◌else◌, ◌^◌, inr, ◌<◌, ◌≡◌, refl, arith, inl, true,
}
use esp32_template.Base.Bytes.{Bytes, load, put_u16}
use esp32_template.Base.Int.{pos}
use esp32_template.Crc.{modbus_crc16, calc_crc_for_u32}
use esp32_template.Description.{RegsTemplate, RegsFlag}
use esp32_template.Mirror.{mirror_crc, mirror_recalc_crc, mirror_check_crc, read_value}
use esp32_template.Mirror.Check.{mirror_check_crc-mirror_recalc_crc}
use esp32_template.Modbus.{get_be16, behind, it_modbus_responde_check}
use esp32_template.Modbus.Exchange.{
  it_modbus_responde_check-modbus_rtu_packet, modbus_tcp_packet-modbus_rtu_packet,
}
use esp32_template.Modbus.Server.{modbus_rtu_packet, modbus_tcp_packet}
use esp32_template.Regs.{limit}
use esp32_template.Regs.Limits.{AtMost, maximum, minimum, limit-bounds}
use esp32_template.Tests.Registers.{
  platform, tables, state, memory, state-IsBytes, request, word_register, found_at_102,
}

it_modbus_responde_check-modbus_rtu_packet_example :
    let o = modbus_rtu_packet platform tables (λ i. 0) (request 3 1 2) state in
    it_modbus_responde_check o.pckt o.len_reply ≡ pos 1
it_modbus_responde_check-modbus_rtu_packet_example =
    it_modbus_responde_check-modbus_rtu_packet platform tables (λ i. 0) (request 3 1 2) state
      (λ i. ground arith) state-IsBytes (inl refl) (rw found_at_102 (omega arith)) (omega arith)
      (omega arith)

-- A signed register whose maximum stands at 20 and whose minimum at 10
abbrev limited : RegsTemplate
limited = record {
  desc = record (word_register 100 0 1 0) {
    p_max_value = 20;
    p_min_value = 10;
    type = RegsFlag.s16_regs_flag;
  };
  size_in_bytes = 2;
  table_ind = 0;
}

-- The maximum 5 and the minimum -10
abbrev band : Bytes
band i = if i == 20 then 5 else if i == 10 then 0xf6 else if i == 11 then 0xff else 0

ordered : AtMost platform RegsFlag.s16_regs_flag (minimum band limited 0) (maximum band limited 0)
unfolding read_value load
ordered = inr (omega arith, omega arith)

-- The operand -256
limit-bounds_example :
    let r = limit platform band limited 0 0xff00 in
    AtMost platform RegsFlag.s16_regs_flag r (maximum band limited 0)
    × AtMost platform RegsFlag.s16_regs_flag (minimum band limited 0) r
    × (AtMost platform RegsFlag.s16_regs_flag 0xff00 (maximum band limited 0)
        → AtMost platform RegsFlag.s16_regs_flag (minimum band limited 0) 0xff00
        → r ≡ 0xff00)
limit-bounds_example =
    limit-bounds platform (λ x. ground arith) (λ x. ground arith) band limited 0 0xff00
      (λ i. ground arith) (omega arith) (omega arith) (omega arith) ordered

small_crc : mirror_crc platform tables memory 500 12 < 2 ^ 32
unfolding mirror_crc calc_crc_for_u32
small_crc = omega arith

mirror_check_crc-mirror_recalc_crc_example :
    mirror_check_crc platform tables (mirror_recalc_crc platform tables memory 500 12) 500 12 ≡ true
mirror_check_crc-mirror_recalc_crc_example =
    mirror_check_crc-mirror_recalc_crc platform tables memory 500 12 (omega arith) (omega arith)
      small_crc

-- The request behind the header of Modbus TCP
abbrev tcp_bytes : Bytes
tcp_bytes i = if ltb i 6 then i else request 3 1 2 (i - 6)

modbus_tcp_packet-modbus_rtu_packet_example :
    let inner = behind 6 tcp_bytes in
    let rtu = put_u16 inner (12 - 6) (modbus_crc16 inner (12 - 6)) in
    let o = modbus_rtu_packet platform tables (λ i. 0) rtu state in
    let r = modbus_tcp_packet platform tables (λ i. 0) tcp_bytes 12 state in
    r.len_reply ≡ o.len_reply + 4
    × get_be16 r.pckt 4 + 6 ≡ r.len_reply
    × r.pckt (6 + 3) ≡ o.pckt 3
    × r.pckt (3 % 4) ≡ tcp_bytes (3 % 4)
    × r.state ≡ o.state
modbus_tcp_packet-modbus_rtu_packet_example =
    modbus_tcp_packet-modbus_rtu_packet platform tables (λ i. 0) tcp_bytes 12 3 state
      (λ i. ground arith) state-IsBytes
