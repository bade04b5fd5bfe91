-- ===== src/Crc.antt =====
-- Checksums: main/crc.c (sums, exclusive or, CCITT crc16, the word-wise crc32) and the Modbus
-- crc16 of main/modbus.c. A loop over a buffer is `fold_bytes` with the loop's body.
pub mod Detect
pub mod Frames
pub mod Image
use esp32_template.Base.{
  ℕ, zero, suc, ◌+◌, ◌-◌, ◌*◌, ◌/◌, ◌%◌, ◌^◌, bit_and, bit_xor, Bool, Option, none, some, List,
}
use esp32_template.Base.{ltb, ◌==◌, if◌then◌else◌}
use esp32_template.Base.Bytes.{Bytes, get_u16, load}

-- `for (i = start; left rounds; i++) acc = body(acc, buff[i])`
unfoldable pub fold_bytes : (ℕ → ℕ → ℕ) → Bytes → ℕ → ℕ → ℕ → ℕ
fold_bytes body buff zero i acc = acc
fold_bytes body buff (suc left) i acc = fold_bytes body buff left (i + 1) (body acc (buff i))

-- `n` rounds of a loop over one byte's bits
unfoldable pub rounds : (ℕ → ℕ) → ℕ → ℕ → ℕ
rounds body zero crc = crc
rounds body (suc n) crc = rounds body n (body crc)

-- One bit of the reflected polynomial 0xA001
unfoldable pub modbus_crc16_bit : ℕ → ℕ
modbus_crc16_bit result =
    if bit_and result 0x01 == 1 then bit_xor (result / 2) 0xA001 else result / 2

unfoldable pub modbus_crc16_byte : ℕ → ℕ → ℕ
unfolding rounds
modbus_crc16_byte result byte = rounds modbus_crc16_bit 8 (bit_xor result byte)

-- At most 254 bytes are counted.
unfoldable pub modbus_crc16 : Bytes → ℕ → ℕ
unfolding fold_bytes
modbus_crc16 pckt len =
    fold_bytes modbus_crc16_byte pckt (if ltb 254 len then 254 else len) 0 0xFFFF

unfoldable pub modbus_crc16_check : Bytes → ℕ → Bool
modbus_crc16_check pckt lenght =
    if ltb lenght 3 then Bool.false else modbus_crc16 pckt (lenght - 2) == get_u16 pckt (lenght - 2)

-- One bit of the polynomial 0x1021, most significant bit first
unfoldable pub crc16_bit : ℕ → ℕ
crc16_bit crc =
    if bit_and crc 0x8000 == 0 then crc * 2 % 2 ^ 16 else bit_xor (crc * 2 % 2 ^ 16) 0x1021

unfoldable pub crc16_byte : ℕ → ℕ → ℕ
unfolding rounds
crc16_byte crc byte = rounds crc16_bit 8 (bit_xor crc (byte * 2 ^ 8 % 2 ^ 16))

-- The lengths of the functions from here on are of 16 bits.
abbrev pub u16_length : ℕ → ℕ
u16_length len = len % 2 ^ 16

unfoldable pub calc_crc16 : Bytes → ℕ → ℕ
unfolding fold_bytes
calc_crc16 buff len = fold_bytes crc16_byte buff (u16_length len) 0 0

-- The packet's own check value, low byte first; `none` for a packet that has no room for it,
-- where the code reads in front of the buffer.
unfoldable pub check_crc16 : Bytes → ℕ → Option Bool
unfolding fold_bytes
check_crc16 buff len =
    let len = u16_length len in
    if ltb len 2
    then none
    else some (fold_bytes crc16_byte buff (len - 2) 0 0 == get_u16 buff (len - 2))

unfoldable pub sum16 : ℕ → ℕ → ℕ
sum16 sum byte = (sum + byte) % 2 ^ 16

unfoldable pub sum8 : ℕ → ℕ → ℕ
sum8 sum byte = (sum + byte) % 2 ^ 8

unfoldable pub calc_summ16 : Bytes → ℕ → ℕ
unfolding fold_bytes sum16
calc_summ16 buff len = fold_bytes sum16 buff (u16_length len) 0 0

unfoldable pub calc_summ8 : Bytes → ℕ → ℕ
unfolding fold_bytes sum8
calc_summ8 buff len = fold_bytes sum8 buff (u16_length len) 0 0

unfoldable pub check_summ16 : Bytes → ℕ → Option Bool
unfolding fold_bytes sum16
check_summ16 buff len =
    let len = u16_length len in
    if ltb len 2 then none else some (fold_bytes sum16 buff (len - 2) 0 0 == get_u16 buff (len - 2))

unfoldable pub check_summ8 : Bytes → ℕ → Option Bool
unfolding fold_bytes sum8
check_summ8 buff len =
    let len = u16_length len in
    if ltb len 1 then none else some (fold_bytes sum8 buff (len - 1) 0 0 == buff (len - 1))

unfoldable pub calc_xor8 : Bytes → ℕ → ℕ
unfolding fold_bytes
calc_xor8 buff len = fold_bytes bit_xor buff (u16_length len) 0 0

-- The peripheral's crc32 over a run of bytes is a parameter; the length counts words.
module _ (esp_crc32_le : List ℕ → ℕ) where
  unfoldable pub calc_crc_for_u32 : Bytes → ℕ → ℕ → ℕ
  unfolding load
  calc_crc_for_u32 mem buff len = esp_crc32_le (load mem buff (len * 4))
