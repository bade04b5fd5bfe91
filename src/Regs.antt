-- ===== src/Regs.antt =====
-- Register access, main/regs.c: writes are collected in a temporary buffer until a whole item is
-- there, then limited to the register's range and stored. The buffer's helpers stand in
-- main/regs_description.c.
pub mod Command
pub mod Set
pub mod Access
pub mod Limits
use esp32_template.Base.{
  ℕ, zero, suc, ◌+◌, ◌-◌, ◌*◌, ◌/◌, ◌%◌, ◌^◌, bit_and, Bool, true, false, ◌&&◌, ◌||◌, Option, none,
  some, List, [], ◌∷◌,
}
use esp32_template.Base.{ltb, leb, ◌==◌, not, if◌then◌else◌}
use esp32_template.Base.Bytes.{Bytes, load, store, get_u16}
use esp32_template.Base.Int.{ℤ, pos, minus}
use esp32_template.Description.{RegsFlag, regs_size_in_byte, RegsTemplate}
use esp32_template.Mirror.{le_value, le_bytes, read_value}
use esp32_template.Platform.{Platform}

-- `regs_access_t`: the flag, and the operand's eight bytes
pub record RegsAccess : Type 0 where
  pub flag : RegsFlag
  pub value : Bytes

-- `temp_data_buffering_t`; `written` is the bit field `byte_writed_flags`.
pub record TempBuffer : Type 0 where
  pub bytes : Bytes
  pub written : ℕ → Bool
  pub reg_address : ℕ
  pub type : RegsFlag

abbrev pub no_bytes : Bytes
no_bytes i = 0

abbrev pub nothing_written : ℕ → Bool
nothing_written i = false

-- The first byte of the item that the accessed byte belongs to
abbrev pub start_byte : RegsTemplate → ℕ → ℕ
start_byte t access_address = (access_address - t.desc.p_value) % regs_size_in_byte t.desc.type

-- How many bytes are taken: no more than are left of the item
unfoldable pub write_size : RegsTemplate → RegsAccess → ℕ → ℕ
write_size t reg access_address =
    let left = regs_size_in_byte t.desc.type - start_byte t access_address in
    if ltb left (regs_size_in_byte reg.flag) then left else regs_size_in_byte reg.flag

-- Bytes for another item start the buffer afresh.
unfoldable pub aim : RegsTemplate → ℕ → TempBuffer → TempBuffer
aim t access_address temp =
    if temp.reg_address == access_address - start_byte t access_address then temp else (record {
      bytes = no_bytes;
      written = nothing_written;
      reg_address = access_address - start_byte t access_address;
      type = t.desc.type;
    })

-- The bytes taken, and a NULL register's -1
unfoldable pub regs_fill_temp_buffer : RegsTemplate → RegsAccess → TempBuffer → ℕ → ℤ × TempBuffer
unfolding aim write_size load store
regs_fill_temp_buffer t reg temp access_address =
    if t.desc.p_value == 0
    then (minus 1, temp)
    else (let aimed = aim t access_address temp in
        let start = start_byte t access_address in
        let n = write_size t reg access_address in
        (
          pos n,
          record aimed {
            bytes = store aimed.bytes start (load reg.value 0 n);
            written = λ i. aimed.written i || (leb start i && ltb i (n + start));
          },
        ))

-- The first `n` bytes have been written.
unfoldable pub all_written : (ℕ → Bool) → ℕ → Bool
all_written written zero = true
all_written written (suc n) = written n && all_written written n

unfoldable pub regs_check_temp_buffer : TempBuffer → RegsTemplate → ℤ
unfolding all_written
regs_check_temp_buffer temp t =
    if t.desc.p_value == 0
    then minus 1
    else if all_written temp.written (regs_size_in_byte t.desc.type)
    then pos 1
    else pos 0

unfoldable pub regs_clear_temp_buffer : TempBuffer → TempBuffer
regs_clear_temp_buffer temp = record {
  bytes = no_bytes;
  written = nothing_written;
  reg_address = 0;
  type = RegsFlag.no_flag;
}

-- `a < b` for two's complement numbers of `w` bits
abbrev pub signed_lt : ℕ → ℕ → ℕ → Bool
signed_lt w a b = ltb ((a + 2 ^ (w - 1)) % 2 ^ w) ((b + 2 ^ (w - 1)) % 2 ^ w)

-- Digits, Latin letters, `_` and `-`
unfoldable pub is_ascii_symbol : ℕ → Bool
is_ascii_symbol c =
    (leb 0x30 c && leb c 0x39)
    || (leb 0x41 c && leb c 0x5a)
    || (leb 0x61 c && leb c 0x7a)
    || (c == 0x5f)
    || (c == 0x2d)

-- 1 if all are such characters; 0 if one is not, and for no bytes at all
unfoldable pub is_ascii_symbol_or_digital : List ℕ → ℕ → ℕ
unfolding is_ascii_symbol
is_ascii_symbol_or_digital [] res = res
is_ascii_symbol_or_digital (c ∷ bytes) res =
    let rest = is_ascii_symbol_or_digital bytes 1 in if is_ascii_symbol c then rest else 0

module _ (pf : Platform) where
  -- The switch on the type for the maximum: an operand above it becomes the maximum. A type without a
  -- case leaves the operand.
  unfoldable pub limit_max : RegsFlag → ℕ → ℕ → ℕ
  limit_max RegsFlag.u8_regs_flag max v = if ltb max v then max else v
  limit_max RegsFlag.i8_regs_flag max v = if signed_lt 8 max v then max else v
  limit_max RegsFlag.u16_regs_flag max v = if ltb max v then max else v
  limit_max RegsFlag.s16_regs_flag max v = if signed_lt 16 max v then max else v
  limit_max RegsFlag.time_regs_flag max v = if ltb max v then max else v
  limit_max RegsFlag.u32_regs_flag max v = if ltb max v then max else v
  limit_max RegsFlag.s32_regs_flag max v = if signed_lt 32 max v then max else v
  limit_max RegsFlag.int_regs_flag max v = if signed_lt 32 max v then max else v
  limit_max RegsFlag.float_regs_flag max v = if pf.float_lt max v then max else v
  limit_max RegsFlag.u64_regs_flag max v = if ltb max v then max else v
  limit_max RegsFlag.s64_regs_flag max v = if signed_lt 64 max v then max else v
  limit_max RegsFlag.double_regs_flag max v = if pf.double_lt max v then max else v
  limit_max RegsFlag.no_flag max v = v

  -- The switch for the minimum
  unfoldable pub limit_min : RegsFlag → ℕ → ℕ → ℕ
  limit_min RegsFlag.u8_regs_flag min v = if ltb v min then min else v
  limit_min RegsFlag.i8_regs_flag min v = if signed_lt 8 v min then min else v
  limit_min RegsFlag.u16_regs_flag min v = if ltb v min then min else v
  limit_min RegsFlag.s16_regs_flag min v = if signed_lt 16 v min then min else v
  limit_min RegsFlag.time_regs_flag min v = if ltb v min then min else v
  limit_min RegsFlag.u32_regs_flag min v = if ltb v min then min else v
  limit_min RegsFlag.s32_regs_flag min v = if signed_lt 32 v min then min else v
  limit_min RegsFlag.int_regs_flag min v = if signed_lt 32 v min then min else v
  limit_min RegsFlag.float_regs_flag min v = if pf.float_lt v min then min else v
  limit_min RegsFlag.u64_regs_flag min v = if ltb v min then min else v
  limit_min RegsFlag.s64_regs_flag min v = if signed_lt 64 v min then min else v
  limit_min RegsFlag.double_regs_flag min v = if pf.double_lt v min then min else v
  limit_min RegsFlag.no_flag min v = v

  -- The maximum first, then the minimum; a NULL pointer means no limit.
  unfoldable pub limit : Bytes → RegsTemplate → ℕ → ℕ → ℕ
  unfolding limit_max limit_min read_value
  limit m t array_number v =
      let n = regs_size_in_byte t.desc.type in
      let v' =
        if t.desc.p_max_value == 0
        then v
        else limit_max t.desc.type (read_value m (t.desc.p_max_value + array_number * n) n) v in
      if t.desc.p_min_value == 0
      then v'
      else limit_min t.desc.type (read_value m (t.desc.p_min_value + array_number * n) n) v'

  -- The Wi-Fi names and passwords
  unfoldable pub is_wifi_text : RegsTemplate → Bool
  is_wifi_text t =
      (t.desc.p_value == pf.wifi_name)
      || (t.desc.p_value == pf.wifi_password)
      || (t.desc.p_value == pf.wifi_router_password)
      || (t.desc.p_value == pf.wifi_router_name)

  -- The buffered operand is put into the register's range; 1 if it may be stored.
  unfoldable pub regs_write_value_check : Bytes → TempBuffer → RegsTemplate → ℤ × TempBuffer
  unfolding limit is_wifi_text is_ascii_symbol_or_digital load store
  regs_write_value_check m temp t =
      if t.desc.p_value == 0
      then (minus 1, temp)
      else (let n = regs_size_in_byte t.desc.type in
          let array_number = (temp.reg_address - t.desc.p_value) / n in
          let v = limit m t array_number (le_value (load temp.bytes 0 n)) in
          let temp' = record temp { bytes = store temp.bytes 0 (le_bytes n v) } in
          (
            if is_wifi_text t
                then pos (is_ascii_symbol_or_digital (load temp'.bytes 0 n) 0)
                else pos 1,
            temp',
          ))
