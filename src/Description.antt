-- ===== src/Description.antt =====
-- Register descriptions: the tables of main/regs_description.h and the types of main/regs.h that
-- they use. Pointers are addresses, and NULL is 0.
pub mod Search
pub mod Lookup
pub mod ByAddress
pub mod ByModbus
use esp32_template.Base.{ℕ, ◌+◌, ◌*◌, ◌/◌, ◌%◌, ◌^◌, Bool, List, Option, bit_and, ◌==◌, not}

-- `regs_flag_t`; `no_flag` stands for any value that is none of the flags.
pub data RegsFlag : Type 0 where
  u8_regs_flag u16_regs_flag u32_regs_flag u64_regs_flag : RegsFlag
  i8_regs_flag s16_regs_flag s32_regs_flag s64_regs_flag : RegsFlag
  float_regs_flag double_regs_flag int_regs_flag time_regs_flag : RegsFlag
  no_flag : RegsFlag

abbrev pub regs_size_in_byte : RegsFlag → ℕ
regs_size_in_byte u8_regs_flag = 1
regs_size_in_byte i8_regs_flag = 1
regs_size_in_byte u16_regs_flag = 2
regs_size_in_byte s16_regs_flag = 2
regs_size_in_byte u32_regs_flag = 4
regs_size_in_byte s32_regs_flag = 4
regs_size_in_byte int_regs_flag = 4
regs_size_in_byte time_regs_flag = 4
regs_size_in_byte float_regs_flag = 4
regs_size_in_byte u64_regs_flag = 8
regs_size_in_byte s64_regs_flag = 8
regs_size_in_byte double_regs_flag = 8
regs_size_in_byte no_flag = 0

-- `regs_description_t`, but for the text shown to the user
pub record RegsDescription : Type 0 where
  pub p_default : ℕ
  pub p_min_value : ℕ
  pub p_max_value : ℕ
  pub p_value : ℕ
  pub saved_address : ℕ
  pub name : List ℕ
  pub guid : ℕ
  pub modbus_description : ℕ
  pub type : RegsFlag
  pub size : ℕ
  pub property : ℕ

-- `RD_MDB_ADDRESS` and `RD_MDB_FUNCTION`
abbrev pub rd_mdb_address : ℕ → ℕ
rd_mdb_address desc = desc % 2 ^ 16

abbrev pub rd_mdb_function : ℕ → ℕ
rd_mdb_function desc = desc / 2 ^ 16 % 2 ^ 4

-- `enum property`
abbrev pub read_only : ℕ
read_only = 2

abbrev pub saving : ℕ
saving = 4

abbrev pub credential_flag : ℕ
credential_flag = 16

-- The register's bytes in memory
abbrev pub byte_size : RegsDescription → ℕ
byte_size r = regs_size_in_byte r.type * r.size

abbrev pub end_address : RegsDescription → ℕ
end_address r = r.p_value + byte_size r

-- `regs_template_t`: a description that was looked up, its size and its table
pub record RegsTemplate : Type 0 where
  pub desc : RegsDescription
  pub size_in_bytes : ℕ
  pub table_ind : ℕ

-- `regs_description_list_t`; `num_of_regs` is the length of the array `description`.
pub record RegsTable : Type 0 where
  pub description : List RegsDescription
  pub table_version : ℕ
  pub space_name : List ℕ
  pub saved_regs_buffer : ℕ
  pub saved_regs_buffer_size : ℕ

unfoldable pub regs_description_flag_check : RegsTemplate → ℕ → Bool
regs_description_flag_check t flag = not (bit_and t.desc.property flag == 0)

unfoldable pub regs_description_is_writable : RegsTemplate → Bool
unfolding regs_description_flag_check
regs_description_is_writable t = not (regs_description_flag_check t read_only)

unfoldable pub regs_description_is_credential : RegsTemplate → Bool
unfolding regs_description_flag_check
regs_description_is_credential t = regs_description_flag_check t credential_flag
