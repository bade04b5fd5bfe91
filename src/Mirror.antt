-- ===== src/Mirror.antt =====
-- The mirror of the saved registers, main/mirror_storage.c: a buffer for each table, ended by its
-- crc32, that is written to flash on request. All buffers lie in the address space `mem`; the
-- mutex is held for each access, so an access is one step.
pub mod Check
use esp32_template.Base.{
  ℕ, zero, suc, ◌+◌, ◌-◌, ◌*◌, ◌/◌, ◌%◌, ◌^◌, bit_or, Bool, true, false, ◌&&◌, none, some, List, [],
  ◌∷◌,
}
use esp32_template.Base.{leb, ◌==◌, not, if◌then◌else◌, length, get_elem?}
use esp32_template.Base.Bytes.{Bytes, load, store}
use esp32_template.Base.Int.{ℤ, pos, minus}
use esp32_template.Crc.{calc_crc_for_u32}
use esp32_template.Description.{RegsTemplate, RegsTable, regs_description_flag_check, saving}
use esp32_template.Description.Lookup.{regs_description_get_by_index_in_table}
use esp32_template.Platform.{Platform}

-- A value as `n` bytes, lowest first, and back
abbrev pub le_bytes : ℕ → ℕ → List ℕ
le_bytes zero v = []
le_bytes (suc n) v = v % 256 ∷ le_bytes n (v / 256)

abbrev pub le_value : List ℕ → ℕ
le_value [] = 0
le_value (b ∷ bytes) = b + 256 * le_value bytes

unfoldable pub read_value : Bytes → ℕ → ℕ → ℕ
unfolding load
read_value m a n = le_value (load m a n)

unfoldable pub write_value : Bytes → ℕ → ℕ → ℕ → Bytes
unfolding store
write_value m a n v = store m a (le_bytes n v)

-- `memcpy(dst, src, n)`
unfoldable pub copy : Bytes → ℕ → ℕ → ℕ → Bytes
unfolding load store
copy m dst src n = store m dst (load m src n)

-- `memcmp(a, b, n) != 0`
unfoldable pub differ : Bytes → ℕ → ℕ → ℕ → Bool
differ m a b zero = false
differ m a b (suc n) = if m a == m b then differ m (a + 1) (b + 1) n else true

-- The buffer and its size; NULL and 0 for a table that is not in the list
unfoldable pub get_buffer : List RegsTable → ℕ → ℕ
get_buffer tables i = elim (get_elem? tables i) [ none ↦ 0 | some t ↦ t.saved_regs_buffer ]

unfoldable pub get_saved_buffer_size : List RegsTable → ℕ → ℕ
get_saved_buffer_size tables i = elim (get_elem? tables i) [
  | none ↦ 0
  | some t ↦ t.saved_regs_buffer_size
]

unfoldable pub get_num_of_regs : List RegsTable → ℕ → ℕ
get_num_of_regs tables i = elim (get_elem? tables i) [ none ↦ 0 | some t ↦ length t.description ]

abbrev pub set_from_bkram_to_flash : ℕ
set_from_bkram_to_flash = 64

module _ (pf : Platform) (tables : List RegsTable) where
  -- The check value of the words in front of the last one
  unfoldable pub mirror_crc : Bytes → ℕ → ℕ → ℕ
  unfolding calc_crc_for_u32
  mirror_crc m buffer size = calc_crc_for_u32 pf.esp_crc32_le m buffer ((size - 4) / 4)

  unfoldable pub mirror_recalc_crc_unlocked : Bytes → ℕ → ℕ → Bytes
  unfolding mirror_crc write_value
  mirror_recalc_crc_unlocked m buffer size =
      write_value m (buffer + size - 4) 4 (mirror_crc m buffer size)

  unfoldable pub mirror_recalc_crc : Bytes → ℕ → ℕ → Bytes
  unfolding mirror_recalc_crc_unlocked
  mirror_recalc_crc m buffer size =
      if buffer == 0 then m else mirror_recalc_crc_unlocked m buffer size

  unfoldable pub mirror_check_crc : Bytes → ℕ → ℕ → Bool
  unfolding mirror_crc read_value
  mirror_check_crc m buffer size =
      if buffer == 0 then false else mirror_crc m buffer size == read_value m (buffer + size - 4) 4

  -- The duty task is asked to write the table's mirror to flash.
  unfoldable pub mirror_request_flash_save : Bytes → ℕ → Bytes
  unfolding read_value write_value
  mirror_request_flash_save m table_ind =
      let m' =
        write_value m pf.table_to_save 4
          (bit_or (read_value m pf.table_to_save 4) (2 ^ table_ind % 2 ^ 32)) in
      write_value m' pf.async_flags 4
        (bit_or (read_value m' pf.async_flags 4) set_from_bkram_to_flash)

  -- Whether the register has a place in the mirror
  unfoldable pub has_place : RegsTemplate → Bool
  unfolding get_buffer get_saved_buffer_size
  has_place t =
      not (get_buffer tables t.table_ind == 0)
      && leb (t.desc.saved_address + t.size_in_bytes) (get_saved_buffer_size tables t.table_ind)

  -- 1 if the mirror changed, 0 if it did not, -1 if the register has no place there
  unfoldable pub mirror_access_write : Bytes → RegsTemplate → ℤ × Bytes
  unfolding has_place regs_description_flag_check get_buffer get_saved_buffer_size differ copy
      mirror_recalc_crc_unlocked mirror_request_flash_save
  mirror_access_write m t =
      let buffer = get_buffer tables t.table_ind in
      let size = get_saved_buffer_size tables t.table_ind in
      let place = buffer + t.desc.saved_address in
      if regs_description_flag_check t saving
      then (if has_place t
          then (if differ m place t.desc.p_value t.size_in_bytes
              then (
                pos 1,
                mirror_request_flash_save
                    (mirror_recalc_crc_unlocked (copy m place t.desc.p_value t.size_in_bytes) buffer
                      size)
                    t.table_ind,
              )
              else (pos 0, m))
          else (minus 1, m))
      else (pos 0, m)

  unfoldable pub mirror_access_read : Bytes → RegsTemplate → ℤ × Bytes
  unfolding has_place get_buffer copy
  mirror_access_read m t =
      if has_place t
      then (
        pos 0,
        copy m t.desc.p_value (get_buffer tables t.table_ind + t.desc.saved_address)
            t.size_in_bytes,
      )
      else (minus 1, m)

  unfoldable pub mirror_space_is_changing : Bytes → RegsTemplate → ℤ
  unfolding has_place get_buffer differ
  mirror_space_is_changing m t =
      if has_place t
      then (if differ m (get_buffer tables t.table_ind + t.desc.saved_address) t.desc.p_value
            t.size_in_bytes
          then pos 1
          else pos 0)
      else minus 1

  -- The loop of `mirror_access_init_buffer`, which the first register without a place ends
  unfoldable pub init_loop : ℕ → ℕ → ℕ → Bytes → ℤ × Bytes
  unfolding has_place regs_description_flag_check get_buffer copy
      regs_description_get_by_index_in_table
  init_loop table_ind zero i m = (pos 0, m)
  init_loop table_ind (suc left) i m =
      elim (regs_description_get_by_index_in_table tables table_ind i) [
        | none ↦ (minus 1, m)
        | some t ↦ elim (regs_description_flag_check t saving) [
          | false ↦ init_loop table_ind left (i + 1) m
          | true ↦ elim (has_place t) [
            | false ↦ (minus 1, m)
            | true ↦ init_loop table_ind left (i + 1) (
                copy m (get_buffer tables table_ind + t.desc.saved_address) t.desc.p_value
                  t.size_in_bytes)
          ]
        ]
      ]

  unfoldable pub mirror_access_init_buffer : Bytes → ℕ → ℤ × Bytes
  unfolding init_loop mirror_recalc_crc get_num_of_regs get_buffer get_saved_buffer_size
  mirror_access_init_buffer m table_ind =
      let (res, m') = init_loop table_ind (get_num_of_regs tables table_ind) 0 m in
      (
        res,
        mirror_recalc_crc m' (get_buffer tables table_ind) (get_saved_buffer_size tables table_ind),
      )
