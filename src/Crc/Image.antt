-- ===== src/Crc/Image.antt =====
-- An image in the address space that opens with its own length and ends in its crc32, both words in
-- network order: check_crc_for_u32 of main/crc.c.
use esp32_template.Base.{
  ℕ, ◌+◌, ◌-◌, ◌*◌, ◌/◌, ◌%◌, ◌^◌, ◌≤◌, ◌<◌, ◌≡◌, refl, ap, arith, Bool, true, false, List, inl,
}
use esp32_template.Base.{ltb, ◌==◌, ==_iff, if◌then◌else◌}
use esp32_template.Base.Bytes.{Bytes, store-outside, load_ext}
use esp32_template.Crc.{calc_crc_for_u32}
use esp32_template.Mirror.{le_bytes, le_value, read_value, write_value}
use esp32_template.Mirror.Check.{read_value-write_value}

-- The byte swap and the peripheral's crc32 are parameters. A read of a word takes its 4 bytes, and
-- the address of the last word wraps at 32 bits.
module _ (esp_crc32_le : List ℕ → ℕ) (htonl : ℕ → ℕ) where
  unfoldable pub check_crc_for_u32 : Bytes → ℕ → Bool
  unfolding calc_crc_for_u32 read_value
  check_crc_for_u32 mem space =
      let in_file_len = htonl (read_value mem space 4) in
      let temp = (space + in_file_len - 4) % 2 ^ 32 in
      if ltb 4 in_file_len
      then calc_crc_for_u32 esp_crc32_le mem space ((in_file_len - 4) / 4)
        == htonl (read_value mem temp 4)
      else false

  read_value-front :
      (m : Bytes) (a b v : ℕ) → a + 4 ≤ b → read_value (write_value m b 4 v) a 4 ≡ read_value m a 4
  unfolding read_value write_value
  read_value-front m a b v h =
      ap (λ bytes. le_value bytes)
        (load_ext 4 (write_value m b 4 v) m a a
          (λ k p. store-outside (le_bytes 4 v) m b (a + k) (inl (omega arith))))

  calc_crc_for_u32-front :
      (m : Bytes) (a b n v : ℕ)
      → a + n * 4 ≤ b
      → calc_crc_for_u32 esp_crc32_le (write_value m b 4 v) a n
        ≡ calc_crc_for_u32 esp_crc32_le m a n
  unfolding calc_crc_for_u32 write_value
  calc_crc_for_u32-front m a b n v h = ap esp_crc32_le (
      load_ext (n * 4) (write_value m b 4 v) m a a
        (λ k p. store-outside (le_bytes 4 v) m b (a + k) (inl (omega arith))))

  -- An image of at least two words below the end of the address space, whose first word is its
  -- length, passes the check once the crc32 of the words in front of the last one is written to
  -- the last one, if the byte swap undoes itself on that crc and gives a 32-bit word.
  pub check_crc_for_u32-write_value :
      (m : Bytes) (space len crc : ℕ)
      → htonl (read_value m space 4) ≡ len
      → 8 ≤ len
      → space + len ≤ 2 ^ 32
      → calc_crc_for_u32 esp_crc32_le m space ((len - 4) / 4) ≡ crc
      → htonl crc < 2 ^ 32
      → htonl (htonl crc) ≡ crc
      → check_crc_for_u32 (write_value m (space + len - 4) 4 (htonl crc)) space ≡ true
  unfolding check_crc_for_u32
  check_crc_for_u32-write_value m space len crc head lo hi sum range back =
      let e : (space + len - 4) % 2 ^ 32 ≡ space + len - 4 = omega arith in
      let front = read_value-front m space (space + len - 4) (htonl crc) (omega arith) in
      let same =
        calc_crc_for_u32-front m space (space + len - 4) ((len - 4) / 4) (htonl crc)
          (omega arith) in
      let last = read_value-write_value m (space + len - 4) (htonl crc) range in
      let big : ltb 4 len ≡ true = ground arith in
      rw (front, head, e, same, last, sum, back, big) ((==_iff crc crc).1 refl)
