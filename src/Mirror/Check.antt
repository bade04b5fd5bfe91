-- ===== src/Mirror/Check.antt =====
-- The crc of a mirror: what `mirror_recalc_crc` of main/mirror_storage.c stores, `mirror_check_crc`
-- accepts.
use esp32_template.Base.{
  ℕ, zero, suc, ◌+◌, ◌-◌, ◌/◌, ◌^◌, ◌≤◌, ◌<◌, ◌≡◌, ◌≢◌, ◌==◌, ==_iff, refl, ap, ◌∙◌, arith, true,
  false, List, inl, length,
}
use esp32_template.Base.Bytes.{Bytes, store, store-outside, load-store, load_ext}
use esp32_template.Crc.{calc_crc_for_u32}
use esp32_template.Description.{RegsTable}
use esp32_template.Mirror.{
  le_bytes, le_value, read_value, write_value, mirror_crc, mirror_recalc_crc_unlocked,
  mirror_recalc_crc, mirror_check_crc,
}
use esp32_template.Platform.{Platform}

length-le_bytes : (n v : ℕ) → length (le_bytes n v) ≡ n
length-le_bytes zero v = refl
length-le_bytes (suc n) v = ap suc (length-le_bytes n (v / 256))

word_back : (v : ℕ) → v < 2 ^ 32 → le_value (le_bytes 4 v) ≡ v
word_back v h = omega arith

-- A word that is written is read back.
pub read_value-write_value :
    (m : Bytes) (a v : ℕ) → v < 2 ^ 32 → read_value (write_value m a 4 v) a 4 ≡ v
unfolding read_value write_value
read_value-write_value m a v h = ap le_value (load-store (le_bytes 4 v) m a) ∙ word_back v h

module _ (pf : Platform) (tables : List RegsTable) where
  -- The check value does not depend on where it is stored.
  mirror_crc-write_value :
      (m : Bytes) (buffer size v : ℕ)
      → 4 ≤ size
      → mirror_crc pf tables (write_value m (buffer + size - 4) 4 v) buffer size
        ≡ mirror_crc pf tables m buffer size
  unfolding mirror_crc calc_crc_for_u32 write_value
  mirror_crc-write_value m buffer size v h = ap pf.esp_crc32_le (
      load_ext _ (store m (buffer + size - 4) (le_bytes 4 v)) m buffer buffer (λ k p.
        store-outside (le_bytes 4 v) m (buffer + size - 4) (buffer + k) (inl (omega arith))))

  -- A mirror of at least one word, not at NULL, passes the check after its crc has been computed
  -- anew, whatever it held, if the peripheral's crc has 32 bits.
  pub mirror_check_crc-mirror_recalc_crc :
      (m : Bytes) (buffer size : ℕ)
      → buffer ≢ 0
      → 4 ≤ size
      → mirror_crc pf tables m buffer size < 2 ^ 32
      → mirror_check_crc pf tables (mirror_recalc_crc pf tables m buffer size) buffer size ≡ true
  unfolding mirror_check_crc mirror_recalc_crc mirror_recalc_crc_unlocked
  mirror_check_crc-mirror_recalc_crc m buffer size there h small =
      let e : (buffer == 0) ≡ false = ground arith in
      let v = mirror_crc pf tables m buffer size in
      let same = mirror_crc-write_value m buffer size v h in
      let back = read_value-write_value m (buffer + size - 4) v small in
      rw (e, same, back) ((==_iff v v).1 refl)
