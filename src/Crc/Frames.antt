-- ===== src/Crc/Frames.antt =====
-- Frames that end in their check value: what the `calc_` functions append, the `check_` functions
-- accept, and one corrupted byte makes them refuse (main/crc.c, main/modbus.c).
use native.Mathlib.Decide.{ℕ_discrete, dec_lt}
use esp32_template.Base.{
  ℕ, zero, suc, ◌+◌, ◌-◌, ◌*◌, ◌%◌, ◌^◌, ◌≤◌, ◌<◌, bit_xor, true, false, some,
}
use esp32_template.Base.{◌≡◌, ◌≢◌, refl, sym, ap, ◌∙◌, arith, ltb, ◌==◌, ==_iff, if◌then◌else◌, ◌↔◌}
use esp32_template.Base.Bits.{bit_xor_low}
use esp32_template.Base.Bytes.{Bytes, IsBytes, upd, get_u16, put_u16}
use esp32_template.Crc.{
  fold_bytes, rounds, modbus_crc16_bit, modbus_crc16_byte, modbus_crc16, modbus_crc16_check,
  crc16_byte, calc_crc16, check_crc16, sum16, sum8, calc_summ16, calc_summ8, check_summ16,
  check_summ8,
}
use esp32_template.Crc.Detect.{
  IsStep, modbus_crc16_byte-IsStep, crc16_byte-IsStep, DifferAt, each_below, each_below→holds,
  fold_bytes-lt, fold_bytes-detects,
}

-- A loop reads only the cells that it runs over.
pub fold_bytes_ext :
    (body : ℕ → ℕ → ℕ) (left i r : ℕ) (m m' : Bytes)
    → ((k : ℕ) → i ≤ k → k < i + left → m k ≡ m' k)
    → fold_bytes body m left i r ≡ fold_bytes body m' left i r
unfolding fold_bytes
fold_bytes_ext body zero i r m m' h = refl
fold_bytes_ext body (suc left) i r m m' h = rw (h i (omega arith) (omega arith)) (
    fold_bytes_ext body left (i + 1) (body r (m' i)) m m'
      (λ k lo hi. h k (omega arith) (omega arith)))

pub get_u16-put_u16 : (m : Bytes) (a v : ℕ) → v < 0x10000 → get_u16 (put_u16 m a v) a ≡ v
get_u16-put_u16 m a v h = ground arith

pub modbus_crc16-lt : (m : Bytes) (n : ℕ) → IsBytes m → modbus_crc16 m n < 0x10000
unfolding modbus_crc16
modbus_crc16-lt m n h =
    fold_bytes-lt modbus_crc16_byte modbus_crc16_byte-IsStep (if ltb 254 n then 254 else n) 0 0xFFFF
      m h (omega arith)

-- The crc is that of the bytes in front of it.
pub modbus_crc16_ext :
    (m m' : Bytes) (n : ℕ) → ((k : ℕ) → k < n → m k ≡ m' k) → modbus_crc16 m n ≡ modbus_crc16 m' n
unfolding modbus_crc16
modbus_crc16_ext m m' n h =
    fold_bytes_ext modbus_crc16_byte (if ltb 254 n then 254 else n) 0 0xFFFF m m'
      (λ k lo hi. h k (ground arith))

-- A packet of at least one byte with its Modbus crc stored behind it passes the receiver's check.
pub modbus_crc16_check-put_u16 :
    (m : Bytes) (n : ℕ)
    → IsBytes m
    → 0 < n
    → modbus_crc16_check (put_u16 m n (modbus_crc16 m n)) (n + 2) ≡ true
unfolding modbus_crc16_check
modbus_crc16_check-put_u16 m n h pos =
    let e : n + 2 - 2 ≡ n = omega arith in
    rw e (
      ground (
        arith,
        modbus_crc16_ext (put_u16 m n (modbus_crc16 m n)) m n (λ k p. ground arith),
        modbus_crc16-lt m n h,
      ))

-- The crc tells two buffers apart that differ in one byte that it counts.
modbus_crc16-detects :
    (m m' : Bytes) (j n : ℕ)
    → DifferAt m m' j
    → n ≤ 254
    → j < n
    → modbus_crc16 m n ≢ modbus_crc16 m' n
unfolding modbus_crc16
modbus_crc16-detects m m' j n d small below =
    let e : (if ltb 254 n then 254 else n) ≡ n = ground arith in
    rw e (
      fold_bytes-detects modbus_crc16_byte modbus_crc16_byte-IsStep d n 0 0xFFFF (omega arith)
        (omega arith) (omega arith))

-- A packet of 3 to 256 bytes that passes the Modbus check no longer passes it when one byte, of
-- the data or of the crc, is changed.
pub modbus_crc16_check-detects :
    (m m' : Bytes) (j len : ℕ)
    → DifferAt m m' j
    → 3 ≤ len
    → len ≤ 256
    → j < len
    → modbus_crc16_check m len ≡ true
    → modbus_crc16_check m' len ≡ false
unfolding modbus_crc16_check
modbus_crc16_check-detects m m' j len d lo hi below good = elim (dec_lt j (len - 2)) [
  | yes body ↦ ground (
    arith,
    modbus_crc16-detects m m' j (len - 2) d (omega arith) body,
    d.same (len - 2) (omega arith),
    d.same (len - 2 + 1) (omega arith),
  )
  | no tail ↦ elim (ℕ_discrete j (len - 2)) [
    | yes low ↦ ground (
      arith,
      modbus_crc16_ext m m' (len - 2) (λ k p. d.same k (omega arith)),
      d.same (len - 2 + 1) (omega arith),
      d.differ,
      d.bytes j,
      d.bytes' j,
    )
    | no high ↦
        let e : j ≡ len - 2 + 1 = omega arith in
        ground (
          arith,
          modbus_crc16_ext m m' (len - 2) (λ k p. d.same k (omega arith)),
          d.same (len - 2) (omega arith),
          d.differ,
          d.bytes (len - 2),
          d.bytes' (len - 2),
        )
  ]
]

-- What the generic receiver's test sees behind a stored 16-bit check value.
fold_bytes-put_u16 :
    (body : ℕ → ℕ → ℕ) (m : Bytes) (n v : ℕ)
    → fold_bytes body (put_u16 m n v) n 0 0 ≡ fold_bytes body m n 0 0
fold_bytes-put_u16 body m n v =
    fold_bytes_ext body n 0 0 (put_u16 m n v) m (λ k lo hi. ground arith)

sum16-lt : (left i r : ℕ) (m : Bytes) → r < 0x10000 → fold_bytes sum16 m left i r < 0x10000
unfolding fold_bytes sum16
sum16-lt zero i r m h = h
sum16-lt (suc left) i r m h = sum16-lt left (i + 1) ((r + m i) % 2 ^ 16) m (omega arith)

sum8-lt : (left i r : ℕ) (m : Bytes) → r < 0x100 → fold_bytes sum8 m left i r < 0x100
unfolding fold_bytes sum8
sum8-lt zero i r m h = h
sum8-lt (suc left) i r m h = sum8-lt left (i + 1) ((r + m i) % 2 ^ 8) m (omega arith)

-- The sending and the receiving half of each checksum agree: a buffer behind which
-- `calc_crc16`, `calc_summ16` or `calc_summ8` has been stored passes `check_crc16`,
-- `check_summ16` or `check_summ8`, for every length that leaves room for the check value in the 16
-- bits of a length.
pub check-calc :
    (m : Bytes) (n : ℕ)
    → IsBytes m
    → n + 2 < 2 ^ 16
    → (check_crc16 (put_u16 m n (calc_crc16 m n)) (n + 2) ≡ some true)
      × (check_summ16 (put_u16 m n (calc_summ16 m n)) (n + 2) ≡ some true)
      × (check_summ8 (upd m n (calc_summ8 m n)) (n + 1) ≡ some true)
unfolding check_crc16 calc_crc16 check_summ16 calc_summ16 check_summ8 calc_summ8
check-calc m n h small =
    let e : n + 2 - 2 ≡ n = omega arith in
    let e1 : n + 1 - 1 ≡ n = omega arith in
    let cut : n % 2 ^ 16 ≡ n = omega arith in
    let cut1 : (n + 1) % 2 ^ 16 ≡ n + 1 = omega arith in
    let cut2 : (n + 2) % 2 ^ 16 ≡ n + 2 = omega arith in
    (
      rw (cut, cut2, e)
          (ground (
            arith,
            fold_bytes-put_u16 crc16_byte m n (fold_bytes crc16_byte m n 0 0),
            fold_bytes-lt crc16_byte crc16_byte-IsStep n 0 0 m h (omega arith),
          )),
      rw (cut, cut2, e)
          (ground (
            arith,
            fold_bytes-put_u16 sum16 m n (fold_bytes sum16 m n 0 0),
            sum16-lt n 0 0 m (omega arith),
          )),
      rw (cut, cut1, e1)
          (ground (
            arith,
            fold_bytes_ext sum8 n 0 0 (upd m n (fold_bytes sum8 m n 0 0)) m
                (λ k lo hi. ground arith),
            sum8-lt n 0 0 m (omega arith),
          )),
    )

-- A packet that passes the CCITT check no longer passes it when one byte, of the data or of the
-- check value, is changed; this holds at every length of 16 bits from 2 on.
pub check_crc16-detects :
    (m m' : Bytes) (j len : ℕ)
    → DifferAt m m' j
    → 2 ≤ len
    → len < 2 ^ 16
    → j < len
    → check_crc16 m len ≡ some true
    → check_crc16 m' len ≡ some false
unfolding check_crc16
check_crc16-detects m m' j len d lo small below good = elim (dec_lt j (len - 2)) [
  | yes body ↦ ground (
    arith,
    fold_bytes-detects crc16_byte crc16_byte-IsStep d (len - 2) 0 0 (omega arith) (omega arith)
        (omega arith),
    d.same (len - 2) (omega arith),
    d.same (len - 2 + 1) (omega arith),
  )
  | no tail ↦ elim (ℕ_discrete j (len - 2)) [
    | yes low ↦ ground (
      arith,
      fold_bytes_ext crc16_byte (len - 2) 0 0 m m' (λ k lo hi. d.same k (omega arith)),
      d.same (len - 2 + 1) (omega arith),
      d.differ,
      d.bytes j,
      d.bytes' j,
    )
    | no high ↦
        let e : j ≡ len - 2 + 1 = omega arith in
        ground (
          arith,
          fold_bytes_ext crc16_byte (len - 2) 0 0 m m' (λ k lo hi. d.same k (omega arith)),
          d.same (len - 2) (omega arith),
          d.differ,
          d.bytes (len - 2),
          d.bytes' (len - 2),
        )
  ]
]

-- The eight bit steps move a high byte down to the low byte.
high_table : each_below 256 (λ h. rounds modbus_crc16_bit 8 (h * 256) == h) ≡ true
unfolding each_below rounds modbus_crc16_bit
high_table = refl

same_table : each_below 256 (λ h. modbus_crc16_byte h h == 0) ≡ true
unfolding each_below modbus_crc16_byte modbus_crc16_bit
same_table = refl

fold_bytes_snoc :
    (body : ℕ → ℕ → ℕ) (left i r : ℕ) (m : Bytes)
    → fold_bytes body m (suc left) i r ≡ body (fold_bytes body m left i r) (m (i + left))
unfolding fold_bytes
fold_bytes_snoc body zero i r m = ap (λ (k : ℕ). body r (m k)) (omega arith)
fold_bytes_snoc body (suc left) i r m =
    fold_bytes_snoc body left (i + 1) (body r (m i)) m
    ∙ ap (λ (k : ℕ). body (fold_bytes body m left (i + 1) (body r (m i))) (m k)) (omega arith)

modbus_crc16_byte-low : (a b : ℕ) → a < 256 → b < 256 → modbus_crc16_byte (a + 256 * b) a ≡ b
unfolding modbus_crc16_byte
modbus_crc16_byte-low a b ha hb =
    ap (rounds modbus_crc16_bit 8)
      (ap (λ (t : ℕ). bit_xor t a) (omega arith) ∙ bit_xor_low 8 b a (omega arith))
    ∙ (==_iff _ b).0 (each_below→holds 256 _ b high_table hb)

modbus_crc16_byte-same : (b : ℕ) → b < 256 → modbus_crc16_byte b b ≡ 0
modbus_crc16_byte-same b h = (==_iff _ 0).0 (each_below→holds 256 _ b same_table h)

-- Two bytes bring the running value to zero exactly when they are its two halves.
modbus_crc16_byte-residue :
    (r a b : ℕ)
    → r < 0x10000
    → a < 256
    → b < 256
    → (r ≡ a + 256 * b) ↔ (modbus_crc16_byte (modbus_crc16_byte r a) b ≡ 0)
modbus_crc16_byte-residue r a b hr ha hb = (
  λ e. rw (e, modbus_crc16_byte-low a b ha hb) (modbus_crc16_byte-same b hb),
  λ z. step.value r (a + 256 * b) a hr (omega arith) ha (
      step.value (modbus_crc16_byte r a) b b (step.range r a hr ha) (omega arith) hb
        (z ∙ sym (modbus_crc16_byte-same b hb))
      ∙ sym (modbus_crc16_byte-low a b ha hb)),
)
  where
    step : IsStep modbus_crc16_byte
    step = modbus_crc16_byte-IsStep

modbus_crc16-snoc_two :
    (m : Bytes) (n : ℕ)
    → n + 2 ≤ 254
    → modbus_crc16 m (n + 2)
      ≡ modbus_crc16_byte (modbus_crc16_byte (modbus_crc16 m n) (m n)) (m (n + 1))
unfolding modbus_crc16
modbus_crc16-snoc_two m n small =
    let e : (if ltb 254 (n + 2) then 254 else n + 2) ≡ suc (suc n) = ground arith in
    let f : (if ltb 254 n then 254 else n) ≡ n = ground arith in
    rw (e, f)
      (ground (
        arith,
        fold_bytes_snoc modbus_crc16_byte (suc n) 0 0xFFFF m,
        fold_bytes_snoc modbus_crc16_byte n 0 0xFFFF m,
      ))

-- A packet of 3 to 254 bytes passes the Modbus check exactly when the crc of the whole packet, its
-- crc bytes included, is zero.
pub modbus_crc16_check-residue :
    (m : Bytes) (len : ℕ)
    → IsBytes m
    → 3 ≤ len
    → len ≤ 254
    → (modbus_crc16_check m len ≡ true) ↔ (modbus_crc16 m len ≡ 0)
unfolding modbus_crc16_check
modbus_crc16_check-residue m len h lo hi =
    let e : len ≡ len - 2 + 2 = omega arith in
    let r =
      modbus_crc16_byte-residue (modbus_crc16 m (len - 2)) (m (len - 2)) (m (len - 2 + 1))
        (modbus_crc16-lt m (len - 2) h) (h (len - 2)) (h (len - 2 + 1)) in
    let s = ap (modbus_crc16 m) e ∙ modbus_crc16-snoc_two m (len - 2) (omega arith) in
    (λ good. s ∙ r.0 (ground arith), λ z. ground (arith, r.1 (sym s ∙ z)))
