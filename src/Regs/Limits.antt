-- ===== src/Regs/Limits.antt =====
-- The range of a register: the limits of `regs_write_value_check` in main/regs.c.
use native.Mathlib.Decide.{dec_lt}
use native.Mathlib.Nat.{pow-suc, mod-eq_of_lt, mod-eq-sub-mod}
use esp32_template.Base.{
  ℕ, zero, suc, ◌+◌, ◌-◌, ◌*◌, ◌%◌, ◌^◌, ◌≤◌, ◌<◌, ◌⊎◌, ◌↔◌, ap, ◌∙◌, false, ◌≡◌, ◌≢◌, ◌==◌, refl,
  arith, ltb, inl, inr, Bool, if◌then◌else◌, Bool-cases, if-holds,
}
use esp32_template.Base.Bytes.{Bytes, IsBytes, load}
use esp32_template.Description.{RegsFlag, RegsTemplate, regs_size_in_byte}
use esp32_template.Mirror.{le_value, read_value}
use esp32_template.Platform.{Platform}
use esp32_template.Regs.{signed_lt, limit_max, limit_min, limit}

-- The bounds of item `k` of a register
abbrev pub maximum : Bytes → RegsTemplate → ℕ → ℕ
maximum m t k = let n = regs_size_in_byte t.desc.type in read_value m (t.desc.p_max_value + k * n) n

abbrev pub minimum : Bytes → RegsTemplate → ℕ → ℕ
minimum m t k = let n = regs_size_in_byte t.desc.type in read_value m (t.desc.p_min_value + k * n) n

-- `a ≤ b` for two's complement words, of which those from `h` on are negative: they have the same sign
-- and stand in the order of the words, or only `a` is negative.
abbrev pub SignedAtMost : ℕ → ℕ → ℕ → Type 0
SignedAtMost h a b = (a ≤ b × ((b < h) ⊎ (h ≤ a))) ⊎ (h ≤ a × b < h)

-- `a ≤ b` in the order of the type; a register without a type has no order.
abbrev pub AtMost : Platform → RegsFlag → ℕ → ℕ → Type 0
AtMost pf RegsFlag.u8_regs_flag a b = a ≤ b
AtMost pf RegsFlag.u16_regs_flag a b = a ≤ b
AtMost pf RegsFlag.u32_regs_flag a b = a ≤ b
AtMost pf RegsFlag.u64_regs_flag a b = a ≤ b
AtMost pf RegsFlag.time_regs_flag a b = a ≤ b
AtMost pf RegsFlag.i8_regs_flag a b = SignedAtMost 0x80 a b
AtMost pf RegsFlag.s16_regs_flag a b = SignedAtMost 0x8000 a b
AtMost pf RegsFlag.s32_regs_flag a b = SignedAtMost 0x80000000 a b
AtMost pf RegsFlag.int_regs_flag a b = SignedAtMost 0x80000000 a b
AtMost pf RegsFlag.s64_regs_flag a b = SignedAtMost 0x8000000000000000 a b
AtMost pf RegsFlag.float_regs_flag a b = pf.float_lt b a ≡ false
AtMost pf RegsFlag.double_regs_flag a b = pf.double_lt b a ≡ false
AtMost pf RegsFlag.no_flag a b = Unit {0}

-- A word with its sign bit turned over
turned-low : (h x : ℕ) → x < h → (x + h) % (h + h) ≡ x + h
turned-low h x lt = mod-eq_of_lt (omega arith)

turned-high : (h x : ℕ) → h ≤ x → x < h + h → (x + h) % (h + h) ≡ x - h
turned-high h x lo hi =
    let e : x + h - (h + h) ≡ x - h = omega arith in
    mod-eq-sub-mod (omega arith) ∙ ap (λ (y : ℕ). y % (h + h)) e ∙ mod-eq_of_lt (omega arith)

turned-SignedAtMost :
    (h a b : ℕ)
    → a < h + h
    → b < h + h
    → (ltb ((b + h) % (h + h)) ((a + h) % (h + h)) ≡ false) ↔ SignedAtMost h a b
turned-SignedAtMost h a b small_a small_b = elim (dec_lt a h) [
  | yes low ↦ elim (dec_lt b h) [
    | yes low' ↦
        rw (turned-low h a low, turned-low h b low')
          (λ e. inl (ground arith, inl low'), λ s. ground (arith, s))
    | no high' ↦
        rw (turned-low h a low, turned-high h b (omega arith) small_b)
          (λ e. ground arith, λ s. ground (arith, s))
  ]
  | no high ↦ elim (dec_lt b h) [
    | yes low' ↦
        rw (turned-high h a (omega arith) small_a, turned-low h b low')
          (λ e. inr (omega arith, low'), λ s. ground arith)
    | no high' ↦
        rw (turned-high h a (omega arith) small_a, turned-high h b (omega arith) small_b)
          (λ e. inl (ground arith, inr (omega arith)), λ s. ground (arith, s))
  ]
]

ltb_irrefl : (x : ℕ) → ltb x x ≡ false
ltb_irrefl x = ground arith

le_value-lt : (n : ℕ) (m : Bytes) (a : ℕ) → IsBytes m → le_value (load m a n) < 256 ^ n
unfolding load
le_value-lt zero m a h = omega arith
le_value-lt (suc n) m a h =
    let rest = le_value-lt n m (a + 1) h in let byte = h a in rw (pow-suc 256 n) (omega arith)

read_value-lt : (m : Bytes) (a n : ℕ) → IsBytes m → read_value m a n < 256 ^ n
unfolding read_value
read_value-lt m a n h = le_value-lt n m a h

-- The words of a type
abbrev pub Fits : RegsFlag → ℕ → Type 0
Fits type v = v < 256 ^ regs_size_in_byte type

-- `a < b` in the comparisons of the code, by the type
less : Platform → RegsFlag → ℕ → ℕ → Bool
less pf RegsFlag.u8_regs_flag a b = ltb a b
less pf RegsFlag.i8_regs_flag a b = signed_lt 8 a b
less pf RegsFlag.u16_regs_flag a b = ltb a b
less pf RegsFlag.s16_regs_flag a b = signed_lt 16 a b
less pf RegsFlag.time_regs_flag a b = ltb a b
less pf RegsFlag.u32_regs_flag a b = ltb a b
less pf RegsFlag.s32_regs_flag a b = signed_lt 32 a b
less pf RegsFlag.int_regs_flag a b = signed_lt 32 a b
less pf RegsFlag.float_regs_flag a b = pf.float_lt a b
less pf RegsFlag.u64_regs_flag a b = ltb a b
less pf RegsFlag.s64_regs_flag a b = signed_lt 64 a b
less pf RegsFlag.double_regs_flag a b = pf.double_lt a b
less pf RegsFlag.no_flag a b = false

limit_max-less :
    (pf : Platform) (type : RegsFlag) (max v : ℕ)
    → limit_max pf type max v ≡ (if less pf type max v then max else v)
unfolding limit_max less
limit_max-less pf RegsFlag.u8_regs_flag max v = refl
limit_max-less pf RegsFlag.i8_regs_flag max v = refl
limit_max-less pf RegsFlag.u16_regs_flag max v = refl
limit_max-less pf RegsFlag.s16_regs_flag max v = refl
limit_max-less pf RegsFlag.time_regs_flag max v = refl
limit_max-less pf RegsFlag.u32_regs_flag max v = refl
limit_max-less pf RegsFlag.s32_regs_flag max v = refl
limit_max-less pf RegsFlag.int_regs_flag max v = refl
limit_max-less pf RegsFlag.float_regs_flag max v = refl
limit_max-less pf RegsFlag.u64_regs_flag max v = refl
limit_max-less pf RegsFlag.s64_regs_flag max v = refl
limit_max-less pf RegsFlag.double_regs_flag max v = refl
limit_max-less pf RegsFlag.no_flag max v = refl

limit_min-less :
    (pf : Platform) (type : RegsFlag) (min v : ℕ)
    → limit_min pf type min v ≡ (if less pf type v min then min else v)
unfolding limit_min less
limit_min-less pf RegsFlag.u8_regs_flag min v = refl
limit_min-less pf RegsFlag.i8_regs_flag min v = refl
limit_min-less pf RegsFlag.u16_regs_flag min v = refl
limit_min-less pf RegsFlag.s16_regs_flag min v = refl
limit_min-less pf RegsFlag.time_regs_flag min v = refl
limit_min-less pf RegsFlag.u32_regs_flag min v = refl
limit_min-less pf RegsFlag.s32_regs_flag min v = refl
limit_min-less pf RegsFlag.int_regs_flag min v = refl
limit_min-less pf RegsFlag.float_regs_flag min v = refl
limit_min-less pf RegsFlag.u64_regs_flag min v = refl
limit_min-less pf RegsFlag.s64_regs_flag min v = refl
limit_min-less pf RegsFlag.double_regs_flag min v = refl
limit_min-less pf RegsFlag.no_flag min v = refl

unsigned-AtMost : (a b : ℕ) → (ltb b a ≡ false) ↔ (a ≤ b)
unsigned-AtMost a b = (λ e. ground (arith, e), λ e. ground (arith, e))

-- The comparison of the code is that of the type.
less-AtMost :
    (pf : Platform) (type : RegsFlag) (a b : ℕ)
    → Fits type a
    → Fits type b
    → (less pf type b a ≡ false) ↔ AtMost pf type a b
unfolding less
less-AtMost pf RegsFlag.u8_regs_flag a b fa fb = unsigned-AtMost a b
less-AtMost pf RegsFlag.u16_regs_flag a b fa fb = unsigned-AtMost a b
less-AtMost pf RegsFlag.u32_regs_flag a b fa fb = unsigned-AtMost a b
less-AtMost pf RegsFlag.u64_regs_flag a b fa fb = unsigned-AtMost a b
less-AtMost pf RegsFlag.time_regs_flag a b fa fb = unsigned-AtMost a b
less-AtMost pf RegsFlag.i8_regs_flag a b fa fb = turned-SignedAtMost 0x80 a b fa fb
less-AtMost pf RegsFlag.s16_regs_flag a b fa fb = turned-SignedAtMost 0x8000 a b fa fb
less-AtMost pf RegsFlag.s32_regs_flag a b fa fb = turned-SignedAtMost 0x80000000 a b fa fb
less-AtMost pf RegsFlag.int_regs_flag a b fa fb = turned-SignedAtMost 0x80000000 a b fa fb
less-AtMost pf RegsFlag.s64_regs_flag a b fa fb = turned-SignedAtMost 0x8000000000000000 a b fa fb
less-AtMost pf RegsFlag.float_regs_flag a b fa fb = (λ e. e, λ e. e)
less-AtMost pf RegsFlag.double_regs_flag a b fa fb = (λ e. e, λ e. e)
less-AtMost pf RegsFlag.no_flag a b fa fb = (λ e. tt, λ e. refl)

-- The result of the limits is the operand or one of them.
limit-Fits :
    (pf : Platform) (m : Bytes) (t : RegsTemplate) (k v : ℕ)
    → IsBytes m
    → Fits t.desc.type v
    → Fits t.desc.type (limit pf m t k v)
unfolding limit
limit-Fits pf m t k v h fits =
    let n = regs_size_in_byte t.desc.type in
    let max = read_value-lt m (t.desc.p_max_value + k * n) n h in
    let min = read_value-lt m (t.desc.p_min_value + k * n) n h in
    let F = λ (x : ℕ). Fits t.desc.type x in
    let after =
      if-holds F (t.desc.p_max_value == 0) (λ e. fits)
        (λ e.
          rw (limit_max-less pf t.desc.type _ v)
            (if-holds F (less pf t.desc.type _ v) (λ e. max) (λ e. fits))) in
    if-holds F (t.desc.p_min_value == 0) (λ e. after)
      (λ e.
        rw (limit_min-less pf t.desc.type _ _)
          (if-holds F (less pf t.desc.type _ _) (λ e. min) (λ e. after)))

module _ (pf : Platform) (floats : (x : ℕ) → pf.float_lt x x ≡ false)
    (doubles : (x : ℕ) → pf.double_lt x x ≡ false) where
  less_irrefl : (type : RegsFlag) (x : ℕ) → less pf type x x ≡ false
  unfolding less
  less_irrefl RegsFlag.u8_regs_flag x = ltb_irrefl x
  less_irrefl RegsFlag.u16_regs_flag x = ltb_irrefl x
  less_irrefl RegsFlag.u32_regs_flag x = ltb_irrefl x
  less_irrefl RegsFlag.u64_regs_flag x = ltb_irrefl x
  less_irrefl RegsFlag.time_regs_flag x = ltb_irrefl x
  less_irrefl RegsFlag.i8_regs_flag x = ltb_irrefl _
  less_irrefl RegsFlag.s16_regs_flag x = ltb_irrefl _
  less_irrefl RegsFlag.s32_regs_flag x = ltb_irrefl _
  less_irrefl RegsFlag.int_regs_flag x = ltb_irrefl _
  less_irrefl RegsFlag.s64_regs_flag x = ltb_irrefl _
  less_irrefl RegsFlag.float_regs_flag x = floats x
  less_irrefl RegsFlag.double_regs_flag x = doubles x
  less_irrefl RegsFlag.no_flag x = refl

  limit_max-bound :
      (type : RegsFlag) (max v : ℕ) → less pf type max (limit_max pf type max v) ≡ false
  limit_max-bound type max v = elim (Bool-cases (less pf type max v)) [
    | inl e ↦ rw (limit_max-less pf type max v, e) (less_irrefl type max)
    | inr e ↦ rw (limit_max-less pf type max v, e) e
  ]

  -- The minimum bounds the result, and it keeps to a maximum that is no less than the minimum.
  limit_min-bounds :
      (type : RegsFlag) (max min v : ℕ)
      → less pf type max min ≡ false
      → less pf type max v ≡ false
      → less pf type max (limit_min pf type min v) ≡ false
        × less pf type (limit_min pf type min v) min ≡ false
  limit_min-bounds type max min v ordered below = elim (Bool-cases (less pf type v min)) [
    | inl e ↦ rw (limit_min-less pf type min v, e) (ordered, less_irrefl type min)
    | inr e ↦ rw (limit_min-less pf type min v, e) (below, e)
  ]

  limit-less :
      (m : Bytes) (t : RegsTemplate) (k v : ℕ)
      → t.desc.p_max_value ≢ 0
      → t.desc.p_min_value ≢ 0
      → less pf t.desc.type (maximum m t k) (minimum m t k) ≡ false
      → let r = limit pf m t k v in
        less pf t.desc.type (maximum m t k) r ≡ false
        × less pf t.desc.type r (minimum m t k) ≡ false
        × (less pf t.desc.type (maximum m t k) v ≡ false
            → less pf t.desc.type v (minimum m t k) ≡ false
            → r ≡ v)
  unfolding limit
  limit-less m t k v has_max has_min ordered =
      let e : (t.desc.p_max_value == 0) ≡ false = ground arith in
      let f : (t.desc.p_min_value == 0) ≡ false = ground arith in
      let below = limit_max-bound t.desc.type (maximum m t k) v in
      let (upper, lower) =
        limit_min-bounds t.desc.type (maximum m t k) (minimum m t k) _ ordered below in
      rw (e, f)
        (
          upper,
          lower,
          λ not_above not_below. rw (limit_max-less, not_above, limit_min-less, not_below) refl,
        )

  -- A register with a maximum and a minimum no greater than it: the operand, a word of the register's
  -- type, is put between them, in the order of its type, and an operand between them stays as it is. The
  -- order is that of the numbers for the unsigned types, of two's complement for the signed ones, and
  -- of the platform's comparison for float and double, by which no value is less than itself.
  pub limit-bounds :
      (m : Bytes) (t : RegsTemplate) (k v : ℕ)
      → IsBytes m
      → Fits t.desc.type v
      → t.desc.p_max_value ≢ 0
      → t.desc.p_min_value ≢ 0
      → AtMost pf t.desc.type (minimum m t k) (maximum m t k)
      → let r = limit pf m t k v in
        AtMost pf t.desc.type r (maximum m t k)
        × AtMost pf t.desc.type (minimum m t k) r
        × (AtMost pf t.desc.type v (maximum m t k)
            → AtMost pf t.desc.type (minimum m t k) v
            → r ≡ v)
  limit-bounds m t k v bytes fits has_max has_min ordered =
      let n = regs_size_in_byte t.desc.type in
      let max : Fits t.desc.type (maximum m t k) =
        read_value-lt m (t.desc.p_max_value + k * n) n bytes in
      let min : Fits t.desc.type (minimum m t k) =
        read_value-lt m (t.desc.p_min_value + k * n) n bytes in
      let result = limit-Fits pf m t k v bytes fits in
      let order = λ (a b : ℕ) (fa : Fits t.desc.type a) (fb : Fits t.desc.type b).
        less-AtMost pf t.desc.type a b fa fb in
      let (upper, lower, kept) =
        limit-less m t k v has_max has_min ((order _ _ min max).1 ordered) in
      (
        (order _ _ result max).0 upper,
        (order _ _ min result).0 lower,
        λ above below. kept ((order _ _ fits max).1 above) ((order _ _ min fits).1 below),
      )
