-- ===== src/Base/Bits.antt =====
-- Exclusive or at variables: its lowest digit apart, and what follows for cancelling, for the size
-- of the result and for the low byte.
use Prim.Native.Nat.{ℕ, zero, suc, ◌+◌, ◌-◌, ◌*◌, ◌/◌, ◌%◌, ◌^◌, ◌≤◌, ◌<◌, digits, differ, max}
use Prim.Native.Nat.{bit_xor, bit_xor-bitwise, bit_or, bit_or-bitwise}
use mathlib.Core.Path.{◌≡◌, refl, sym, ap, ◌∙◌}
use native.Mathlib.Nat.{le_refl, pow-suc}
use native.Mathlib.Omega.{arith}

-- The digits of an exclusive or, with fuel for the first operand
abbrev xor_digits : ℕ → ℕ → ℕ → ℕ
xor_digits fuel x y = digits (λ b. b) differ fuel x y

-- Fuel beyond the operand's size changes nothing.
spare_fuel : (x y fuel extra : ℕ) → x ≤ fuel → xor_digits (fuel + extra) x y ≡ xor_digits fuel x y
spare_fuel zero y (suc fuel) extra enough =
    let total : suc fuel + extra ≡ suc (fuel + extra) = omega arith in rw total refl
spare_fuel zero y zero (suc extra) enough =
    let total : 0 + suc extra ≡ suc extra = omega arith in rw total refl
spare_fuel zero y zero zero enough = refl
spare_fuel (suc x) y zero extra enough = absurd (omega arith)
spare_fuel (suc x) y (suc fuel) extra enough =
    let total : suc fuel + extra ≡ suc (fuel + extra) = omega arith in
    let halved = spare_fuel (suc x / 2) (y / 2) fuel extra (omega arith) in rw (total, halved) refl

half_fuel : (x y : ℕ) → xor_digits x (suc x / 2) y ≡ xor_digits (suc x / 2) (suc x / 2) y
half_fuel x y =
    let half = suc x / 2 in
    let total : half + (x - half) ≡ x = omega arith in
    ap (λ fuel. xor_digits fuel half y) (sym total)
    ∙ spare_fuel half y half (x - half) (le_refl half)

-- The exclusive or of two digits, as a sum.
pub differ_sum : (x y : ℕ) → x < 2 → y < 2 → differ x y ≡ (x + y) % 2
differ_sum zero y p q = omega arith
differ_sum (suc zero) zero p q = omega arith
differ_sum (suc zero) (suc zero) p q = omega arith
differ_sum (suc zero) (suc (suc y)) p q = absurd (omega arith)
differ_sum (suc (suc x)) y p q = absurd (omega arith)

-- The lowest digit of an exclusive or is the sum of the lowest digits without carry.
pub bit_xor_step : (a b : ℕ) → bit_xor a b ≡ bit_xor (a / 2) (b / 2) * 2 + (a % 2 + b % 2) % 2
bit_xor_step zero b = omega (arith, bit_xor-bitwise 0 b, bit_xor-bitwise 0 (b / 2))
bit_xor_step (suc a) b = omega (
  arith,
  bit_xor-bitwise (suc a) b,
  bit_xor-bitwise (suc a / 2) (b / 2),
  half_fuel a (b / 2),
  differ_sum (suc a % 2) (b % 2) (omega arith) (omega arith),
)

pub zero-bit_xor : (b : ℕ) → bit_xor 0 b ≡ b
zero-bit_xor b = bit_xor-bitwise 0 b

-- Applied twice, the exclusive or by the same number is undone.
bit_xor-cancel_fuel : (n a b : ℕ) → a ≤ n → bit_xor a (bit_xor a b) ≡ b
bit_xor-cancel_fuel n zero b h = rw (zero-bit_xor (bit_xor 0 b), zero-bit_xor b)
bit_xor-cancel_fuel zero (suc a) b h = absurd (omega arith)
bit_xor-cancel_fuel (suc n) (suc a) b h = ground (
  arith,
  bit_xor_step (suc a) b,
  bit_xor_step (suc a) (bit_xor (suc a) b),
  bit_xor-cancel_fuel n (suc a / 2) (b / 2) (omega arith),
)

pub bit_xor-cancel : (a b : ℕ) → bit_xor a (bit_xor a b) ≡ b
bit_xor-cancel a b = bit_xor-cancel_fuel a a b (le_refl a)

bit_xor_comm_fuel : (n a b : ℕ) → a + b ≤ n → bit_xor a b ≡ bit_xor b a
bit_xor_comm_fuel zero a b h =
    let e : a ≡ 0 = omega arith in let f : b ≡ 0 = omega arith in rw (e, f)
bit_xor_comm_fuel (suc n) zero zero h = refl
bit_xor_comm_fuel (suc n) zero (suc b) h = ground (
  arith,
  bit_xor_step 0 (suc b),
  bit_xor_step (suc b) 0,
  bit_xor_comm_fuel n 0 (suc b / 2) (omega arith),
)
bit_xor_comm_fuel (suc n) (suc a) b h = ground (
  arith,
  bit_xor_step (suc a) b,
  bit_xor_step b (suc a),
  bit_xor_comm_fuel n (suc a / 2) (b / 2) (omega arith),
)

pub bit_xor_comm : (a b : ℕ) → bit_xor a b ≡ bit_xor b a
bit_xor_comm a b = bit_xor_comm_fuel (a + b) a b (le_refl (a + b))

-- Two numbers of at most `k` digits have an exclusive or of at most `k` digits.
pub bit_xor-lt : (k a b : ℕ) → a < 2 ^ k → b < 2 ^ k → bit_xor a b < 2 ^ k
bit_xor-lt zero a b p q =
    let e : a ≡ 0 = omega arith in let f : b ≡ 0 = omega arith in rw (e, f) (omega arith)
bit_xor-lt (suc k) a b p q = ground (
  arith,
  pow-suc 2 k,
  bit_xor_step a b,
  bit_xor-lt k (a / 2) (b / 2) (omega (arith, pow-suc 2 k)) (omega (arith, pow-suc 2 k)),
)

-- The low byte of a word is removed by an exclusive or with it.
pub bit_xor_low : (k h l : ℕ) → l < 2 ^ k → bit_xor (h * 2 ^ k + l) l ≡ h * 2 ^ k
bit_xor_low zero h l p =
    let e : l ≡ 0 = omega arith in rw (e, bit_xor_comm) (rw zero-bit_xor (omega arith))
bit_xor_low (suc k) h l p = ground (
  arith,
  pow-suc 2 k,
  ap (λ (t : ℕ). h * t) (pow-suc 2 k),
  bit_xor_step (h * 2 ^ suc k + l) l,
  bit_xor_low k h (l / 2) (omega (arith, pow-suc 2 k)),
)

abbrev or_digits : ℕ → ℕ → ℕ → ℕ
or_digits fuel x y = digits (λ b. b) max fuel x y

max_zero : (x : ℕ) → max x 0 ≡ x
max_zero x = omega arith

or_digits-zero : (fuel a : ℕ) → a ≤ fuel → or_digits fuel a 0 ≡ a
or_digits-zero fuel zero h = digits_done fuel
  where
    digits_done : (fuel : ℕ) → or_digits fuel 0 0 ≡ 0
    digits_done zero = refl
    digits_done (suc fuel) = refl
or_digits-zero zero (suc a) h = absurd (omega arith)
or_digits-zero (suc fuel) (suc a) h =
    omega (arith, or_digits-zero fuel (suc a / 2) (omega arith), max_zero (suc a % 2))

or_digits-low :
    (k fuel a h l : ℕ) → a ≤ fuel → a ≡ h * 2 ^ k → l < 2 ^ k → or_digits fuel a l ≡ a + l
or_digits-low zero fuel a h l enough e p =
    let z : l ≡ 0 = omega arith in rw z (or_digits-zero fuel a enough ∙ omega arith)
or_digits-low (suc k) zero zero h l enough e p = omega arith
or_digits-low (suc k) (suc fuel) zero h l enough e p = omega arith
or_digits-low (suc k) zero (suc a) h l enough e p = absurd (omega arith)
or_digits-low (suc k) (suc fuel) (suc a) h l enough e p =
    let two_k = pow-suc 2 k in
    let half : suc a ≡ (h * 2 ^ k) * 2 = e ∙ ap (λ (t : ℕ). h * t) two_k ∙ omega arith in
    let even : suc a % 2 ≡ 0 = omega arith in
    let rest =
      or_digits-low k fuel (suc a / 2) h (l / 2) (omega arith) (omega arith)
        (omega (arith, two_k)) in
    rw (even, rest) (omega arith)

-- Two bytes are joined to a word by an or.
pub bit_or_bytes : (h l : ℕ) → l < 256 → bit_or (h * 256) l ≡ h * 256 + l
bit_or_bytes h l p =
    bit_or-bitwise (h * 256) l ∙ or_digits-low 8 (h * 256) (h * 256) h l (le_refl (h * 256)) refl p
