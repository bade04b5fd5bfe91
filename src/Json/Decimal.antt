-- ===== src/Json/Decimal.antt =====
-- Decimal numbers are read back as they were printed: the answers and the requests of
-- main/http/json.c.
use native.Mathlib.Nat.{pow-suc}
use esp32_template.Base.{
  ℕ, zero, suc, ◌+◌, ◌-◌, ◌*◌, ◌/◌, ◌%◌, ◌^◌, ◌<◌, ◌≡◌, refl, ap, ◌∙◌, arith, Bool, true, false,
  ◌&&◌, ◌||◌, [], ◌∷◌, ◌++◌, leb, ◌==◌, if-holds,
}
use esp32_template.Description.{RegsFlag}
use esp32_template.Json.Answer.{digits_loop, decimal}
use esp32_template.Json.Request.{Floats, json_get_elements}
use esp32_template.Json.Strings.{
  Text, isdigit, scan_digits, skip_blanks, scan_signed, atoi, strtol, strtoll, strtoul, strtoull,
}

-- No digit stands in front.
abbrev pub Ends : Text → Type 0
Ends [] = Unit {0}
Ends (c ∷ s) = isdigit c ≡ false

abbrev pub AllDigits : Text → Type 0
AllDigits [] = Unit {0}
AllDigits (c ∷ s) = (isdigit c ≡ true) × AllDigits s

scan_digits-Ends : (n : ℕ) (t : Text) → Ends t → scan_digits n t ≡ (n, t)
unfolding scan_digits
scan_digits-Ends n [] e = refl
scan_digits-Ends n (c ∷ s) e = rw e refl

scan_digit :
    (n d : ℕ) (s : Text) → d < 10 → scan_digits n ((b'0' + d) ∷ s) ≡ scan_digits (n * 10 + d) s
unfolding scan_digits
scan_digit n d s h =
    let digit : isdigit (b'0' + d) ≡ true = ground arith in
    let same : n * 10 + (b'0' + d - b'0') ≡ n * 10 + d = omega arith in rw (digit, same) refl

scan-digits_loop :
    (places n : ℕ) (out t : Text)
    → n < 10 ^ places
    → scan_digits 0 (digits_loop places n out ++ t) ≡ scan_digits n (out ++ t)
unfolding digits_loop
scan-digits_loop zero n out t h = let none_left : n ≡ 0 = omega arith in rw none_left refl
scan-digits_loop (suc places) n out t h =
    let rest =
      scan-digits_loop places (n / 10) ((b'0' + n % 10) ∷ out) t
        (omega (arith, pow-suc 10 places)) in
    let last = scan_digit (n / 10) (n % 10) (out ++ t) (omega arith) in
    let whole : n / 10 * 10 + n % 10 ≡ n = omega arith in
    if-holds (λ text. scan_digits 0 (text ++ t) ≡ scan_digits n (out ++ t)) (n / 10 == 0)
      (λ e.
        scan_digit 0 (n % 10) (out ++ t) (omega arith)
        ∙ ap (λ k. scan_digits k (out ++ t)) (ground arith))
      λ e. rest ∙ last ∙ ap (λ k. scan_digits k (out ++ t)) whole

AllDigits-digits_loop :
    (places n : ℕ) (out : Text) → AllDigits out → AllDigits (digits_loop places n out)
unfolding digits_loop
AllDigits-digits_loop zero n out p = p
AllDigits-digits_loop (suc places) n out p =
    let digit : isdigit (b'0' + n % 10) ≡ true = ground arith in
    if-holds AllDigits (n / 10 == 0) (λ e. (digit, p))
      λ e. AllDigits-digits_loop places (n / 10) ((b'0' + n % 10) ∷ out) (digit, p)

-- A digit stands in front.
abbrev pub Starts : Text → Type 0
Starts s = (c : ℕ) × ((rest : Text) × (s ≡ c ∷ rest × isdigit c ≡ true))

Starts-digits_loop :
    (places n c : ℕ) (s : Text) → isdigit c ≡ true → Starts (digits_loop places n (c ∷ s))
unfolding digits_loop
Starts-digits_loop zero n c s p = (c, (s, (refl, p)))
Starts-digits_loop (suc places) n c s p =
    let digit : isdigit (b'0' + n % 10) ≡ true = ground arith in
    if-holds Starts (n / 10 == 0) (λ e. (b'0' + n % 10, (c ∷ s, (refl, digit))))
      λ e. Starts-digits_loop places (n / 10) (b'0' + n % 10) (c ∷ s) digit

pub decimal-Starts : (n : ℕ) → Starts (decimal n)
unfolding decimal digits_loop
decimal-Starts n =
    let digit : isdigit (b'0' + n % 10) ≡ true = ground arith in
    if-holds Starts (n / 10 == 0) (λ e. (b'0' + n % 10, ([], (refl, digit))))
      λ e. Starts-digits_loop 19 (n / 10) (b'0' + n % 10) [] digit

pub decimal-AllDigits : (n : ℕ) → AllDigits (decimal n)
unfolding decimal
decimal-AllDigits n = AllDigits-digits_loop 20 n [] tt

scan-decimal : (n : ℕ) (t : Text) → n < 10 ^ 20 → Ends t → scan_digits 0 (decimal n ++ t) ≡ (n, t)
unfolding decimal
scan-decimal n t h e = scan-digits_loop 20 n [] t h ∙ scan_digits-Ends n t e

-- A number that starts with a digit has no sign.
scan_signed-Starts :
    (c : ℕ) (s : Text)
    → isdigit c ≡ true
    → scan_signed (skip_blanks (c ∷ s))
      ≡ (false, (scan_digits 0 (c ∷ s)).0, (scan_digits 0 (c ∷ s)).1)
unfolding scan_signed skip_blanks
scan_signed-Starts c s p =
    let ink : ((c == b' ') || (leb 9 c && leb c 13)) ≡ false = ground arith in
    let no_minus : (c == b'-') ≡ false = ground arith in
    let no_plus : (c == b'+') ≡ false = ground arith in rw (ink, no_minus, no_plus) refl

pub scan_signed-decimal :
    (n : ℕ) (t : Text)
    → n < 10 ^ 20
    → Ends t
    → scan_signed (skip_blanks (decimal n ++ t)) ≡ (false, n, t)
scan_signed-decimal n t h e =
    let (c, (s, (same, p))) = decimal-Starts n in
    let text : decimal n ++ t ≡ c ∷ (s ++ t) = ap (λ x. x ++ t) same in
    let read : scan_digits 0 (c ∷ (s ++ t)) ≡ (n, t) = rw text at (scan-decimal n t h e) in
    rw text (
      scan_signed-Starts c (s ++ t) p
      ∙ ap {B = Bool × ℕ × Text} (λ (r : ℕ × Text). (false, r.0, r.1)) read)

-- The integers that are read for a type as they stand; for a type that is none or has fractions none
abbrev pub number_limit : RegsFlag → ℕ
number_limit RegsFlag.u8_regs_flag = 2 ^ 32
number_limit RegsFlag.u16_regs_flag = 2 ^ 32
number_limit RegsFlag.u32_regs_flag = 2 ^ 32
number_limit RegsFlag.time_regs_flag = 2 ^ 32
number_limit RegsFlag.u64_regs_flag = 2 ^ 64
number_limit RegsFlag.i8_regs_flag = 2 ^ 63
number_limit RegsFlag.s16_regs_flag = 2 ^ 63
number_limit RegsFlag.s32_regs_flag = 2 ^ 63
number_limit RegsFlag.int_regs_flag = 2 ^ 63
number_limit RegsFlag.s64_regs_flag = 2 ^ 63
number_limit RegsFlag.float_regs_flag = 0
number_limit RegsFlag.double_regs_flag = 0
number_limit RegsFlag.no_flag = 0

strtoll-decimal : (n : ℕ) (t : Text) → n < 2 ^ 63 → Ends t → strtoll (decimal n ++ t) ≡ n
unfolding strtoll
strtoll-decimal n t h e =
    let read = scan_signed-decimal n t (omega arith) e in rw (read, strtoll) (ground arith)

strtoul-decimal : (n : ℕ) (t : Text) → n < 2 ^ 32 → Ends t → strtoul (decimal n ++ t) ≡ n
unfolding strtoul
strtoul-decimal n t h e =
    let read = scan_signed-decimal n t (omega arith) e in rw (read, strtoul) (ground arith)

strtoull-decimal : (n : ℕ) (t : Text) → n < 2 ^ 64 → Ends t → strtoull (decimal n ++ t) ≡ n
unfolding strtoull
strtoull-decimal n t h e =
    let read = scan_signed-decimal n t (omega arith) e in rw (read, strtoull) (ground arith)

pub atoi-decimal : (n : ℕ) (t : Text) → n < 2 ^ 31 → Ends t → atoi (decimal n ++ t) ≡ n
unfolding strtol
atoi-decimal n t h e =
    let read = scan_signed-decimal n t (omega arith) e in rw (read, strtol) (ground arith)

-- An integer of a register's type that is printed in decimal is read back.
pub json_get_elements-decimal :
    (fl : Floats) (type : RegsFlag) (n : ℕ) (t : Text)
    → n < number_limit type
    → Ends t
    → json_get_elements fl (decimal n ++ t) type ≡ n
unfolding json_get_elements
json_get_elements-decimal fl RegsFlag.u8_regs_flag n t h e = strtoul-decimal n t h e
json_get_elements-decimal fl RegsFlag.u16_regs_flag n t h e = strtoul-decimal n t h e
json_get_elements-decimal fl RegsFlag.u32_regs_flag n t h e = strtoul-decimal n t h e
json_get_elements-decimal fl RegsFlag.time_regs_flag n t h e = strtoul-decimal n t h e
json_get_elements-decimal fl RegsFlag.u64_regs_flag n t h e = strtoull-decimal n t h e
json_get_elements-decimal fl RegsFlag.i8_regs_flag n t h e = strtoll-decimal n t h e
json_get_elements-decimal fl RegsFlag.s16_regs_flag n t h e = strtoll-decimal n t h e
json_get_elements-decimal fl RegsFlag.s32_regs_flag n t h e = strtoll-decimal n t h e
json_get_elements-decimal fl RegsFlag.int_regs_flag n t h e = strtoll-decimal n t h e
json_get_elements-decimal fl RegsFlag.s64_regs_flag n t h e = strtoll-decimal n t h e
json_get_elements-decimal fl RegsFlag.float_regs_flag n t h e = absurd (omega arith)
json_get_elements-decimal fl RegsFlag.double_regs_flag n t h e = absurd (omega arith)
json_get_elements-decimal fl RegsFlag.no_flag n t h e = absurd (omega arith)
