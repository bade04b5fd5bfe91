-- ===== src/Json/Strings.antt =====
-- The functions of the C library that main/http/json.c calls on its strings. A string is the list
-- of the bytes in front of its NUL.
use Prim.Native.Char.{code}
use Prim.Native.String.{String}
use esp32_template.Base.{
  ℕ, ◌+◌, ◌-◌, ◌*◌, ◌%◌, ◌^◌, Bool, true, false, ◌&&◌, ◌||◌, Option, none, some, List, [], ◌∷◌, ltb,
  leb, ◌==◌, if◌then◌else◌,
}

abbrev pub Text : Type 0
Text = List ℕ

abbrev pub codes : String → Text
codes String.[] = []
codes (String.◌∷◌ c s) = code c ∷ codes s

-- `strchr`: what stands before the first such byte and what stands behind it; `none` is NULL.
abbrev before : ℕ → Option (Text × Text) → Option (Text × Text)
before x none = none
before x (some (front, back)) = some (x ∷ front, back)

unfoldable pub strchr : ℕ → Text → Option (Text × Text)
strchr c [] = none
strchr c (x ∷ s) = let rest = strchr c s in if x == c then some ([], s) else before x rest

-- `strncmp(text, s, strlen(s)) == 0`
unfoldable pub begins_with : Text → Text → Bool
begins_with [] text = true
begins_with (c ∷ s) [] = false
begins_with (c ∷ s) (x ∷ text) = let rest = begins_with s text in x == c && rest

-- `strstr`: the text from the first place on where `s` stands; `none` is NULL.
unfoldable pub strstr : Text → Text → Option Text
unfolding begins_with
strstr s [] = if begins_with s [] then some [] else none
strstr s (x ∷ text) =
    let rest = strstr s text in if begins_with s (x ∷ text) then some (x ∷ text) else rest

-- `strcmp(a, b) == 0`
unfoldable pub strcmp_same : Text → Text → Bool
strcmp_same [] [] = true
strcmp_same (x ∷ a) (y ∷ b) = let rest = strcmp_same a b in x == y && rest
strcmp_same _ _ = false

abbrev pub isdigit : ℕ → Bool
isdigit c = leb b'0' c && leb c b'9'

-- The digits in front: the number that they continue, and what stands behind them
unfoldable pub scan_digits : ℕ → Text → ℕ × Text
scan_digits n [] = (n, [])
scan_digits n (c ∷ s) =
    let rest = scan_digits (n * 10 + (c - b'0')) s in if isdigit c then rest else (n, c ∷ s)

-- The blanks of `isspace` in front are skipped.
unfoldable pub skip_blanks : Text → Text
skip_blanks [] = []
skip_blanks (c ∷ s) =
    let rest = skip_blanks s in if (c == b' ') || (leb 9 c && leb c 13) then rest else c ∷ s

-- Without a digit the number is 0.
unfoldable pub scan_signed : Text → Bool × ℕ × Text
unfolding scan_digits
scan_signed [] = (false, 0, [])
scan_signed (c ∷ s) =
    let (n, back) = scan_digits 0 s in
    let (n', back') = scan_digits 0 (c ∷ s) in
    if c == b'-'
    then (true, n, back)
    else if c == b'+'
    then (false, n, back)
    else (false, n', back')

abbrev min : ℕ → ℕ → ℕ
min a b = if ltb a b then a else b

-- A result of a signed function of `w` bits, as a two's complement number of 64 bits; out of range
-- it is the least or the greatest.
abbrev pub signed_result : ℕ → Bool → ℕ → ℕ
signed_result w true n = (2 ^ 64 - min n (2 ^ (w - 1))) % 2 ^ 64
signed_result w false n = min n (2 ^ (w - 1) - 1)

-- A result of an unsigned function of `w` bits; a number with `-` is negated modulo 2^w.
abbrev pub unsigned_result : ℕ → Bool → ℕ → ℕ
unsigned_result w negative n =
    if ltb (2 ^ w - 1) n then 2 ^ w - 1 else if negative then (2 ^ w - n) % 2 ^ w else n

-- `strtol(s, &p, 10)`, with the place behind the number; `long` has 32 bits.
unfoldable pub strtol : Text → ℕ × Text
strtol s =
    let (negative, n, back) = scan_signed (skip_blanks s) in (signed_result 32 negative n, back)

-- `atoi`, which newlib defines by `strtol`
abbrev pub atoi : Text → ℕ
atoi s = (strtol s).0

unfoldable pub strtoll : Text → ℕ
strtoll s = let (negative, n, back) = scan_signed (skip_blanks s) in signed_result 64 negative n

unfoldable pub strtoul : Text → ℕ
strtoul s = let (negative, n, back) = scan_signed (skip_blanks s) in unsigned_result 32 negative n

unfoldable pub strtoull : Text → ℕ
strtoull s = let (negative, n, back) = scan_signed (skip_blanks s) in unsigned_result 64 negative n
