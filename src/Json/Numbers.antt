-- ===== src/Json/Numbers.antt =====
-- What `json_get_msg_type` and the loops of main/http/json.c make of decimal numbers.
use mathlib.Core.List.{append_assoc}
use esp32_template.Base.{
  ℕ, ◌<◌, ◌≡◌, refl, arith, Bool, true, false, not, ◌&&◌, none, some, List, [], ◌∷◌, ◌++◌, ◌==◌,
  Bool-cases, inl, inr,
}
use esp32_template.Json.{JsonMsg, json_get_msg_type, scalar_type, last_or}
use esp32_template.Json.Answer.{decimal}
use esp32_template.Json.Decimal.{AllDigits, Starts, decimal-Starts, decimal-AllDigits}
use esp32_template.Json.Marks.{is_mark, Plain, joined, AllPlain, Lacks, strchr-Lacks-none}
use esp32_template.Json.Request.{skip_while}
use esp32_template.Json.Strings.{Text, isdigit, strchr}

-- A byte that is no digit stands in no number.
pub Lacks-AllDigits : (c : ℕ) (s : Text) → isdigit c ≡ false → AllDigits s → Lacks c s
Lacks-AllDigits c [] other p = tt
Lacks-AllDigits c (x ∷ s) other (px, ps) = (ground arith, Lacks-AllDigits c s other ps)

pub Plain-AllDigits : (s : Text) → AllDigits s → Plain s
unfolding is_mark
Plain-AllDigits [] p = tt
Plain-AllDigits (x ∷ s) (px, ps) = (ground arith, Plain-AllDigits s ps)

abbrev pub decimals : List ℕ → List Text
decimals [] = []
decimals (v ∷ vs) = decimal v ∷ decimals vs

pub decimals-AllPlain : (vs : List ℕ) → AllPlain (decimals vs)
decimals-AllPlain [] = tt
decimals-AllPlain (v ∷ vs) =
    (Plain-AllDigits (decimal v) (decimal-AllDigits v), decimals-AllPlain vs)

-- A number keeps its digits where quotes, brackets or blanks are skipped.
pub skip_while-Starts :
    (p : ℕ → Bool) (s t : Text)
    → ((c : ℕ) → isdigit c ≡ true → p c ≡ false)
    → Starts s
    → skip_while p (s ++ t) ≡ s ++ t
unfolding skip_while
skip_while-Starts p s t digits (c, (rest, (e, d))) = let stays = digits c d in rw e (rw stays refl)

-- Whether all bytes are plain, for texts that are given
abbrev all_plain : Text → Bool
all_plain [] = true
all_plain (c ∷ s) = not (is_mark c) && all_plain s

pub Plain-all_plain : (s : Text) → all_plain s ≡ true → Plain s
Plain-all_plain [] e = tt
Plain-all_plain (c ∷ s) e = elim (Bool-cases (is_mark c)) [
  | inl mark ↦ absurd (ground arith)
  | inr plain ↦ (plain, Plain-all_plain s (rw plain at e))
]

last_or-append : (c d : ℕ) (s : Text) → last_or c (s ++ d ∷ []) ≡ d
last_or-append c d [] = refl
last_or-append c d (x ∷ s) = last_or-append x d s

-- What stands in brackets is an array.
pub type_array :
    (s : Text)
    → json_get_msg_type (b'[' ∷ (s ++ b']' ∷ []))
      ≡ some (b'[' ∷ (s ++ b']' ∷ []), JsonMsg.array_json)
unfolding json_get_msg_type
type_array s = let last = last_or-append b'[' b']' s in rw (last, json_get_msg_type) refl

scalar_type-decimal : (n : ℕ) → scalar_type (decimal n) ≡ JsonMsg.number_json
unfolding scalar_type
scalar_type-decimal n =
    let (c, (rest, (e, d))) = decimal-Starts n in
    let whole =
      strchr-Lacks-none b'.' (decimal n)
        (Lacks-AllDigits b'.' (decimal n) refl (decimal-AllDigits n)) in
    let no_dot : strchr b'.' (c ∷ rest) ≡ none = rw e at whole in
    rw e (rw (d, no_dot, scalar_type) refl)

pub type_decimal : (n : ℕ) → json_get_msg_type (decimal n) ≡ some (decimal n, JsonMsg.number_json)
unfolding json_get_msg_type
type_decimal n =
    let (c, (rest, (e, d))) = decimal-Starts n in
    let number : scalar_type (c ∷ rest) ≡ JsonMsg.number_json = rw e at (scalar_type-decimal n) in
    let no_quote : (c == b'"') ≡ false = ground arith in
    let no_bracket : (c == b'[') ≡ false = ground arith in
    rw e (rw (no_quote, no_bracket, number, json_get_msg_type) refl)

-- The first number stands in front.
pub first_number :
    (w : ℕ) (vs : List ℕ)
    → (tail : Text) × (joined b';' (decimals (w ∷ vs)) ++ b']' ∷ [] ≡ decimal w ++ tail)
first_number w [] = (b']' ∷ [], refl)
first_number w (v ∷ vs) =
    (b';' ∷ (joined b';' (decimals (v ∷ vs)) ++ b']' ∷ []), append_assoc (decimal w) _ (b']' ∷ []))

abbrev pub AllBelow : ℕ → List ℕ → Type 0
AllBelow limit [] = Unit {0}
AllBelow limit (v ∷ vs) = (v < limit) × AllBelow limit vs
