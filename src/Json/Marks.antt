-- ===== src/Json/Marks.antt =====
-- How requests of main/http/json.c are printed, and what the loops of `json_parse` find in one value.
use mathlib.Core.List.{append_assoc}
use esp32_template.Base.{
  ℕ, ◌≡◌, refl, arith, inl, inr, Bool, true, false, ◌||◌, Option, none, some, List, [], ◌∷◌, ◌++◌,
  ◌==◌, ==_iff, Bool-cases,
}
use esp32_template.Json.{Pair, on_rest, mark_commas, mark_array}
use esp32_template.Json.Strings.{Text, strchr}

-- The bytes that structure a request
unfoldable pub is_mark : ℕ → Bool
is_mark c = (c == b',') || (c == b':') || (c == b'[') || (c == b']') || (c == b'}')

abbrev pub Plain : Text → Type 0
Plain [] = Unit {0}
Plain (c ∷ s) = (is_mark c ≡ false) × Plain s

pub data Value : Type 0 where
  scalar : Text → Value
  array : List Text → Value

pub record Entry : Type 0 where
  pub name : Text
  pub value : Value

-- The elements with a separator between them
abbrev pub joined : ℕ → List Text → Text
joined sep [] = []
joined sep (e ∷ []) = e
joined sep (e ∷ f ∷ es) = e ++ sep ∷ joined sep (f ∷ es)

abbrev pub value_text : ℕ → Value → Text
value_text sep (scalar t) = t
value_text sep (array es) = b'[' ∷ joined sep es ++ b']' ∷ []

abbrev pub print : List Entry → Text
print [] = []
print (e ∷ []) = e.name ++ b':' ∷ value_text b',' e.value
print (e ∷ f ∷ es) = e.name ++ b':' ∷ (value_text b',' e.value ++ b',' ∷ print (f ∷ es))

-- What is read: an array's elements are separated by `;`.
abbrev pub as_pairs : List Entry → List Pair
as_pairs [] = []
as_pairs (e ∷ es) = record { param = e.name; value = value_text b';' e.value } ∷ as_pairs es

abbrev pub AllPlain : List Text → Type 0
AllPlain [] = Unit {0}
AllPlain (e ∷ es) = Plain e × AllPlain es

abbrev pub PlainValue : Value → Type 0
PlainValue (scalar t) = Plain t
PlainValue (array es) = AllPlain es

abbrev pub PlainEntries : List Entry → Type 0
PlainEntries [] = Unit {0}
PlainEntries (e ∷ es) = Plain e.name × PlainValue e.value × PlainEntries es

pub not_mark : (x c : ℕ) → is_mark x ≡ false → is_mark c ≡ true → (x == c) ≡ false
not_mark x c p m = elim (Bool-cases (x == c)) [
  | inl e ↦ let same = (==_iff x c).0 e in absurd (cc (p, m, same))
  | inr e ↦ e
]

abbrev pub Lacks : ℕ → Text → Type 0
Lacks c [] = Unit {0}
Lacks c (x ∷ s) = ((x == c) ≡ false) × Lacks c s

pub Lacks-append : (c : ℕ) (s t : Text) → Lacks c s → Lacks c t → Lacks c (s ++ t)
Lacks-append c [] t p q = q
Lacks-append c (x ∷ s) t (px, ps) q = (px, Lacks-append c s t ps q)

pub Plain-Lacks : (c : ℕ) (s : Text) → is_mark c ≡ true → Plain s → Lacks c s
Plain-Lacks c [] m p = tt
Plain-Lacks c (x ∷ s) m (px, ps) = (not_mark x c px m, Plain-Lacks c s m ps)

-- The first such byte is found.
pub strchr-Lacks : (c : ℕ) (s t : Text) → Lacks c s → strchr c (s ++ c ∷ t) ≡ some (s, t)
unfolding strchr
strchr-Lacks c [] t p = ground arith
strchr-Lacks c (x ∷ s) t (px, ps) = let rest = strchr-Lacks c s t ps in rw (px, rest) refl

pub strchr-Lacks-none : (c : ℕ) (s : Text) → Lacks c s → strchr c s ≡ none
unfolding strchr
strchr-Lacks-none c [] p = refl
strchr-Lacks-none c (x ∷ s) (px, ps) = let rest = strchr-Lacks-none c s ps in rw (px, rest) refl

abbrev pub onto : Text → Option Text → Option Text
onto s none = none
onto s (some t) = some (s ++ t)

on_rest-onto : (c : ℕ) (s : Text) (o : Option Text) → on_rest c (onto s o) ≡ onto (c ∷ s) o
on_rest-onto c s none = refl
on_rest-onto c s (some t) = refl

onto-nil : (o : Option Text) → o ≡ onto [] o
onto-nil none = refl
onto-nil (some t) = refl

pub mark_array-Plain : (s t : Text) → Plain s → mark_array (s ++ t) ≡ onto s (mark_array t)
unfolding mark_array is_mark
mark_array-Plain [] t p = onto-nil (mark_array t)
mark_array-Plain (x ∷ s) t (px, ps) =
    let no_bracket = not_mark x b'[' px refl in
    let no_colon = not_mark x b':' px refl in
    let rest = mark_array-Plain s t ps in
    rw (no_bracket, no_colon, rest) (on_rest-onto x s (mark_array t))

mark_commas-Plain : (s t : Text) → Plain s → mark_commas (s ++ t) ≡ onto s (mark_commas t)
unfolding mark_commas is_mark
mark_commas-Plain [] t p = onto-nil (mark_commas t)
mark_commas-Plain (x ∷ s) t (px, ps) =
    let no_bracket = not_mark x b']' px refl in
    let no_colon = not_mark x b':' px refl in
    let no_comma = not_mark x b',' px refl in
    let rest = mark_commas-Plain s t ps in
    rw (no_bracket, no_colon, no_comma, rest) (on_rest-onto x s (mark_commas t))

-- The separators of an array are replaced up to its end.
mark_commas-joined :
    (es : List Text) (t : Text)
    → AllPlain es
    → mark_commas (joined b',' es ++ b']' ∷ t) ≡ some (joined b';' es ++ b']' ∷ t)
unfolding mark_commas
mark_commas-joined [] t p = refl
mark_commas-joined (e ∷ []) t (p, _) = mark_commas-Plain e (b']' ∷ t) p
mark_commas-joined (e ∷ f ∷ es) t (p, ps) =
    let here = mark_commas-Plain e (b',' ∷ (joined b',' (f ∷ es) ++ b']' ∷ t)) p in
    let rest = mark_commas-joined (f ∷ es) t ps in rw (append_assoc, append_assoc, here, rest) refl

pub mark_array-value :
    (v : Value) (t : Text)
    → PlainValue v
    → mark_array t ≡ some t
    → mark_array (value_text b',' v ++ t) ≡ some (value_text b';' v ++ t)
unfolding mark_array
mark_array-value (scalar s) t p h = let here = mark_array-Plain s t p in rw (here, h) refl
mark_array-value (array es) t p h =
    let here = mark_commas-joined es t p in rw (append_assoc, append_assoc, mark_commas, here) refl

-- A byte that is a mark but neither the separator nor a bracket stands in no plain value.
module _ (c sep : ℕ) (m : is_mark c ≡ true) (apart : (sep == c) ≡ false) where
  Lacks-joined : (es : List Text) → AllPlain es → Lacks c (joined sep es)
  Lacks-joined [] p = tt
  Lacks-joined (e ∷ []) (p, _) = Plain-Lacks c e m p
  Lacks-joined (e ∷ f ∷ es) (p, ps) =
      Lacks-append c e (sep ∷ joined sep (f ∷ es)) (Plain-Lacks c e m p)
        (apart, Lacks-joined (f ∷ es) ps)

  pub Lacks-value :
      (v : Value)
      → (b'[' == c) ≡ false
      → (b']' == c) ≡ false
      → PlainValue v
      → Lacks c (value_text sep v)
  Lacks-value (scalar s) l r p = Plain-Lacks c s m p
  Lacks-value (array es) l r p =
      (l, Lacks-append c (joined sep es) (b']' ∷ []) (Lacks-joined es p) (r, tt))
