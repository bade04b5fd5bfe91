-- ===== src/Json.antt =====
-- Requests in JSON, main/http/json.c: the request is found in the headers of HTTP and taken apart
-- into pairs of a name and a value. The code works in place and puts a NUL behind each name and
-- each value; here they are lists of their own. `none` stands for an access outside the string,
-- where a comment does not say that it is NULL.
pub mod Strings
pub mod Marks
pub mod Output
pub mod RoundTrip
pub mod Request
pub mod Answer
pub mod Decimal
pub mod Numbers
pub mod Write
use esp32_template.Base.{
  ℕ, zero, suc, ◌+◌, Bool, ◌&&◌, ◌||◌, Option, none, some, List, [], ◌∷◌, ◌++◌, ltb, leb, ◌==◌,
  if◌then◌else◌,
}
use esp32_template.Json.Strings.{Text, codes, strchr, strstr, isdigit, strtol}

-- A pair of `json_pairs_t`; `pairs_number` is the length of the list of pairs.
pub record Pair : Type 0 where
  pub param : Text
  pub value : Text

-- `json_msg_t`
pub data JsonMsg : Type 0 where
  error_json text_json number_json float_json array_json : JsonMsg

-- `MAX_JSON_PAIRS`
abbrev pub max_json_pairs : ℕ
max_json_pairs = 10

-- The place of the header; `none` is NULL.
unfoldable pub find_header : Text → Option Text
unfolding strstr
find_header headers = elim (strstr (codes "Json: ") headers) [
  | some p ↦ some p
  | none ↦ elim (strstr (codes "json: ") headers) [
    | some p ↦ some p
    | none ↦ strstr (codes "JSON: ") headers
  ]
]

-- The strings of the headers stand one behind the other, the first at place `i`.
unfoldable pub headers_loop : ℕ → (ℕ → Text) → ℕ → Option Text
unfolding find_header
headers_loop zero headers i = none
headers_loop (suc left) headers i = elim (find_header (headers i)) [
  | some p ↦ some p
  | none ↦ headers_loop left headers (i + 1)
]

-- `none` is NULL.
unfoldable pub extract_json_pack : (ℕ → Text) → Option Text
unfolding headers_loop strchr
extract_json_pack headers = elim (headers_loop 10 headers 0) [
  | none ↦ none
  | some p ↦ elim (strchr b'{' p) [
    | none ↦ none
    | some (front, json_pack) ↦ elim (strchr b'}' json_pack) [
      | none ↦ none
      | some (inside, back) ↦ some (b'{' ∷ inside ++ b'}' ∷ [])
    ]
  ]
]

abbrev pub on_rest : ℕ → Option Text → Option Text
on_rest c none = none
on_rest c (some s) = some (c ∷ s)

-- The loop on `array_pointer`. It ends at `]` or at the first `:`, which is `determiner`.
unfoldable pub mark_commas : Text → Option Text
mark_commas [] = none
mark_commas (c ∷ s) =
    let rest = mark_commas s in
    if (c == b']') || (c == b':')
    then some (c ∷ s)
    else on_rest (if c == b',' then b';' else c) rest

-- `array_pointer` is the first `[`. Behind `determiner` the loop makes no round.
unfoldable pub mark_array : Text → Option Text
unfolding mark_commas
mark_array [] = some []
mark_array (c ∷ s) =
    let rest = mark_array s in
    if c == b'[' then mark_commas (c ∷ s) else if c == b':' then some (c ∷ s) else on_rest c rest

abbrev pub cons_pair : Text → Text → Option (List Pair) → Option (List Pair)
cons_pair param value none = none
cons_pair param value (some pairs) = some (record { param = param; value = value } ∷ pairs)

-- The loop from `position` on, with `left` rounds to go; a name without `:` ends it.
unfoldable pub parse_loop : ℕ → Text → Option (List Pair)
unfolding mark_array strchr
parse_loop zero position = some []
parse_loop (suc left) position = elim (strchr b':' position) [
  | none ↦ some []
  | some (param, text) ↦ elim (mark_array text) [
    | none ↦ none
    | some marked ↦ elim (strchr b',' marked) [
      | none ↦ cons_pair param marked (some [])
      | some (value, next) ↦ cons_pair param value (parse_loop left next)
    ]
  ]
]

-- The `}` at the end becomes NUL.
unfoldable pub strip_brace : Text → Text
strip_brace [] = []
strip_brace (c ∷ []) = if c == b'}' then [] else c ∷ []
strip_brace (c ∷ d ∷ s) = c ∷ strip_brace (d ∷ s)

unfoldable pub json_parse : Text → Option (List Pair)
unfolding parse_loop strip_brace
json_parse json_pack = elim (strip_brace json_pack) [
  | [] ↦ none
  | c ∷ position ↦ parse_loop max_json_pairs position
]

-- The last byte, or `c` for no more
abbrev pub last_or : ℕ → Text → ℕ
last_or c [] = c
last_or c (d ∷ s) = last_or d s

-- The type of a text that is no array
unfoldable pub scalar_type : Text → JsonMsg
unfolding strchr
scalar_type [] = JsonMsg.text_json
scalar_type (c ∷ s) =
    if isdigit c
    then (elim (strchr b'.' (c ∷ s)) [ none ↦ JsonMsg.number_json | some _ ↦ JsonMsg.float_json ])
    else JsonMsg.text_json

-- The text without its quotes, and its type. A text in quotes ends at the first quote that follows.
unfoldable pub json_get_msg_type : Text → Option (Text × JsonMsg)
unfolding scalar_type strchr
json_get_msg_type [] = some ([], JsonMsg.text_json)
json_get_msg_type (c ∷ s) =
    if (c == b'"') && (last_or c s == b'"')
    then (elim (strchr b'"' s) [
      | none ↦ none
      | some (inside, back) ↦ some (inside, scalar_type inside)
    ])
    else if (c == b'[') && (last_or c s == b']')
    then some (c ∷ s, JsonMsg.array_json)
    else some (c ∷ s, scalar_type (c ∷ s))

-- One more than there are `;`
unfoldable pub json_get_array_elem_nmb : Text → ℕ
json_get_array_elem_nmb [] = 1
json_get_array_elem_nmb (c ∷ s) =
    let rest = json_get_array_elem_nmb s in if c == b';' then suc rest else rest

abbrev pub skip_quote : Text → Text
skip_quote [] = []
skip_quote (c ∷ s) = if c == b'"' then s else c ∷ s

-- What stands behind the next `;`, or behind the next `,` where there is no `;`
unfoldable pub next_element : Text → Option Text
unfolding strchr
next_element back = elim (strchr b';' back) [
  | some (_, next) ↦ some next
  | none ↦ elim (strchr b',' back) [ some (_, next) ↦ some next | none ↦ none ]
]

-- The numbers stored in `buff` from its first place on; it ends where no element follows.
unfoldable pub elements_loop : ℕ → Text → List ℕ
elements_loop zero p = []
elements_loop (suc num) p =
    let (n, back) = strtol (skip_quote p) in
    n ∷ (elim (next_element back) [ none ↦ [] | some next ↦ elements_loop num next ])

unfoldable pub json_get_array_elements : Text → ℕ → Option (List ℕ)
unfolding elements_loop strchr
json_get_array_elements json_array num = elim (strchr b'[' json_array) [
  | none ↦ none
  | some (_, p) ↦ some (elements_loop num p)
]
