-- ===== src/Json/RoundTrip.antt =====
-- Requests that are printed, put into a header and taken apart again: `extract_json_pack` and
-- `json_parse` of main/http/json.c.
use mathlib.Core.List.{append-nil}
use esp32_template.Base.{
  ℕ, zero, suc, ◌+◌, ◌≤◌, ◌<◌, ◌≡◌, refl, ap, ◌∙◌, arith, false, none, some, List, [], ◌∷◌, ◌++◌,
  length,
}
use esp32_template.Json.{
  find_header, headers_loop, extract_json_pack, mark_array, cons_pair, parse_loop, strip_brace,
  json_parse, max_json_pairs,
}
use esp32_template.Json.Marks.{
  is_mark, Plain, Entry, value_text, print, as_pairs, PlainEntries, Lacks, Lacks-append,
  Plain-Lacks, Lacks-value, mark_array-Plain, mark_array-value, strchr-Lacks, strchr-Lacks-none,
}
use esp32_template.Json.Strings.{Text, codes, strchr, strstr, begins_with}

mark_array-print :
    (e : Entry) (es : List Entry)
    → Plain e.name
    → mark_array (b',' ∷ print (e ∷ es)) ≡ some (b',' ∷ print (e ∷ es))
unfolding mark_array
mark_array-print e [] p =
    let here = mark_array-Plain e.name (b':' ∷ value_text b',' e.value) p in rw here refl
mark_array-print e (f ∷ es) p =
    let here =
      mark_array-Plain e.name (b':' ∷ (value_text b',' e.value ++ b',' ∷ print (f ∷ es))) p in
    rw here refl

-- One round of the loop, with another pair behind it or without
parse_step :
    (left : ℕ) (position : Text) {param text marked value next : Text}
    → strchr b':' position ≡ some (param, text)
    → mark_array text ≡ some marked
    → strchr b',' marked ≡ some (value, next)
    → parse_loop (suc left) position ≡ cons_pair param value (parse_loop left next)
unfolding parse_loop
parse_step left position named marked found = rw (named, marked, found, parse_loop) refl

parse_last :
    (left : ℕ) (position : Text) {param text marked : Text}
    → strchr b':' position ≡ some (param, text)
    → mark_array text ≡ some marked
    → strchr b',' marked ≡ none
    → parse_loop (suc left) position ≡ cons_pair param marked (some [])
unfolding parse_loop
parse_last left position named marked found = rw (named, marked, found, parse_loop) refl

parse_loop-print :
    (e : Entry) (es : List Entry) (left : ℕ)
    → PlainEntries (e ∷ es)
    → length (e ∷ es) ≤ left
    → parse_loop left (print (e ∷ es)) ≡ some (as_pairs (e ∷ es))
unfolding is_mark mark_array
parse_loop-print e es zero p h = absurd (omega arith)
parse_loop-print e [] (suc left) (pn, pv, _) h =
    let named =
      strchr-Lacks b':' e.name (value_text b',' e.value) (Plain-Lacks b':' e.name refl pn) in
    let marked = mark_array-value e.value [] pv refl in
    let found =
      strchr-Lacks-none b',' (value_text b';' e.value)
        (Lacks-value b',' b';' refl refl e.value refl refl pv) in
    parse_last left _ named (rw (append-nil, append-nil) at marked) found
parse_loop-print e (f ∷ es) (suc left) (pn, pv, ps) h =
    let rest = parse_loop-print f es left ps (omega arith) in
    let next = b',' ∷ print (f ∷ es) in
    let named =
      strchr-Lacks b':' e.name (value_text b',' e.value ++ next)
        (Plain-Lacks b':' e.name refl pn) in
    let marked = mark_array-value e.value next pv (mark_array-print f es ps.0) in
    let found =
      strchr-Lacks b',' (value_text b';' e.value) (print (f ∷ es))
        (Lacks-value b',' b';' refl refl e.value refl refl pv) in
    parse_step left _ named marked found ∙ ap (cons_pair e.name (value_text b';' e.value)) rest

strip_brace-brace : (s : Text) → strip_brace (s ++ b'}' ∷ []) ≡ s
unfolding strip_brace
strip_brace-brace [] = refl
strip_brace-brace (c ∷ []) = refl
strip_brace-brace (c ∷ d ∷ s) = ap (◌∷◌ c) (strip_brace-brace (d ∷ s))

-- The request in braces
abbrev pub pack : List Entry → Text
pack es = b'{' ∷ print es ++ b'}' ∷ []

pub json_parse-pack :
    (e : Entry) (es : List Entry)
    → PlainEntries (e ∷ es)
    → length (e ∷ es) ≤ max_json_pairs
    → json_parse (pack (e ∷ es)) ≡ some (as_pairs (e ∷ es))
unfolding json_parse
json_parse-pack e es p h =
    let bare = strip_brace-brace (b'{' ∷ print (e ∷ es)) in
    rw (bare, json_parse) (parse_loop-print e es max_json_pairs p h)

Lacks-print : (es : List Entry) → PlainEntries es → Lacks b'}' (print es)
unfolding is_mark
Lacks-print [] p = tt
Lacks-print (e ∷ []) (pn, pv, _) =
    Lacks-append b'}' e.name (b':' ∷ value_text b',' e.value) (Plain-Lacks b'}' e.name refl pn)
      (refl, Lacks-value b'}' b',' refl refl e.value refl refl pv)
Lacks-print (e ∷ f ∷ es) (pn, pv, ps) =
    let behind = Lacks-print (f ∷ es) ps in
    let value = Lacks-value b'}' b',' refl refl e.value refl refl pv in
    Lacks-append b'}' e.name (b':' ∷ (value_text b',' e.value ++ b',' ∷ print (f ∷ es)))
      (Plain-Lacks b'}' e.name refl pn)
      (
        refl,
        Lacks-append b'}' (value_text b',' e.value) (b',' ∷ print (f ∷ es)) value (refl, behind),
      )

-- The header's name stands nowhere before `text`.
abbrev pub NotYet : Text → Text → Type 0
NotYet text [] = Unit {0}
NotYet text (c ∷ front) =
    (begins_with (codes "Json: ") (c ∷ front ++ text) ≡ false) × NotYet text front

strstr-NotYet :
    (front text : Text)
    → NotYet text front
    → strstr (codes "Json: ") text ≡ some text
    → strstr (codes "Json: ") (front ++ text) ≡ some text
unfolding strstr
strstr-NotYet [] text p h = h
strstr-NotYet (c ∷ front) text (px, ps) h =
    let rest = strstr-NotYet front text ps h in rw (px, rest) refl

strstr-here :
    (text : Text) → strstr (codes "Json: ") (codes "Json: " ++ text) ≡ some (codes "Json: " ++ text)
unfolding strstr begins_with
strstr-here text = refl

find_header-strstr :
    (headers p : Text) → strstr (codes "Json: ") headers ≡ some p → find_header headers ≡ some p
unfolding find_header
find_header-strstr headers p found = rw (found, find_header) refl

find_header-NotYet :
    (front text : Text)
    → NotYet (codes "Json: " ++ text) front
    → find_header (front ++ (codes "Json: " ++ text)) ≡ some (codes "Json: " ++ text)
find_header-NotYet front text p =
    find_header-strstr (front ++ (codes "Json: " ++ text)) _
      (strstr-NotYet front (codes "Json: " ++ text) p (strstr-here text))

headers_loop-found :
    (k left : ℕ) (headers : ℕ → Text) (i : ℕ) (p : Text)
    → k < left
    → ((j : ℕ) → j < k → find_header (headers (i + j)) ≡ none)
    → find_header (headers (i + k)) ≡ some p
    → headers_loop left headers i ≡ some p
unfolding headers_loop
headers_loop-found k zero headers i p h none_before found = absurd (omega arith)
headers_loop-found zero (suc left) headers i p h none_before found =
    let at : i + 0 ≡ i = omega arith in let here = rw at at found in rw (here, headers_loop) refl
headers_loop-found (suc k) (suc left) headers i p h none_before found =
    let at : i + 0 ≡ i = omega arith in
    let gone = rw at at (none_before 0 (omega arith)) in
    let next : i + suc k ≡ i + 1 + k = omega arith in
    let rest =
      headers_loop-found k left headers (i + 1) p (omega arith)
        (λ j less.
          ap (λ (n : ℕ). find_header (headers n)) (omega arith) ∙ none_before (suc j) (omega arith))
        (rw next at found) in
    rw (gone, headers_loop) rest

-- The header with a request, and what follows
abbrev pub header : Text → Text → Text
header inside back = codes "Json: " ++ (b'{' ∷ (inside ++ b'}' ∷ back))

extract_json_pack-header :
    (headers : ℕ → Text) (inside back : Text)
    → Lacks b'}' inside
    → headers_loop 10 headers 0 ≡ some (header inside back)
    → extract_json_pack headers ≡ some (b'{' ∷ inside ++ b'}' ∷ [])
unfolding extract_json_pack strchr
extract_json_pack-header headers inside back p found =
    let closed = strchr-Lacks b'}' inside back p in rw (found, closed, extract_json_pack) refl

-- A request of one to ten pairs of plain texts that stands behind the first `Json: ` of a string of
-- the headers, one of the first ten, where those before it have no such header, is found and taken
-- apart into its pairs, in order, with `;` for `,` in arrays.
pub json_parse-extract_json_pack :
    (e : Entry) (es : List Entry) (headers : ℕ → Text) (k : ℕ) (front back : Text)
    → PlainEntries (e ∷ es)
    → length (e ∷ es) ≤ max_json_pairs
    → k < 10
    → ((j : ℕ) → j < k → find_header (headers j) ≡ none)
    → headers k ≡ front ++ header (print (e ∷ es)) back
    → NotYet (header (print (e ∷ es)) back) front
    → extract_json_pack headers ≡ some (pack (e ∷ es))
      × json_parse (pack (e ∷ es)) ≡ some (as_pairs (e ∷ es))
json_parse-extract_json_pack e es headers k front back p few early others here first =
    let found = find_header-NotYet front (b'{' ∷ (print (e ∷ es) ++ b'}' ∷ back)) first in
    let reached : headers_loop 10 headers 0 ≡ some (header (print (e ∷ es)) back) =
      headers_loop-found k 10 headers 0 _ early
        (λ j less. ap (λ (n : ℕ). find_header (headers n)) (omega arith) ∙ others j less)
        (ap (λ (n : ℕ). find_header (headers n)) (omega arith) ∙ (ap find_header here ∙ found)) in
    (
      extract_json_pack-header headers (print (e ∷ es)) back (Lacks-print (e ∷ es) p) reached,
      json_parse-pack e es p few,
    )
