-- ===== src/Json/Request/Steps.antt =====
-- What each pair of a request keeps, all pairs keep: the loop of `get_json_handle` in
-- main/http/json.c.
use mathlib.Core.Path.{subst}
use esp32_template.Base.{
  ℕ, zero, suc, ◌%◌, ◌^◌, ◌≤◌, ◌≡◌, ◌⊎◌, inl, inr, refl, arith, Bool, true, false, ◌&&◌, ◌||◌,
  Option, none, some, List, [], ◌∷◌, ◌==◌, if-holds, length, Option-cases,
}
use esp32_template.Base.Bytes.{store}
use esp32_template.Description.{RegsTable}
use esp32_template.Json.{
  skip_quote, Pair, JsonMsg, json_get_msg_type, json_get_array_elem_nmb, json_get_array_elements,
  elements_loop, next_element,
}
use esp32_template.Json.Request.{
  GetType, Request, Reading, Floats, request_of, get_type_of, names_regs, is_set_string, reg_num_of,
  max_regs_request_num, write_value_pair, read_index, read_typed_index, read_name, go_on, read_pair,
  read_pairs,
}
use esp32_template.Json.Strings.{Text, codes, strcmp_same, strchr, atoi, strtol}
use esp32_template.Platform.{Platform}

-- A result, if there is one, has the property.
abbrev pub Each {ℓ} : {A : Type ℓ} → (A → Type 0) → Option A → Type 0
Each P none = Unit {0}
Each P (some a) = P a

-- The name of each pair, without its quotes, has the property.
abbrev pub AllNames : (Text → Type 0) → List Pair → Type 0
AllNames Q [] = Unit {0}
AllNames Q (pair ∷ pairs) =
    Each (λ named. Q named.0) (json_get_msg_type pair.param) × AllNames Q pairs

and_left : (a b : Bool) → (a && b) ≡ true → a ≡ true
and_left true b e = refl
and_left false b e = e

reg_num_of-bound : (value : Text) → reg_num_of value ≤ max_regs_request_num
unfolding reg_num_of
reg_num_of-bound value = ground arith

length-elements_loop : (num : ℕ) (p : Text) → length (elements_loop num p) ≤ num
unfolding elements_loop
length-elements_loop zero p = omega arith
length-elements_loop (suc num) p = elim (Option-cases (next_element (strtol (skip_quote p)).1)) [
  | inl gone ↦ rw gone (omega arith)
  | inr (next, at) ↦ let rest = length-elements_loop num next in rw at (omega arith)
]

length-array_elements :
    (text : Text) (num : ℕ)
    → Each (λ elements. length elements ≤ num) (json_get_array_elements text num)
unfolding json_get_array_elements
length-array_elements text num = elim (Option-cases (strchr b'[' text)) [
  | inl gone ↦ rw (gone, json_get_array_elements) tt
  | inr ((front, p), at) ↦ rw (at, json_get_array_elements) (length-elements_loop num p)
]

-- The reading after a pair has the property.
abbrev pub After : (Reading → Type 0) → Option (Bool × Reading) → Type 0
After P o = Each (λ step. P step.1) o

-- What no change of a variable takes away
pub record IsStable (P : Reading → Type 0) : Type 0 where
  pub on_request : (r : Reading) (q : Request) → P r → P (record r { request = q })
  pub on_get_type : (r : Reading) (g : GetType) → P r → P (record r { get_type = g })
  pub on_reg_num :
      (r : Reading) (n : ℕ) → n ≤ max_regs_request_num → P r → P (record r { reg_num = n })
  pub on_reg_index :
      (r : Reading) (elements : List ℕ)
      → (length elements ≤ 1) ⊎ (length elements ≤ r.reg_num)
      → P r
      → P (record r { reg_index = store r.reg_index 0 elements })

go_on-After : (P : Reading → Type 0) (o : Option Reading) → Each P o → After P (go_on o)
go_on-After P none h = tt
go_on-After P (some r) h = h

module _ (fl : Floats) (pf : Platform) (tables : List RegsTable) where
  module _ (Q : Text → Type 0) (P : Reading → Type 0)
      (step : (param value : Text) (r : Reading)
        → Q param
        → P r
        → After P (read_pair fl pf tables param value r)) where
    abbrev loop_end : List Pair → Option (Bool × Reading) → Option Reading
    loop_end pairs none = none
    loop_end pairs (some (false, r)) = some r
    loop_end pairs (some (true, r)) = read_pairs fl pf tables pairs r

    loop_end-Each :
        (pairs : List Pair) (o : Option (Bool × Reading))
        → After P o
        → ((r : Reading) → P r → Each P (read_pairs fl pf tables pairs r))
        → Each P (loop_end pairs o)
    loop_end-Each pairs none h later = tt
    loop_end-Each pairs (some (false, r)) h later = h
    loop_end-Each pairs (some (true, r)) h later = later r h

    pub read_pairs-Each :
        (pairs : List Pair) (r : Reading)
        → AllNames Q pairs
        → P r
        → Each P (read_pairs fl pf tables pairs r)
    unfolding read_pairs
    read_pairs-Each [] r names p = p
    read_pairs-Each (pair ∷ pairs) r (named, names) p =
        elim (Option-cases (json_get_msg_type pair.param)) [
          | inl gone ↦ rw (gone, read_pairs) tt
          | inr ((param, type), at) ↦ elim (Option-cases (json_get_msg_type pair.value)) [
            | inl gone ↦ rw (at, gone, read_pairs) tt
            | inr ((value, type'), at') ↦
                let q = subst (Each (λ found. Q found.0)) at named in
                rw (at, at', read_pairs)
                  (loop_end-Each pairs (read_pair fl pf tables param value r)
                    (step param value r q p) (λ r' p'. read_pairs-Each pairs r' names p'))
          ]
        ]

  array-After :
      (P : Reading → Type 0) (r : Reading) (o : Option (List ℕ))
      → IsStable P
      → P r
      → Each (λ elements. length elements ≤ r.reg_num) o
      → After P (elim o [
        | none ↦ none
        | some elements ↦ some (true, record r { reg_index = store r.reg_index 0 elements })
      ])
  array-After P r none stable p h = tt
  array-After P r (some elements) stable p h = stable.on_reg_index r elements (inr h) p

  index-After :
      (P : Reading → Type 0) (text : Text) (type : JsonMsg) (r : Reading)
      → IsStable P
      → P r
      → After P (read_typed_index fl pf tables text type r)
  unfolding read_typed_index
  index-After P text JsonMsg.error_json r stable p = p
  index-After P text JsonMsg.text_json r stable p = p
  index-After P text JsonMsg.float_json r stable p = p
  index-After P text JsonMsg.number_json r stable p =
      stable.on_reg_index r (atoi text % 2 ^ 16 ∷ []) (inl (omega arith)) p
  index-After P text JsonMsg.array_json r stable p =
      if-holds (After P) (r.reg_num == json_get_array_elem_nmb text)
        (λ same. array-After P r _ stable p (length-array_elements text r.reg_num)) λ other. p

  read_index-After :
      (P : Reading → Type 0) (value : Text) (r : Reading)
      → IsStable P
      → P r
      → After P (read_index fl pf tables value r)
  unfolding read_index
  read_index-After P value r stable p = elim (Option-cases (json_get_msg_type value)) [
    | inl gone ↦ rw (gone, read_index) tt
    | inr ((text, type), at) ↦ rw (at, read_index) (index-After P text type r stable p)
  ]

  -- The changes of `read_pair`; of those by the pair `value` the hypothesis speaks.
  pub read_pair-After :
      (P : Reading → Type 0) (param value : Text) (r : Reading)
      → IsStable P
      → P r
      → (strcmp_same param (codes "value") ≡ true → Each P (write_value_pair fl pf tables value r))
      → After P (read_pair fl pf tables param value r)
  unfolding read_pair read_name
  read_pair-After P param value r stable p writes =
      if-holds (After P) (strcmp_same param (codes "request"))
        (λ e. stable.on_request r (request_of value r.request) p)
        λ e.
          if-holds (After P) (strcmp_same param (codes "reg_num"))
            (λ e. stable.on_reg_num r (reg_num_of value) (reg_num_of-bound value) p)
            λ e.
              if-holds (After P) (strcmp_same param (codes "get_type"))
                (λ e. stable.on_get_type r (get_type_of value r.get_type) p)
                λ e.
                  if-holds (After P)
                    (strcmp_same param (codes "index")
                      && (names_regs r.request || is_set_string r.request))
                    (λ e. read_index-After P value r stable p)
                    λ e.
                      if-holds (After P) (strcmp_same param (codes "name") && names_regs r.request)
                        (λ e. stable.on_reg_index r (_ ∷ []) (inl (omega arith)) p)
                        λ e.
                          if-holds (After P)
                            (strcmp_same param (codes "value")
                              && (names_regs r.request || is_set_string r.request))
                            (λ e. go_on-After P _ (writes (and_left _ _ e))) λ e. p
