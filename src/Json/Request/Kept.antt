-- ===== src/Json/Request/Kept.antt =====
-- What reading a request keeps in bounds, and what it leaves as it was: `get_json_handle` of
-- main/http/json.c.
use esp32_template.Base.{
  ◌%◌, ◌^◌, Option-cases, if-holds, ℕ, ◌≤◌, ◌≡◌, inl, inr, refl, ◌∙◌, arith, false, Option, none,
  some, List, [], ◌∷◌,
}
use esp32_template.Base.Bytes.{Bytes, store-outside}
use esp32_template.Description.{RegsTable}
use esp32_template.Description.Lookup.{regs_description_get_by_index}
use esp32_template.Json.{Pair, json_get_msg_type}
use esp32_template.Json.Request.{
  Reading, Floats, max_regs_request_num, write_string, write_value_pair, is_set_string, read_pairs,
}
use esp32_template.Json.Request.Steps.{Each, AllNames, read_pairs-Each, IsStable, read_pair-After}
use esp32_template.Json.Strings.{Text, codes, strcmp_same}
use esp32_template.Platform.{Platform}
use esp32_template.Regs.Command.{State}

-- At most ten registers are asked for, and behind the ten places of `reg_index` nothing is written.
pub record InBounds (reg_index : Bytes) (r : Reading) : Type 0 where
  pub few : r.reg_num ≤ max_regs_request_num
  pub untouched : (i : ℕ) → max_regs_request_num ≤ i → r.reg_index i ≡ reg_index i

InBounds-IsStable : (reg_index : Bytes) → IsStable (InBounds reg_index)
InBounds-IsStable reg_index = record {
  on_request = λ r q b. record { few = b.few; untouched = b.untouched };
  on_get_type = λ r g b. record { few = b.few; untouched = b.untouched };
  on_reg_num = λ r n small b. record { few = small; untouched = b.untouched };
  on_reg_index = λ r elements size b. record {
    few = b.few;
    untouched = λ i beyond.
        store-outside elements r.reg_index 0 i (inr (ground (arith, b.few))) ∙ b.untouched i beyond;
  };
}

abbrev pub IsNoValue : Text → Type 0
IsNoValue name = strcmp_same name (codes "value") ≡ false

module _ (fl : Floats) (pf : Platform) (tables : List RegsTable) where
  written :
      (reg_index : Bytes) (r : Reading) (o : Option State)
      → ((s : State) → InBounds reg_index (record r { regs = s }))
      → Each (InBounds reg_index) (elim o [ none ↦ none | some s ↦ some (record r { regs = s }) ])
  written reg_index r none kept = tt
  written reg_index r (some s) kept = kept s

  InBounds-written :
      (reg_index : Bytes) (value : Text) (r : Reading)
      → InBounds reg_index r
      → Each (InBounds reg_index) (write_value_pair fl pf tables value r)
  unfolding write_value_pair
  InBounds-written reg_index value r b =
      let kept : (s : State) → InBounds reg_index (record r { regs = s }) =
        λ s. record { few = b.few; untouched = b.untouched } in
      elim (Option-cases (regs_description_get_by_index tables (r.reg_index 0 % 2 ^ 32))) [
        | inl gone ↦ rw (gone, Each, write_value_pair) b
        | inr (t, at) ↦
            rw (at, Each, write_value_pair)
              (if-holds (Each (InBounds reg_index)) (is_set_string r.request)
                (λ e. written reg_index r (write_string fl pf tables t value r.regs) kept)
                λ e. kept _)
      ]

  any_names : (pairs : List Pair) → AllNames (λ name. Unit {0}) pairs
  any_names [] = tt
  any_names (pair ∷ pairs) = elim (Option-cases (json_get_msg_type pair.param)) [
    | inl gone ↦ (rw gone tt, any_names pairs)
    | inr (found, at) ↦ (rw at tt, any_names pairs)
  ]

  -- Whatever the pairs of a request say, no more than ten registers are asked for, and nothing is
  -- written behind the ten places of `reg_index`.
  pub read_pairs-InBounds :
      (pairs : List Pair) (r : Reading)
      → r.reg_num ≤ max_regs_request_num
      → Each (InBounds r.reg_index) (read_pairs fl pf tables pairs r)
  read_pairs-InBounds pairs r small =
      read_pairs-Each fl pf tables (λ name. Unit {0}) (InBounds r.reg_index)
        (λ param value r' any b.
          read_pair-After fl pf tables (InBounds r.reg_index) param value r'
            (InBounds-IsStable r.reg_index) b (λ e. InBounds-written r.reg_index value r' b))
        pairs r (any_names pairs) (record { few = small; untouched = λ i beyond. refl })

  SameRegs-IsStable : (s : State) → IsStable (λ r. r.regs ≡ s)
  SameRegs-IsStable s = record {
    on_request = λ r q e. e;
    on_get_type = λ r g e. e;
    on_reg_num = λ r n small e. e;
    on_reg_index = λ r elements size e. e;
  }

  -- A request without a pair `value` leaves the registers as they are.
  pub read_pairs-IsNoValue :
      (pairs : List Pair) (r : Reading)
      → AllNames IsNoValue pairs
      → Each (λ r'. r'.regs ≡ r.regs) (read_pairs fl pf tables pairs r)
  read_pairs-IsNoValue pairs r names =
      read_pairs-Each fl pf tables IsNoValue (λ r'. r'.regs ≡ r.regs)
        (λ param value r' other same.
          read_pair-After fl pf tables (λ r''. r''.regs ≡ r.regs) param value r'
            (SameRegs-IsStable r.regs) same (λ e. absurd (cc (e, other))))
        pairs r names refl
