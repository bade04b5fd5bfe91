-- ===== src/Json/Write/Items.antt =====
-- The items of a register are written with the numbers of an array.
use mathlib.Core.List.{append_assoc}
use esp32_template.Base.{
  ℕ, zero, suc, ◌+◌, ◌≤◌, ◌<◌, ◌≡◌, refl, ap, ◌∙◌, arith, none, some, List, [], ◌∷◌, ◌++◌, ◌==◌,
  length,
}
use esp32_template.Description.{RegsTemplate, RegsTable}
use esp32_template.Json.Answer.{decimal}
use esp32_template.Json.Decimal.{
  Ends, decimal-Starts, decimal-AllDigits, number_limit, json_get_elements-decimal,
}
use esp32_template.Json.Marks.{joined, Lacks-append, strchr-Lacks, strchr-Lacks-none}
use esp32_template.Json.Numbers.{
  Lacks-AllDigits, decimals, skip_while-Starts, AllBelow, first_number,
}
use esp32_template.Json.Request.{Floats, skip_while, set_item, set_items}
use esp32_template.Json.Strings.{Text, strchr}
use esp32_template.Platform.{Platform}
use esp32_template.Regs.Command.{State}
use esp32_template.Json.Write.{write_items}

module _ (fl : Floats) (pf : Platform) (tables : List RegsTable) where
  set_item-decimal :
      (t : RegsTemplate) (v : ℕ) (rest : Text) (j : ℕ) (s : State)
      → v < number_limit t.desc.type
      → Ends rest
      → set_item fl pf tables t (decimal v ++ rest) j s ≡ write_items pf tables t (v ∷ []) j s
  unfolding set_item
  set_item-decimal t v rest j s h e =
      let read = json_get_elements-decimal fl t.desc.type v rest h e in rw (read, set_item) refl

  set_items_step :
      (left : ℕ) (t : RegsTemplate) (element front next : Text) (j : ℕ) (s : State)
      → strchr b';' element ≡ some (front, next)
      → skip_while (λ c. c == b' ') next ≡ next
      → set_items fl pf tables (suc left) t element j s
        ≡ set_items fl pf tables left t next (j + 1) (set_item fl pf tables t element j s)
  unfolding set_items
  set_items_step left t element front next j s found stays = rw (found, stays, set_items) refl

  pub set_items-decimals :
      (v : ℕ) (vs : List ℕ) (left : ℕ) (t : RegsTemplate) (j : ℕ) (s : State)
      → AllBelow (number_limit t.desc.type) (v ∷ vs)
      → length (v ∷ vs) ≤ left
      → set_items fl pf tables left t (joined b';' (decimals (v ∷ vs)) ++ b']' ∷ []) j s
        ≡ write_items pf tables t (v ∷ vs) j s
  unfolding set_items
  set_items-decimals v vs zero t j s p h = absurd (omega arith)
  set_items-decimals v [] (suc left) t j s (p, _) h =
      let last : strchr b';' (decimal v ++ b']' ∷ []) ≡ none =
        strchr-Lacks-none b';' (decimal v ++ b']' ∷ []) (
          Lacks-append b';' (decimal v) (b']' ∷ [])
            (Lacks-AllDigits b';' (decimal v) refl (decimal-AllDigits v)) (refl, tt)) in
      rw (last, set_items) (set_item-decimal t v (b']' ∷ []) j s p refl)
  set_items-decimals v (w ∷ vs) (suc left) t j s (p, ps) h =
      let rest = joined b';' (decimals (w ∷ vs)) ++ b']' ∷ [] in
      let (tail, cut) = first_number w vs in
      let stays : skip_while (λ c. c == b' ') rest ≡ rest = rw cut (
        skip_while-Starts (λ c. c == b' ') (decimal w) tail (λ c d. ground arith)
          (decimal-Starts w)) in
      let found =
        strchr-Lacks b';' (decimal v) rest
          (Lacks-AllDigits b';' (decimal v) refl (decimal-AllDigits v)) in
      let text = append_assoc (decimal v) (b';' ∷ joined b';' (decimals (w ∷ vs))) (b']' ∷ []) in
      rw text (
        set_items_step left t (decimal v ++ b';' ∷ rest) (decimal v) rest j s found stays
        ∙ ap (set_items fl pf tables left t rest (j + 1))
            (set_item-decimal t v (b';' ∷ rest) j s p refl)
        ∙ set_items-decimals w vs left t (j + 1) (write_items pf tables t (v ∷ []) j s) ps
            (omega arith))
