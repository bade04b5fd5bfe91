-- ===== src/Description/ByAddress.antt =====
-- The binary search by address of main/regs_description.c against the linear search of
-- `regs_description_get_index_by_address`.
use native.Mathlib.Decide.{dec_lt}
use esp32_template.Base.{
  ℕ, zero, suc, ◌+◌, ◌-◌, ◌^◌, ◌≡◌, ◌≤◌, ◌<◌, inl, inr, refl, sym, ap, ◌∙◌, arith, true, false,
  Option, none, some, List, [], ◌∷◌,
}
use esp32_template.Base.{length, get_elem?, Bool-cases, Option-cases}
use esp32_template.Description.{RegsDescription, RegsTemplate, RegsTable, byte_size, end_address}
use esp32_template.Description.Search.{search_loop-some, search_loop-finds}
use esp32_template.Description.Lookup.{
  u16, fill, covers, lies_after, bin_search_address, find_in_tables,
  regs_description_get_by_address, covering_index, index_by_address_loop,
  regs_description_get_index_by_address, get_by_index_in, by_index_loop,
  regs_description_get_by_index,
}

-- A generated table: the registers stand in memory in the order of the table, none is empty, and
-- their number fits a `u16`.
pub record IsLaidOut (regs : List RegsDescription) : Type 0 where
  pub apart :
      (i j : ℕ) (x y : RegsDescription)
      → get_elem? regs i ≡ some x
      → get_elem? regs j ≡ some y
      → i < j
      → end_address x ≤ y.p_value
  pub occupied : (i : ℕ) (x : RegsDescription) → get_elem? regs i ≡ some x → 0 < byte_size x
  pub counted : length regs < 2 ^ 16

pub get_elem?-lt {ℓ} :
    {A : Type ℓ} (xs : List A) (i : ℕ) (x : A) → get_elem? xs i ≡ some x → i < length xs
get_elem?-lt [] i x e = ground arith
get_elem?-lt (y ∷ xs) zero x e = omega arith
get_elem?-lt (y ∷ xs) (suc i) x e = omega (arith, get_elem?-lt xs i x e)

module _ (address : ℕ) (regs : List RegsDescription) (laid : IsLaidOut regs) where
  -- Two registers that cover one address are the same.
  covers_unique :
      (i j : ℕ) (x y : RegsDescription)
      → get_elem? regs i ≡ some x
      → get_elem? regs j ≡ some y
      → covers address x ≡ true
      → covers address y ≡ true
      → x ≡ y
  covers_unique i j x y hx hy cx cy = elim (dec_lt i j) [
    | yes lt ↦ absurd (ground (arith, laid.apart i j x y))
    | no ge ↦ elim (dec_lt j i) [
      | yes gt ↦ absurd (ground (arith, laid.apart j i y x))
      | no le ↦ let same : i ≡ j = omega arith in cc
    ]
  ]

  bin_search_address-finds :
      (t : ℕ) (x : RegsDescription)
      → get_elem? regs t ≡ some x
      → covers address x ≡ true
      → bin_search_address address regs ≡ some x
  unfolding bin_search_address
  bin_search_address-finds t x at target =
      let fits : u16 (length regs) ≡ length regs = omega (arith, laid.counted) in
      let (r, found) =
        search_loop-finds (covers address) (lies_after address) regs t x at target
          (λ i y here lt other.
            ground (arith, laid.apart i t y x here at lt, laid.occupied i y here))
          (λ i y here gt other. ground (arith, laid.apart t i x y at here gt)) (u16 (length regs)) 0
          (u16 (length regs)) (omega arith) (omega (arith, get_elem?-lt regs t x at)) (omega arith)
          (omega arith) in
      let (hit, place) =
        search_loop-some (covers address) (lies_after address) regs (u16 (length regs)) 0
          (u16 (length regs)) r found in
      let (j, here) = place in found ∙ ap some (covers_unique j t r x here at hit target)

-- The linear search stops at a register that covers the address, or there is none.
covering_index-some :
    (address : ℕ) (regs : List RegsDescription) (base g : ℕ)
    → covering_index address regs base ≡ some g
    → (k : ℕ) × (x : RegsDescription) × (g ≡ base + k)
      × (get_elem? regs k ≡ some x)
      × (covers address x ≡ true)
unfolding covering_index
covering_index-some address [] base g e = absurd (ground arith)
covering_index-some address (r ∷ regs) base g e = elim (Bool-cases (covers address r)) [
  | inl hit ↦ (0, r, ground arith, refl, hit)
  | inr miss ↦
      let (k, x, at, here, hit) = covering_index-some address regs (base + 1) g (rw miss at e) in
      (suc k, x, omega arith, here, hit)
]

covering_index-none :
    (address : ℕ) (regs : List RegsDescription) (base k : ℕ) (x : RegsDescription)
    → covering_index address regs base ≡ none
    → get_elem? regs k ≡ some x
    → covers address x ≡ false
unfolding covering_index
covering_index-none address [] base k x e at = absurd (ground arith)
covering_index-none address (r ∷ regs) base zero x e at = ground arith
covering_index-none address (r ∷ regs) base (suc k) x e at =
    covering_index-none address regs (base + 1) k x (ground arith) at

abbrev pub AllLaidOut : List RegsTable → Type 0
AllLaidOut [] = Unit
AllLaidOut (t ∷ tables) = IsLaidOut t.description × AllLaidOut tables

-- What a lookup by number, from the number found by the linear search, gives
abbrev by_linear : List RegsTable → ℕ → ℕ → Option ℕ → Option RegsTemplate
by_linear tables i base none = none
by_linear tables i base (some g) = by_index_loop tables i base g

index_by_address_loop-le :
    (address : ℕ) (tables : List RegsTable) (base g : ℕ)
    → index_by_address_loop address tables base ≡ some g
    → base ≤ g
unfolding index_by_address_loop
index_by_address_loop-le address [] base g e = ground arith
index_by_address_loop-le address (t ∷ tables) base g e =
    elim (Option-cases (covering_index address t.description base)) [
      | inl gone ↦
          let h =
            index_by_address_loop-le address tables (base + length t.description) g
              (ground arith) in
          omega arith
      | inr (g', at) ↦
          let (k, x, eq, here, hit) = covering_index-some address t.description base g' at in
          ground arith
    ]

-- With no covering register the binary search finds none.
bin_search_address-none :
    (address : ℕ) (regs : List RegsDescription) (base : ℕ)
    → covering_index address regs base ≡ none
    → bin_search_address address regs ≡ none
unfolding bin_search_address
bin_search_address-none address regs base gone =
    elim (Option-cases (bin_search_address address regs)) [
      | inl e ↦ e
      | inr (r, found) ↦
          let (hit, place) =
            search_loop-some (covers address) (lies_after address) regs (u16 (length regs)) 0
              (u16 (length regs)) r found in
          let (j, here) = place in cc (hit, covering_index-none address regs base j r gone here)
    ]

-- A number past the first table is looked up in the others.
by_linear_skip :
    (t : RegsTable) (tables : List RegsTable) (i base : ℕ) (o : Option ℕ)
    → ((g : ℕ) → o ≡ some g → base + length t.description ≤ g)
    → by_linear (t ∷ tables) i base o ≡ by_linear tables (i + 1) (base + length t.description) o
unfolding by_index_loop
by_linear_skip t tables i base none h = refl
by_linear_skip t tables i base (some g) h = ground (arith, h g refl)

find-by_linear :
    (address : ℕ) (tables : List RegsTable) (i base : ℕ)
    → AllLaidOut tables
    → find_in_tables (bin_search_address address) tables i
      ≡ by_linear tables i base (index_by_address_loop address tables base)
unfolding find_in_tables index_by_address_loop by_index_loop get_by_index_in
find-by_linear address [] i base laid = refl
find-by_linear address (t ∷ tables) i base laid =
    elim (Option-cases (covering_index address t.description base)) [
      | inr (g, found) ↦
          let (k, x, eq, here, hit) = covering_index-some address t.description base g found in
          let bin = bin_search_address-finds address t.description laid.0 k x here hit in
          let at : g - base ≡ k = omega arith in
          let pass : find_in_tables (bin_search_address address) (t ∷ tables) i ≡ some (fill x i) =
            ground arith in
          let skip : index_by_address_loop address (t ∷ tables) base ≡ some g = ground arith in
          let number : by_index_loop (t ∷ tables) i base g ≡ some (fill x i) =
            ground (arith, get_elem?-lt t.description k x here) in
          pass ∙ sym number ∙ ap (by_linear (t ∷ tables) i base) (sym skip)
      | inl gone ↦
          let bin = bin_search_address-none address t.description base gone in
          let next = base + length t.description in
          let skip : index_by_address_loop address (t ∷ tables) base
              ≡ index_by_address_loop address tables next =
            ground arith in
          let pass : find_in_tables (bin_search_address address) (t ∷ tables) i
              ≡ find_in_tables (bin_search_address address) tables (i + 1) =
            ground arith in
          pass
          ∙ find-by_linear address tables (i + 1) next laid.1
          ∙ sym (
              by_linear_skip t tables i base (index_by_address_loop address tables next)
                (index_by_address_loop-le address tables next))
          ∙ ap (by_linear (t ∷ tables) i base) (sym skip)
    ]

-- On tables that are laid out, the binary search by address and the linear search agree: the
-- template that `regs_description_get_by_address` fills is the one that the lookup by the number
-- from `regs_description_get_index_by_address` fills, and one fails exactly when the other does.
pub get_by_address-get_index_by_address :
    (tables : List RegsTable) (address : ℕ)
    → AllLaidOut tables
    → regs_description_get_by_address tables address
      ≡ (elim (regs_description_get_index_by_address tables address) [
        | none ↦ none
        | some g ↦ regs_description_get_by_index tables g
      ])
unfolding regs_description_get_by_address regs_description_get_index_by_address
    regs_description_get_by_index
get_by_address-get_index_by_address tables address laid =
    find-by_linear address tables 0 0 laid ∙ unlinear (index_by_address_loop address tables 0)
  where
    unlinear :
        (o : Option ℕ)
        → by_linear tables 0 0 o ≡ (elim o [ none ↦ none | some g ↦ by_index_loop tables 0 0 g ])
    unlinear none = refl
    unlinear (some g) = refl
