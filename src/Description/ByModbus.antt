-- ===== src/Description/ByModbus.antt =====
-- The lookup by Modbus address of main/regs_description.c.
use native.Mathlib.Decide.{dec_lt, ℕ_discrete}
use esp32_template.Base.{
  ℕ, zero, suc, ◌+◌, ◌-◌, ◌*◌, ◌/◌, ◌≡◌, ◌≢◌, ◌≤◌, ◌<◌, ◌⊎◌, inl, inr, refl, sym, ◌∙◌, arith, true,
  Option, none, some, List, [], ◌∷◌,
}
use esp32_template.Base.{ltb, ◌==◌, if◌then◌else◌, length, get_elem?, Option-cases}
use esp32_template.Description.{
  RegsDescription, RegsTable, byte_size, rd_mdb_address, rd_mdb_function,
}
use esp32_template.Description.Search.{search_loop, search_loop-some, search_loop-finds}
use esp32_template.Description.ByAddress.{get_elem?-lt}
use esp32_template.Description.Lookup.{
  u16, modbus_covers, pointer_in_table, regs_description_get_pointer_by_modbus,
}

abbrev pub mdb_address : RegsDescription → ℕ
mdb_address r = rd_mdb_address r.modbus_description

-- The Modbus words that a register takes: at least one
abbrev pub mdb_words : RegsDescription → ℕ
mdb_words r = let w = u16 (byte_size r / 2) in if w == 0 then 1 else w

-- A table as the generator writes it: one Modbus function, ascending word ranges that do not
-- overlap.
pub record IsMapped (function : ℕ) (regs : List RegsDescription) : Type 0 where
  pub same_function :
      (i : ℕ) (x : RegsDescription)
      → get_elem? regs i ≡ some x
      → rd_mdb_function x.modbus_description ≡ function
  pub ascending :
      (i j : ℕ) (x y : RegsDescription)
      → get_elem? regs i ≡ some x
      → get_elem? regs j ≡ some y
      → i < j
      → mdb_address x + mdb_words x ≤ mdb_address y

modbus_covers-range :
    (address function : ℕ) (x : RegsDescription)
    → modbus_covers address function x ≡ true
    → (mdb_address x ≤ address) × (address < mdb_address x + mdb_words x)
unfolding modbus_covers
modbus_covers-range address function x e = ground arith

-- Two registers of a mapped table that have one word are the same.
modbus_covers_unique :
    (address function : ℕ) (regs : List RegsDescription)
    → IsMapped function regs
    → (i j : ℕ) (x y : RegsDescription) → get_elem? regs i ≡ some x
    → get_elem? regs j ≡ some y
    → modbus_covers address function x ≡ true
    → modbus_covers address function y ≡ true
    → x ≡ y
modbus_covers_unique address function regs mapped i j x y hx hy cx cy =
    let rx = modbus_covers-range address function x cx in
    let ry = modbus_covers-range address function y cy in
    elim (dec_lt i j) [
      | yes lt ↦ absurd (omega (arith, mapped.ascending i j x y hx hy lt, rx, ry))
      | no ge ↦ elim (dec_lt j i) [
        | yes gt ↦ absurd (omega (arith, mapped.ascending j i y x hy hx gt, rx, ry))
        | no le ↦ let same : i ≡ j = omega arith in cc
      ]
    ]

-- The address of a word of a register
abbrev pub word_pointer : RegsDescription → ℕ → ℕ
word_pointer r address = r.p_value + (address - mdb_address r) * 2

module _ (address function : ℕ) (t : RegsTable) where
  -- What is found belongs to a register that has this word and this function.
  pub pointer_in_table_sound :
      pointer_in_table address function t ≢ 0
      → (k : ℕ) × (x : RegsDescription) × (get_elem? t.description k ≡ some x)
        × (modbus_covers address function x ≡ true)
        × (pointer_in_table address function t ≡ word_pointer x address)
  unfolding pointer_in_table
  pointer_in_table_sound given = found (Option-cases search)
    where
      search : Option RegsDescription
      search =
          search_loop (modbus_covers address function)
            (λ r. ltb (rd_mdb_address r.modbus_description) address) t.description
            (length t.description) 0 (length t.description)

      found :
          (search ≡ none) ⊎ ((x : RegsDescription) × (search ≡ some x))
          → (k : ℕ) × (x : RegsDescription) × (get_elem? t.description k ≡ some x)
            × (modbus_covers address function x ≡ true)
            × (pointer_in_table address function t ≡ word_pointer x address)
      found (inl e) = absurd (given (ground arith))
      found (inr (x, e)) =
          let (hit, place) =
            search_loop-some (modbus_covers address function)
              (λ r. ltb (rd_mdb_address r.modbus_description) address) t.description
              (length t.description) 0 (length t.description) x e in
          let (k, here) = place in (k, x, here, hit, ground arith)

  module _ (mapped : IsMapped function t.description) where
    -- A word that a register of the table has is found, at its place in that register.
    pub pointer_in_table-finds :
        (k : ℕ) (x : RegsDescription)
        → get_elem? t.description k ≡ some x
        → mdb_address x ≤ address
        → address < mdb_address x + mdb_words x
        → pointer_in_table address function t ≡ word_pointer x address
    unfolding pointer_in_table
    pointer_in_table-finds k x at lo hi =
        let f = mapped.same_function k x at in
        let target : modbus_covers address function x ≡ true =
          unfold modbus_covers in ground arith in
        let (r, found) =
          search_loop-finds (modbus_covers address function)
            (λ y. ltb (rd_mdb_address y.modbus_description) address) t.description k x at target
            (λ i y here lt other. ground (arith, mapped.ascending i k y x here at lt))
            (λ i y here gt other. ground (arith, mapped.ascending k i x y at here gt))
            (length t.description) 0 (length t.description) (omega arith)
            (get_elem?-lt t.description k x at) (omega arith) (omega arith) in
        let (hit, place) =
          search_loop-some (modbus_covers address function)
            (λ y. ltb (rd_mdb_address y.modbus_description) address) t.description
            (length t.description) 0 (length t.description) r found in
        let (j, here) = place in
        let same : r ≡ x =
          modbus_covers_unique address function t.description mapped j k r x here at hit target in
        ground arith

-- Every register has a place in memory.
abbrev IsPlaced : List RegsDescription → Type 0
IsPlaced regs = (k : ℕ) (x : RegsDescription) → get_elem? regs k ≡ some x → 0 < x.p_value

abbrev pub AllMapped : ℕ → List RegsTable → Type 0
AllMapped function [] = Unit
AllMapped function (t ∷ tables) =
    (IsMapped function t.description × IsPlaced t.description) × AllMapped function tables

-- A register of one of the tables
abbrev pub Described : List RegsTable → RegsDescription → Type 0
Described tables x =
    (i : ℕ) × (k : ℕ) × (t : RegsTable) × (get_elem? tables i ≡ some t)
    × (get_elem? t.description k ≡ some x)

-- The register has the Modbus word.
abbrev pub HasWord : RegsDescription → ℕ → Type 0
HasWord x address = (mdb_address x ≤ address) × (address < mdb_address x + mdb_words x)

-- A word that the first table has is not NULL there.
not_in_first :
    (function address : ℕ) (t : RegsTable)
    → IsMapped function t.description × IsPlaced t.description
    → pointer_in_table address function t ≡ 0
    → (k : ℕ) (x : RegsDescription) → get_elem? t.description k ≡ some x
    → HasWord x address
    → ⊥
not_in_first function address t (mapped, placed) null k x at has =
    let e = pointer_in_table-finds address function t mapped k x at has.0 has.1 in
    let p = placed k x at in omega (arith, sym e ∙ null)

-- A register of the tables is in the first or in another one.
Described-tail :
    (t : RegsTable) (tables : List RegsTable) (x : RegsDescription) (address : ℕ)
    → Described (t ∷ tables) x
    → HasWord x address
    → ((k : ℕ) → get_elem? t.description k ≡ some x → ⊥)
    → (Described tables x → ⊥)
    → ⊥
Described-tail t tables x address (zero, k, t', at, here) has first others =
    let same : t' ≡ t = cc in first k (rw same at here)
Described-tail t tables x address (suc i, k, t', at, here) has first others =
    others (i, k, t', at, here)

-- On tables that are mapped to one Modbus function, the lookup for that function gives the place
-- of the word in a register that has it, and gives NULL only if no register of any table has it.
pub get_pointer_by_modbus_complete :
    (function address : ℕ) (tables : List RegsTable)
    → AllMapped function tables
    → ((regs_description_get_pointer_by_modbus tables address function ≢ 0)
        → (x : RegsDescription) × Described tables x
          × HasWord x address
          × (regs_description_get_pointer_by_modbus tables address function
              ≡ word_pointer x address))
      × ((x : RegsDescription)
          → Described tables x
          → HasWord x address
          → regs_description_get_pointer_by_modbus tables address function ≢ 0)
unfolding regs_description_get_pointer_by_modbus
get_pointer_by_modbus_complete function address [] mapped =
    (λ ne. absurd (ne refl), λ x (i, k, t, at, here) has. absurd (ground arith))
get_pointer_by_modbus_complete function address (t ∷ tables) mapped =
    elim (ℕ_discrete (pointer_in_table address function t) 0) [
      | no given ↦
          let here : regs_description_get_pointer_by_modbus (t ∷ tables) address function
              ≡ pointer_in_table address function t =
            ground arith in
          (
            λ ne.
                let (k, x, at, hit, e) = pointer_in_table_sound address function t given in
                (x, (0, k, t, refl, at), modbus_covers-range address function x hit, here ∙ e),
            λ x described has none_there. given (sym here ∙ none_there),
          )
      | yes null ↦
          let later : regs_description_get_pointer_by_modbus (t ∷ tables) address function
              ≡ regs_description_get_pointer_by_modbus tables address function =
            ground arith in
          let rest = get_pointer_by_modbus_complete function address tables mapped.1 in
          (
            λ ne.
                let (x, described, has, e) = rest.0 (λ z. ne (later ∙ z)) in
                let (i, k, t', at, here) = described in
                (x, (suc i, k, t', at, here), has, later ∙ e),
            λ x described has none_there.
                Described-tail t tables x address described has
                  (λ k at. not_in_first function address t mapped.0 null k x at has)
                  (λ there. rest.1 x there has (sym later ∙ none_there)),
          )
    ]
