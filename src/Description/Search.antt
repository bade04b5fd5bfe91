-- ===== src/Description/Search.antt =====
-- The binary search that main/regs_description.c writes out three times: by guid, by address and
-- by Modbus address. `left` is `lo`, and `right` is `hi - 1`, which may be -1.
use esp32_template.Base.{
  ℕ, zero, suc, ◌+◌, ◌-◌, ◌/◌, ◌≡◌, ◌≢◌, ◌≤◌, ◌<◌, refl, arith, Bool, true, false, Option, none,
  some, List, [], ◌∷◌, inl, inr,
}
use esp32_template.Base.{ltb, length, get_elem?, Bool-cases, Option-cases}
use native.Mathlib.Decide.{dec_lt}

pub get_elem?-some {ℓ} :
    {A : Type ℓ} (xs : List A) (i : ℕ) → i < length xs → (x : A) × (get_elem? xs i ≡ some x)
get_elem?-some [] i h = absurd (omega arith)
get_elem?-some (x ∷ xs) zero h = (x, refl)
get_elem?-some (x ∷ xs) (suc i) h = get_elem?-some xs i (omega arith)

module _ {ℓ} {A : Type ℓ} (hit after : A → Bool) (table : List A) where
  -- One round: `hit` ends the search, `after` sends it to the right half.
  unfoldable pub search_loop : ℕ → ℕ → ℕ → Option A
  search_loop zero lo hi = none
  search_loop (suc fuel) lo hi = elim (ltb lo hi) [
    | false ↦ none
    | true ↦ elim (get_elem? table ((lo + hi - 1) / 2)) [
      | none ↦ none
      | some r ↦ elim (hit r) [
        | true ↦ some r
        | false ↦ elim (after r) [
          | true ↦ search_loop fuel ((lo + hi - 1) / 2 + 1) hi
          | false ↦ search_loop fuel lo ((lo + hi - 1) / 2)
        ]
      ]
    ]
  ]

  -- What is found is a hit in the table.
  pub search_loop-some :
      (fuel lo hi : ℕ) (r : A)
      → search_loop fuel lo hi ≡ some r
      → (hit r ≡ true) × ((i : ℕ) × (get_elem? table i ≡ some r))
  unfolding search_loop
  search_loop-some zero lo hi r e = ground arith
  search_loop-some (suc fuel) lo hi r e =
      let mid = (lo + hi - 1) / 2 in
      elim (Option-cases (get_elem? table mid)) [
        | inl gone ↦ absurd (ground arith)
        | inr (x, at) ↦ elim (Bool-cases (hit x)) [
          | inl found ↦ (ground arith, (mid, ground arith))
          | inr other ↦ elim (Bool-cases (after x)) [
            | inl right ↦ search_loop-some fuel (mid + 1) hi r (ground arith)
            | inr left ↦ search_loop-some fuel lo mid r (ground arith)
          ]
        ]
      ]

  -- A target that every other entry points to is found, with a round for each entry in between.
  module _ (t : ℕ) (x : A) (at : get_elem? table t ≡ some x) (target : hit x ≡ true)
      (before : (i : ℕ) (y : A)
        → get_elem? table i ≡ some y
        → i < t
        → hit y ≡ false
        → after y ≡ true)
      (beyond : (i : ℕ) (y : A)
        → get_elem? table i ≡ some y
        → t < i
        → hit y ≡ false
        → after y ≡ false) where
    pub search_loop-finds :
        (fuel lo hi : ℕ)
        → lo ≤ t
        → t < hi
        → hi ≤ length table
        → hi - lo ≤ fuel
        → (r : A) × (search_loop fuel lo hi ≡ some r)
    unfolding search_loop
    search_loop-finds zero lo hi p q fits f = absurd (omega arith)
    search_loop-finds (suc fuel) lo hi p q fits f =
        let mid = (lo + hi - 1) / 2 in
        let (y, here) = get_elem?-some table mid (omega arith) in
        elim (Bool-cases (hit y)) [
          | inl found ↦ (y, ground arith)
          | inr other ↦ elim (dec_lt mid t) [
            | yes right ↦
                let e = before mid y here right other in
                let (r, g) =
                  search_loop-finds fuel (mid + 1) hi (omega arith) q fits (omega arith) in
                (r, ground arith)
            | no left ↦
                let ne : mid ≢ t = λ same. cc (at, here, target, other, same) in
                let e = beyond mid y here (omega arith) other in
                let (r, g) =
                  search_loop-finds fuel lo mid p (omega arith) (omega arith) (omega arith) in
                (r, ground arith)
          ]
        ]
