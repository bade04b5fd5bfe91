-- ===== src/Pool/Blocks.antt =====
-- Blocks that are handed out: looked up by index and by pointer, returned, and kept apart
-- (main/memory_handle.c).
use esp32_template.Base.{
  sym, ◌∙◌, ℕ, ◌+◌, ◌-◌, ◌*◌, ◌/◌, ◌%◌, ◌≤◌, ◌<◌, ◌≡◌, ◌≢◌, ◌↔◌, ◌⊎◌, inl, inr, ap, arith,
}
use esp32_template.Base.{some, length, get_or, set, length-set, get_or-set_self}
use native.Mathlib.Decide.{dec_lt}
use native.Mathlib.Nat.{div-add-mod'}
use esp32_template.Base.Int.{pos}
use esp32_template.Pool.{
  Pool, IsValid, os_pool_alloc, os_pool_get_by_index, os_pool_get_index_by_pointer, os_pool_free,
  u32,
}
use esp32_template.Pool.Alloc.{marker, block_address_exact, os_pool_alloc-takes}

-- The quotient and the remainder of an address inside block `x`
div-of_block : (x s off : ℕ) → off < s → (x * s + off) / s ≡ x
div-of_block x s off h = grind arith

mod-of_block : (x s off : ℕ) → off < s → (x * s + off) % s ≡ off
mod-of_block x s off h = grind (arith, div-of_block)

block_end : (x n s : ℕ) → x < n → x * s + s ≤ n * s
block_end x n s h = grind arith

module _ (p : Pool) (v : IsValid p) where
  -- Any address inside block `x` is that block's for `os_pool_get_index_by_pointer`.
  index_by_pointer :
      (x off : ℕ)
      → x < p.pool_sz
      → off < p.item_sz
      → os_pool_get_index_by_pointer (some p) (p.pool + x * p.item_sz + off) ≡ pos x
  unfolding os_pool_get_index_by_pointer
  index_by_pointer x off h fits =
      let e : u32 (p.pool + p.item_sz * p.pool_sz) ≡ p.pool + p.pool_sz * p.item_sz =
        omega (arith, v.inside) in
      let f : p.pool + x * p.item_sz + off - p.pool ≡ x * p.item_sz + off = omega arith in
      rw (e, f)
        (ground (arith, block_end x p.pool_sz p.item_sz h, div-of_block x p.item_sz off fits))

  free_block :
      (x : ℕ)
      → x < p.pool_sz
      → os_pool_free (some p) (p.pool + x * p.item_sz)
        ≡ (pos 0, some (record p { markers = set p.markers x 0 }))
  unfolding os_pool_free
  free_block x h =
      let f : p.pool + x * p.item_sz - p.pool ≡ x * p.item_sz + 0 = omega arith in
      rw f (
        ground (
          arith,
          v.based,
          v.item_words,
          div-of_block x p.item_sz 0 (omega (arith, v.item_words)),
          mod-of_block x p.item_sz 0 (omega (arith, v.item_words)),
        ))

  -- What `os_pool_free` accepts is the address of a block.
  free_ok :
      (block : ℕ)
      → (os_pool_free (some p) block).0 ≡ pos 0
      → (x : ℕ) × (x < p.pool_sz) × (block ≡ p.pool + x * p.item_sz)
  unfolding os_pool_free
  free_ok block e = (
    (block - p.pool) / p.item_sz,
    ground arith,
    ground (arith, div-add-mod' (block - p.pool) p.item_sz),
  )

-- `os_pool_free` on a valid pool succeeds exactly on the addresses of its blocks, whether or not
-- the block is handed out.
pub os_pool_free-accepts :
    (p : Pool) (block : ℕ)
    → IsValid p
    → ((os_pool_free (some p) block).0 ≡ pos 0)
      ↔ ((x : ℕ) × (x < p.pool_sz) × (block ≡ p.pool + x * p.item_sz))
os_pool_free-accepts p block v =
    (free_ok p v block, λ (x, h, e). rw e (ap (λ r. r.0) (free_block p v x h)))

-- The pool after block `x` has been handed out
abbrev taken : Pool → ℕ → Pool
taken p x = record p { markers = set p.markers x 1; current_index = x }

module _ (p : Pool) (v : IsValid p) (x : ℕ) (below : x < p.pool_sz) where
  taken-IsValid : IsValid (taken p x)
  taken-IsValid = ground (arith, length-set p.markers x 1)

  in_markers : x < length p.markers
  in_markers = rw v.marker_each below

  get_taken : os_pool_get_by_index (some (taken p x)) x ≡ p.pool + x * p.item_sz
  unfolding os_pool_get_by_index
  get_taken =
      rw (get_or-set_self p.markers x 1 0 in_markers)
        (ground (arith, block_address_exact (taken p x) taken-IsValid x below))

  restored : marker p x ≡ 0 → get_or (set (set p.markers x 1) x 0) x 0 ≡ marker p x
  restored free =
      get_or-set_self (set p.markers x 1) x 0 0 (rw (length-set p.markers x 1) in_markers)
      ∙ sym free

-- A block just handed out is found by its index, its index is found from any address inside it,
-- and returning it clears its marker again and changes nothing else.
pub os_pool_alloc-lookup :
    (p : Pool) (off : ℕ)
    → IsValid p
    → (os_pool_alloc p).0 ≢ 0
    → off < p.item_sz
    → let (a, p') = os_pool_alloc p in
      (x : ℕ) × (os_pool_get_by_index (some p') x ≡ a)
      × (os_pool_get_index_by_pointer (some p') (a + off) ≡ pos x)
      × (os_pool_free (some p') a ≡ (pos 0, some (record p' { markers = set p'.markers x 0 })))
      × (marker (record p' { markers = set p'.markers x 0 }) x ≡ marker p x)
os_pool_alloc-lookup p off v given fits =
    let (x, below, free, at, next) = os_pool_alloc-takes p v given in
    let w = taken-IsValid p v x below in
    (
      x,
      rw (at, next) (get_taken p v x below),
      rw (at, next) (index_by_pointer (taken p x) w x off below fits),
      rw (at, next) (free_block (taken p x) w x below),
      rw next (restored p v x below free),
    )

blocks_apart :
    (base x y s : ℕ) → x ≢ y → (base + x * s + s ≤ base + y * s) ⊎ (base + y * s + s ≤ base + x * s)
blocks_apart base x y s ne = elim (dec_lt x y) [
  | yes lt ↦ inl (omega (arith, block_end x y s lt))
  | no ge ↦ inr (omega (arith, block_end y x s (omega arith)))
]

-- Two blocks handed out one after the other do not overlap.
pub os_pool_alloc-disjoint :
    (p : Pool)
    → IsValid p
    → (os_pool_alloc p).0 ≢ 0
    → (os_pool_alloc (os_pool_alloc p).1).0 ≢ 0
    → let (a, p') = os_pool_alloc p in
      let b = (os_pool_alloc p').0 in (a + p.item_sz ≤ b) ⊎ (b + p.item_sz ≤ a)
os_pool_alloc-disjoint p v given again =
    let (x, below, free, at, next) = os_pool_alloc-takes p v given in
    let (y, below', free', at', next') =
      os_pool_alloc-takes (taken p x) (taken-IsValid p v x below) (rw next at again) in
    let ne : x ≢ y = λ e. absurd (
      omega (arith, rw (← e) at free', get_or-set_self p.markers x 1 0 (in_markers p v x below))) in
    rw (at, next, at') (blocks_apart p.pool x y p.item_sz ne)
