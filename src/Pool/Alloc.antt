-- ===== src/Pool/Alloc.antt =====
-- What `os_pool_alloc` finds, and what it overlooks (main/memory_handle.c).
use native.Mathlib.Decide.{dec_lt}
use esp32_template.Base.{
  ℕ, zero, suc, ◌+◌, ◌-◌, ◌*◌, ◌^◌, ◌≤◌, ◌<◌, ◌≡◌, ◌≢◌, ◌↔◌, ◌⊎◌, inl, inr, refl, arith,
}
use esp32_template.Base.{
  Option, none, some, Option-cases, ltb, if◌then◌else◌, get_or, set, length-set,
}
use esp32_template.Pool.{
  Pool, IsValid, block_address, probe_index, alloc_loop, take_block, os_pool_alloc, u32,
}

-- The marker of block `i`
abbrev pub marker : Pool → ℕ → ℕ
marker p i = get_or p.markers i 0

module _ (p : Pool) (v : IsValid p) where
  pub size-le : (i : ℕ) → i ≤ p.pool_sz → i * p.item_sz ≤ p.pool_sz * p.item_sz
  size-le i h = grind arith

  pub pool_sz-lt : p.pool_sz < 2 ^ 30
  pool_sz-lt =
      let inside = v.inside in
      let h : p.pool_sz * 4 ≤ p.pool_sz * p.item_sz = grind (arith, v.item_words) in omega arith

  -- Inside the pool the 32-bit address arithmetic is exact.
  pub block_address_exact : (i : ℕ) → i < p.pool_sz → block_address p i ≡ p.pool + i * p.item_sz
  unfolding block_address
  block_address_exact i h = omega (arith, size-le i (omega arith), v.inside)

  pub probe_index_exact :
      (i : ℕ)
      → i < p.pool_sz
      → probe_index p i ≡ (if ltb (p.current_index + i) p.pool_sz then p.current_index + i else 0)
  unfolding probe_index
  probe_index_exact i h =
      let e : u32 (p.current_index + i) ≡ p.current_index + i =
        omega (arith, pool_sz-lt, v.current) in
      rw e (ground arith)

  pub probe_index-lt : (i : ℕ) → i < p.pool_sz → probe_index p i < p.pool_sz
  probe_index-lt i h = rw (probe_index_exact i h) (ground arith)

  -- A round that finds a block stops the search at it.
  pub alloc_loop-some :
      (left i x : ℕ)
      → i + left ≤ p.pool_sz
      → alloc_loop p left i ≡ some x
      → (x < p.pool_sz) × (marker p x ≡ 0)
  unfolding alloc_loop
  alloc_loop-some zero i x h e = ground arith
  alloc_loop-some (suc left) i x h e =
      ground (arith, alloc_loop-some left (i + 1) x, probe_index-lt i (omega arith))

  -- The search fails when every round looks at a block that is handed out.
  pub alloc_loop-none :
      (left i k : ℕ)
      → alloc_loop p left i ≡ none
      → i ≤ k
      → k < i + left
      → marker p (probe_index p k) ≢ 0
  unfolding alloc_loop
  alloc_loop-none zero i k e lo hi = absurd (omega arith)
  alloc_loop-none (suc left) i k e lo hi = elim (dec_lt i k) [
    | yes later ↦ ground (arith, alloc_loop-none left (i + 1) k)
    | no here ↦ let same : k ≡ i = omega arith in rw same (ground arith)
  ]

  pub alloc_loop_full :
      (left i : ℕ)
      → ((k : ℕ) → i ≤ k → k < i + left → marker p (probe_index p k) ≢ 0)
      → alloc_loop p left i ≡ none
  unfolding alloc_loop
  alloc_loop_full zero i h = refl
  alloc_loop_full (suc left) i h = ground (
    arith,
    h i (omega arith) (omega arith),
    alloc_loop_full left (i + 1) (λ k lo hi. h k (omega arith) (omega arith)),
  )

  pub block_address-pos : (i : ℕ) → i < p.pool_sz → 0 < block_address p i
  block_address-pos i h = rw (block_address_exact i h) (omega (arith, v.based))

  take_block-none :
      (o : Option ℕ)
      → ((x : ℕ) → o ≡ some x → x < p.pool_sz)
      → ((take_block p o).0 ≡ 0) ↔ (o ≡ none)
  unfolding take_block
  take_block-none none h = (λ e. refl, λ e. refl)
  take_block-none (some x) h =
      (λ e. absurd (omega (arith, block_address-pos x (h x refl))), λ e. ground arith)

module _ (p : Pool) (v : IsValid p) where
  -- The blocks that the search looks at: block 0, and those from the last one handed out on
  abbrev Seen : ℕ → Type 0
  Seen i = (i ≡ 0) ⊎ (p.current_index ≤ i)

  -- Each of them is the block of some round.
  round_of : (i : ℕ) → i < p.pool_sz → Seen i → (k : ℕ) × (k < p.pool_sz) × (probe_index p k ≡ i)
  round_of i h (inr from) = (
    i - p.current_index,
    omega arith,
    rw (probe_index_exact p v (i - p.current_index) (omega arith)) (ground arith),
  )
  round_of i h (inl e) = elim (dec_lt 0 p.current_index) [
    | yes later ↦ (
      p.pool_sz - p.current_index,
      omega (arith, v.current),
      rw (probe_index_exact p v (p.pool_sz - p.current_index) (omega (arith, v.current)))
          (ground (arith, v.current)),
    )
    | no first ↦ (0, omega arith, rw (probe_index_exact p v 0 (omega arith)) (ground arith))
  ]

  Seen-round : (k : ℕ) → k < p.pool_sz → Seen (probe_index p k)
  Seen-round k h = rw (probe_index_exact p v k h) (ground arith)

  search_full :
      (alloc_loop p p.pool_sz 0 ≡ none) ↔ ((i : ℕ) → i < p.pool_sz → Seen i → marker p i ≢ 0)
  search_full = (
    λ e i h seen.
        let (k, below, at) = round_of i h seen in
        rw (← at) (alloc_loop-none p v p.pool_sz 0 k e (omega arith) (omega arith)),
    λ used. alloc_loop_full p v p.pool_sz 0 (λ k lo hi.
        used (probe_index p k) (probe_index-lt p v k (omega arith)) (Seen-round k (omega arith))),
  )

take_block-IsValid :
    (p : Pool)
    → IsValid p
    → (o : Option ℕ) → ((x : ℕ) → o ≡ some x → x < p.pool_sz)
    → IsValid (take_block p o).1
unfolding take_block
take_block-IsValid p v none h = v
take_block-IsValid p v (some x) h = ground (arith, length-set p.markers x 1, h x refl)

-- A valid pool refuses an allocation exactly when block 0 and all blocks from the last one handed
-- out up to the end are in use. Free blocks between them do not count.
pub os_pool_alloc-full :
    (p : Pool)
    → IsValid p
    → ((os_pool_alloc p).0 ≡ 0)
      ↔ ((i : ℕ) → i < p.pool_sz → (i ≡ 0) ⊎ (p.current_index ≤ i) → marker p i ≢ 0)
unfolding os_pool_alloc
os_pool_alloc-full p v =
    let t =
      take_block-none p v (alloc_loop p p.pool_sz 0)
        (λ x e. (alloc_loop-some p v p.pool_sz 0 x (omega arith) e).0) in
    let s = search_full p v in (λ e. s.0 (t.0 e), λ used. t.1 (s.1 used))

-- A block that is handed out was free, lies inside the pool, is now marked, and is where the next
-- search starts; every other marker, and the pool's geometry, stay as they were.
pub os_pool_alloc-takes :
    (p : Pool)
    → IsValid p
    → (os_pool_alloc p).0 ≢ 0
    → (x : ℕ) × (x < p.pool_sz)
      × (marker p x ≡ 0)
      × ((os_pool_alloc p).0 ≡ p.pool + x * p.item_sz)
      × ((os_pool_alloc p).1 ≡ record p { markers = set p.markers x 1; current_index = x })
unfolding os_pool_alloc
os_pool_alloc-takes p v given = taken (Option-cases (alloc_loop p p.pool_sz 0))
  where
    taken :
        (alloc_loop p p.pool_sz 0 ≡ none) ⊎ ((x : ℕ) × (alloc_loop p p.pool_sz 0 ≡ some x))
        → (x : ℕ) × (x < p.pool_sz)
          × (marker p x ≡ 0)
          × ((take_block p (alloc_loop p p.pool_sz 0)).0 ≡ p.pool + x * p.item_sz)
          × ((take_block p (alloc_loop p p.pool_sz 0)).1
              ≡ record p { markers = set p.markers x 1; current_index = x })
    taken (inl e) = absurd (given (rw e (refl)))
    taken (inr (x, e)) =
        let (below, free) = alloc_loop-some p v p.pool_sz 0 x (omega arith) e in
        (x, below, free, rw e (block_address_exact p v x below), rw e)

-- An allocation, successful or not, leaves the pool valid.
pub os_pool_alloc-IsValid : (p : Pool) → IsValid p → IsValid (os_pool_alloc p).1
unfolding os_pool_alloc
os_pool_alloc-IsValid p v =
    take_block-IsValid p v (alloc_loop p p.pool_sz 0)
      (λ x e. (alloc_loop-some p v p.pool_sz 0 x (omega arith) e).0)
