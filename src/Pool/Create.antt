-- ===== src/Pool/Create.antt =====
-- `os_pool_create` and `os_pool_delete` of main/memory_handle.c over an allocator that is not part
-- of the repository: FreeRTOS's `pvPortMalloc` and `vPortFree` are the record `Heap`.
use esp32_template.Base.{
  ℕ, zero, suc, ◌+◌, ◌*◌, ◌/◌, ◌^◌, ◌≤◌, ◌<◌, ◌≡◌, ◌≢◌, refl, arith, Bool, true, false, Option,
  none, some, List, [], ◌∷◌, ◌==◌, if◌then◌else◌, length, get_or, ap,
}
use esp32_template.Base.Int.{ℤ, pos, minus, sub_int}
use esp32_template.Pool.{Pool, IsValid, u32}

-- Memory allocation as FreeRTOS documents it. `in_use h a` tells whether the block at `a` is
-- allocated.
pub record Heap : Type 1 where
  pub State : Type 0
  pub pv_port_malloc : ℕ → State → ℕ × State
  pub v_port_free : ℕ → State → State
  pub in_use : State → ℕ → Bool
  -- NULL is returned with nothing allocated.
  pub refused :
      (n : ℕ) (h : State) (b : ℕ)
      → (pv_port_malloc n h).0 ≡ 0
      → in_use (pv_port_malloc n h).1 b ≡ in_use h b
  -- Any other address was not in use, and the `n` bytes from it on are inside the address space.
  pub fresh :
      (n : ℕ) (h : State) → (pv_port_malloc n h).0 ≢ 0 → in_use h (pv_port_malloc n h).0 ≡ false
  pub fits : (n : ℕ) (h : State) → (pv_port_malloc n h).0 ≢ 0 → (pv_port_malloc n h).0 + n < 2 ^ 32
  pub given :
      (n : ℕ) (h : State) (b : ℕ)
      → (pv_port_malloc n h).0 ≢ 0
      → in_use (pv_port_malloc n h).1 b ≡ (if b == (pv_port_malloc n h).0 then true else in_use h b)
  -- Freeing a block takes it out of use.
  pub freed :
      (a : ℕ) (h : State) (b : ℕ)
      → in_use (v_port_free a h) b ≡ (if b == a then false else in_use h b)

-- `os_pool_def_t`
pub record PoolDef : Type 0 where
  pub pool_sz : ℕ
  pub item_sz : ℕ

-- A created pool: the addresses of the control block and of the markers, and what they hold
pub record Created : Type 0 where
  pub control : ℕ
  pub markers_at : ℕ
  pub the_pool : Pool

abbrev zeros : ℕ → List ℕ
zeros zero = []
zeros (suc n) = 0 ∷ zeros n

-- The item size, rounded up to whole words
unfoldable pub item_size : PoolDef → ℕ
item_size d = u32 (4 * (u32 (d.item_sz + 3) / 4))

-- `sizeof(os_pool_cb_t)`
abbrev pub control_size : ℕ
control_size = 20

mul_mono : (n a b : ℕ) → a ≤ b → n * a ≤ n * b
mul_mono n a b h = grind arith

module _ (heap : Heap) where
  open heap use {State, pv_port_malloc, v_port_free, in_use, refused, fresh, fits, given, freed}

  -- The third allocation, with the two earlier ones given back where it fails
  unfoldable pub create_pool : PoolDef → ℕ → ℕ → State → Option Created × State
  unfolding item_size
  create_pool d control markers h =
      let (pool, h') = pv_port_malloc (u32 (d.pool_sz * item_size d)) h in
      if pool == 0 then (none, v_port_free control (v_port_free markers h')) else (
        some (record {
          control = control;
          markers_at = markers;
          the_pool = record {
            pool = pool;
            markers = zeros d.pool_sz;
            pool_sz = d.pool_sz;
            item_sz = item_size d;
            current_index = 0;
          };
        }),
        h',
      )

  unfoldable pub create_markers : PoolDef → ℕ → State → Option Created × State
  unfolding create_pool
  create_markers d control h =
      let (markers, h') = pv_port_malloc d.pool_sz h in
      if markers == 0 then (none, v_port_free control h') else create_pool d control markers h'

  unfoldable pub os_pool_create : PoolDef → State → Option Created × State
  unfolding create_markers
  os_pool_create d h =
      let (control, h') = pv_port_malloc control_size h in
      if control == 0 then (none, h') else create_markers d control h'

  -- Free what is there, and count what is not.
  unfoldable pub os_pool_delete : Option Created → State → ℤ × State
  os_pool_delete none h = (minus 3, h)
  os_pool_delete (some c) h =
      let h1 = if c.the_pool.pool == 0 then h else v_port_free c.the_pool.pool h in
      let h2 = if c.markers_at == 0 then h1 else v_port_free c.markers_at h1 in
      let res =
        sub_int (if c.the_pool.pool == 0 then minus 1 else pos 0)
          (if c.markers_at == 0 then 1 else 0) in
      (res, v_port_free c.control h2)

  create_pool-fails :
      (d : PoolDef) (control markers : ℕ) (h : State) (b : ℕ)
      → (create_pool d control markers h).0 ≡ none
      → in_use (create_pool d control markers h).1 b
        ≡ (if b == control then false else if b == markers then false else in_use h b)
  unfolding create_pool
  create_pool-fails d control markers h b e =
      let n = u32 (d.pool_sz * item_size d) in
      let h' = (pv_port_malloc n h).1 in
      ground (arith, refused n h b, freed control (v_port_free markers h') b, freed markers h' b)

  create_markers-fails :
      (d : PoolDef) (control : ℕ) (h : State) (b : ℕ)
      → (create_markers d control h).0 ≡ none
      → in_use (create_markers d control h).1 b ≡ (if b == control then false else in_use h b)
  unfolding create_markers
  create_markers-fails d control h b e =
      let markers = (pv_port_malloc d.pool_sz h).0 in
      let h' = (pv_port_malloc d.pool_sz h).1 in
      ground (
        arith,
        refused d.pool_sz h b,
        given d.pool_sz h b,
        fresh d.pool_sz h,
        freed control h' b,
        create_pool-fails d control markers h' b,
      )

  -- When the pool cannot be created, nothing stays allocated: exactly the blocks that were in use
  -- before the call are in use after it.
  pub os_pool_create-fails :
      (d : PoolDef) (h : State)
      → (os_pool_create d h).0 ≡ none
      → (b : ℕ) → in_use (os_pool_create d h).1 b ≡ in_use h b
  unfolding os_pool_create
  os_pool_create-fails d h e b =
      let control = (pv_port_malloc control_size h).0 in
      let h' = (pv_port_malloc control_size h).1 in
      ground (
        arith,
        refused control_size h b,
        given control_size h b,
        fresh control_size h,
        create_markers-fails d control h' b,
      )

  length-zeros : (n : ℕ) → length (zeros n) ≡ n
  length-zeros zero = refl
  length-zeros (suc n) = ap suc (length-zeros n)

  get_or-zeros : (n i : ℕ) → get_or (zeros n) i 0 ≡ 0
  get_or-zeros zero i = refl
  get_or-zeros (suc n) zero = refl
  get_or-zeros (suc n) (suc i) = get_or-zeros n i

  -- What a successful creation gives: a valid pool of the asked number of blocks, each at least
  -- as large as asked, none of them handed out.
  abbrev pub IsFresh : PoolDef → Created → Type 0
  IsFresh d c =
      IsValid c.the_pool
      × (c.the_pool.pool_sz ≡ d.pool_sz)
      × (d.item_sz ≤ c.the_pool.item_sz)
      × ((i : ℕ) → get_or c.the_pool.markers i 0 ≡ 0)

  abbrev created : PoolDef → ℕ → ℕ → ℕ → Created
  created d control markers pool = record {
    control = control;
    markers_at = markers;
    the_pool = record {
      pool = pool;
      markers = zeros d.pool_sz;
      pool_sz = d.pool_sz;
      item_sz = item_size d;
      current_index = 0;
    };
  }

  module _ (d : PoolDef) (some_item : 0 < d.item_sz) (item : d.item_sz + 3 < 2 ^ 32)
      (total : d.pool_sz * (d.item_sz + 3) < 2 ^ 32) where
    item_size_bounds : (d.item_sz ≤ item_size d) × (item_size d ≤ d.item_sz + 3) × (4 ≤ item_size d)
    unfolding item_size
    item_size_bounds = (omega arith, omega arith, omega arith)

    pool_size_exact : u32 (d.pool_sz * item_size d) ≡ d.pool_sz * item_size d
    pool_size_exact =
        omega (arith, mul_mono d.pool_sz (item_size d) (d.item_sz + 3) item_size_bounds.1)

    create_pool-IsFresh :
        (control markers : ℕ) (h : State) (c : Created)
        → (create_pool d control markers h).0 ≡ some c
        → IsFresh d c
    unfolding create_pool
    create_pool-IsFresh control markers h c e =
        let n = u32 (d.pool_sz * item_size d) in
        let a = (pv_port_malloc n h).0 in
        let ne : a ≢ 0 = ground arith in
        let eq : c ≡ created d control markers a = ground arith in
        rw eq (
          record {
            marker_each = length-zeros d.pool_sz;
            based = omega arith;
            item_words = item_size_bounds.2;
            inside = omega (arith, fits n h ne, pool_size_exact);
            current = omega arith;
          },
          refl,
          item_size_bounds.0,
          get_or-zeros d.pool_sz,
        )

    -- A pool that is created is valid and empty: it has the asked number of blocks, each at least
    -- as large as asked for, and none is handed out.
    pub os_pool_create-IsFresh :
        (h : State) (c : Created) → (os_pool_create d h).0 ≡ some c → IsFresh d c
    unfolding os_pool_create create_markers
    os_pool_create-IsFresh h c e =
        let control = (pv_port_malloc control_size h).0 in
        let h' = (pv_port_malloc control_size h).1 in
        let markers = (pv_port_malloc d.pool_sz h').0 in
        create_pool-IsFresh control markers (pv_port_malloc d.pool_sz h').1 c (ground arith)
