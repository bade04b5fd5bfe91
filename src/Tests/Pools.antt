-- ===== src/Tests/Pools.antt =====
-- Pools: main/memory_handle.c over a small allocator, and address spaces in one, main/modbus.c.
use esp32_template.Base.{
  ℕ, ◌+◌, ◌-◌, ◌^◌, ◌<◌, ◌≤◌, ◌≡◌, ◌≢◌, ◌↔◌, ◌⊎◌, inr, refl, arith, Bool, true, false, ◌&&◌, not,
  none, some, [], ◌∷◌, ltb, ◌==◌, if◌then◌else◌, set,
}
use esp32_template.Base.Int.{pos}
use esp32_template.Modbus.Dynamic.{
  DinamicAddressSpace, Spaces, contains, space_loop, put_space, modbus_dinamic_addr_check,
  modbus_dinamic_addr_get, modbus_bind_address_space_by_command,
}
use esp32_template.Modbus.Dynamic.Find.{
  HasRange, spaces, modbus_dinamic_addr_check-modbus_bind_address_space,
}
use esp32_template.Pool.{
  Pool, IsValid, block_address, probe_index, alloc_loop, take_block, os_pool_alloc,
  os_pool_get_by_index, os_pool_get_index_by_pointer, os_pool_free,
}
use esp32_template.Pool.Alloc.{marker, os_pool_alloc-full}
use esp32_template.Pool.Blocks.{os_pool_alloc-lookup, os_pool_alloc-disjoint}
use esp32_template.Pool.Create.{
  Heap, PoolDef, Created, os_pool_create, create_markers, create_pool, item_size,
  os_pool_create-fails,
}

-- Three blocks of eight bytes; block 0 is handed out.
abbrev three : Pool
three = record {
  pool = 1000;
  markers = 1 ∷ 0 ∷ 0 ∷ [];
  pool_sz = 3;
  item_sz = 8;
  current_index = 0;
}

three-IsValid : IsValid three
three-IsValid = record {
  marker_each = refl;
  based = omega arith;
  item_words = omega arith;
  inside = omega arith;
  current = omega arith;
}

three_alloc :
    os_pool_alloc three ≡ (1008, record three { markers = 1 ∷ 1 ∷ 0 ∷ []; current_index = 1 })
unfolding os_pool_alloc take_block alloc_loop probe_index block_address
three_alloc = refl

three_given : (os_pool_alloc three).0 ≢ 0
three_given = rw three_alloc (omega arith)

three_again : (os_pool_alloc (os_pool_alloc three).1).0 ≢ 0
unfolding os_pool_alloc take_block alloc_loop probe_index block_address
three_again = omega arith

os_pool_alloc-full_example :
    ((os_pool_alloc three).0 ≡ 0) ↔ ((i : ℕ) → i < 3 → (i ≡ 0) ⊎ (0 ≤ i) → marker three i ≢ 0)
os_pool_alloc-full_example = os_pool_alloc-full three three-IsValid

os_pool_alloc-lookup_example :
    let (a, p') = os_pool_alloc three in
    (x : ℕ) × (os_pool_get_by_index (some p') x ≡ a)
    × (os_pool_get_index_by_pointer (some p') (a + 5) ≡ pos x)
    × (os_pool_free (some p') a ≡ (pos 0, some (record p' { markers = set p'.markers x 0 })))
    × (marker (record p' { markers = set p'.markers x 0 }) x ≡ marker three x)
os_pool_alloc-lookup_example = os_pool_alloc-lookup three 5 three-IsValid three_given (omega arith)

os_pool_alloc-disjoint_example :
    let (a, p') = os_pool_alloc three in let b = (os_pool_alloc p').0 in (a + 8 ≤ b) ⊎ (b + 8 ≤ a)
os_pool_alloc-disjoint_example = os_pool_alloc-disjoint three three-IsValid three_given three_again

-- An allocator that gives out ever higher addresses, up to the end of the address space
record Bump : Type 0 where
  next : ℕ
  used : ℕ → Bool

abbrev has_room : ℕ → Bump → Bool
has_room n h = not (h.next == 0) && ltb (h.next + n) (2 ^ 32) && not (h.used h.next)

abbrev bump : ℕ → Bump → ℕ × Bump
bump n h =
    if has_room n h
    then (
      h.next,
      record { next = h.next + n + 1; used = λ a. if a == h.next then true else h.used a },
    )
    else (0, h)

abbrev bump_free : ℕ → Bump → Bump
bump_free a h = record h { used = λ b. if b == a then false else h.used b }

abbrev bump_heap : Heap
bump_heap = record {
  State = Bump;
  pv_port_malloc = bump;
  v_port_free = bump_free;
  in_use = λ h a. h.used a;
  refused = λ n h b e. ground arith;
  fresh = λ n h ne. ground arith;
  fits = λ n h ne. ground arith;
  given = λ n h b ne. ground arith;
  freed = λ a h b. refl;
}

abbrev start : ℕ → Bump
start next = record { next = next; used = λ a. false }

abbrev ten_items : PoolDef
ten_items = record { pool_sz = 10; item_sz = 6 }

-- There is room for the control block and the markers, but not for the blocks.
too_small : (os_pool_create bump_heap ten_items (start (2 ^ 32 - 80))).0 ≡ none
unfolding os_pool_create create_markers create_pool item_size
too_small = refl

os_pool_create-fails_example :
    (os_pool_create bump_heap ten_items (start (2 ^ 32 - 80))).1.used (2 ^ 32 - 80) ≡ false
os_pool_create-fails_example =
    os_pool_create-fails bump_heap ten_items (start (2 ^ 32 - 80)) too_small (2 ^ 32 - 80)

abbrev ten_created : Created
ten_created = record {
  control = 1000;
  markers_at = 1021;
  the_pool = record {
    pool = 1032;
    markers = 0 ∷ 0 ∷ 0 ∷ 0 ∷ 0 ∷ 0 ∷ 0 ∷ 0 ∷ 0 ∷ 0 ∷ [];
    pool_sz = 10;
    item_sz = 8;
    current_index = 0;
  };
}

ten_created_at : (os_pool_create bump_heap ten_items (start 1000)).0 ≡ some ten_created
unfolding os_pool_create create_markers create_pool item_size
ten_created_at = refl

-- Larger blocks, for address spaces
abbrev pool : Pool
pool = record three { item_sz = 16 }

pool-IsValid : IsValid pool
pool-IsValid = record {
  marker_each = refl;
  based = omega arith;
  item_words = omega arith;
  inside = omega arith;
  current = omega arith;
}

abbrev held : ℕ → DinamicAddressSpace
held p = record { address = 0; len = 0; space = 0; command = 3 }

abbrev bound : ℕ × Spaces
bound = modbus_bind_address_space_by_command (spaces pool held) 40 500 10 0xff

is_bound : bound.0 ≢ 0
unfolding modbus_bind_address_space_by_command modbus_dinamic_addr_check space_loop contains
    put_space os_pool_alloc take_block alloc_loop probe_index block_address os_pool_get_by_index
is_bound = omega arith

modbus_dinamic_addr_check-modbus_bind_address_space_example :
    let s = bound.1 in
    (k : ℕ) × (modbus_dinamic_addr_check s 42 3 5 ≡ pos k
      × modbus_dinamic_addr_get s (pos k) ≢ 0
      × HasRange (s.held (modbus_dinamic_addr_get s (pos k))) 42 5 3)
modbus_dinamic_addr_check-modbus_bind_address_space_example =
    modbus_dinamic_addr_check-modbus_bind_address_space pool held 40 500 10 0xff 42 5 3 pool-IsValid
      is_bound (omega arith) (omega arith) (omega arith) (omega arith) (inr refl)
