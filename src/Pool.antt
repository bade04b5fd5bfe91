-- ===== src/Pool.antt =====
-- main/memory_handle.c: a pool of equal blocks. One marker byte for each block tells whether it is
-- handed out. Addresses are numbers, 0 is NULL; `uint32_t` arithmetic wraps at 2 ^ 32.
pub mod Create
pub mod Alloc
pub mod Blocks
use esp32_template.Base.{
  ℕ, zero, suc, ◌+◌, ◌-◌, ◌*◌, ◌/◌, ◌%◌, ◌^◌, ◌≤◌, ◌<◌, ◌≡◌, Option, none, some, List, Bool, ◌||◌,
  ◌&&◌,
}
use esp32_template.Base.{ltb, leb, ◌==◌, not, if◌then◌else◌, length, get_or, set}
use esp32_template.Base.Bytes.{Bytes}
use esp32_template.Base.Int.{ℤ, pos, minus}

-- `os_pool_cb_t`; `pool` is the address of the first block.
pub record Pool : Type 0 where
  pub pool : ℕ
  pub markers : List ℕ
  pub pool_sz : ℕ
  pub item_sz : ℕ
  pub current_index : ℕ

abbrev pub u32 : ℕ → ℕ
u32 n = n % 2 ^ 32

-- The address of block `index`
unfoldable pub block_address : Pool → ℕ → ℕ
block_address p index = u32 (p.pool + u32 (index * p.item_sz))

-- The block that round `i` of the search looks at
unfoldable pub probe_index : Pool → ℕ → ℕ
probe_index p i = let index = u32 (p.current_index + i) in if leb p.pool_sz index then 0 else index

-- The search of `os_pool_alloc` from round `i` on, with `left` rounds to go
unfoldable pub alloc_loop : Pool → ℕ → ℕ → Option ℕ
alloc_loop p zero i = none
alloc_loop p (suc left) i =
    let rest = alloc_loop p left (i + 1) in
    if get_or p.markers (probe_index p i) 0 == 0 then some (probe_index p i) else rest

-- The block found is marked, and the next search starts from it.
unfoldable pub take_block : Pool → Option ℕ → ℕ × Pool
unfolding block_address
take_block p none = (0, p)
take_block p (some index) =
    (block_address p index, record p { markers = set p.markers index 1; current_index = index })

unfoldable pub os_pool_alloc : Pool → ℕ × Pool
unfolding take_block alloc_loop probe_index
os_pool_alloc p = take_block p (alloc_loop p p.pool_sz 0)

-- `memset(p, 0, n)` at address `p`
unfoldable pub clear : Bytes → ℕ → ℕ → Bytes
clear m p n a = if leb p a && ltb a (p + n) then 0 else m a

-- Also the memory after the block has been zeroed.
unfoldable pub os_pool_calloc : Pool → Bytes → ℕ × Pool × Bytes
unfolding os_pool_alloc clear
os_pool_calloc p m =
    let (a, p') = os_pool_alloc p in if a == 0 then (a, p', m) else (a, p', clear m a p.item_sz)

-- NULL for a missing pool, an index out of range, or a block that is not handed out
unfoldable pub os_pool_get_by_index : Option Pool → ℕ → ℕ
unfolding block_address
os_pool_get_by_index none index = 0
os_pool_get_by_index (some p) index =
    if ltb index p.pool_sz && (get_or p.markers index 0 == 1) then block_address p index else 0

unfoldable pub os_pool_get_index_by_pointer : Option Pool → ℕ → ℤ
os_pool_get_index_by_pointer none pointer = minus 1
os_pool_get_index_by_pointer (some p) pointer =
    if ltb pointer p.pool || leb (u32 (p.pool + p.item_sz * p.pool_sz)) pointer
    then minus 1
    else pos ((pointer - p.pool) / p.item_sz)

unfoldable pub os_pool_free : Option Pool → ℕ → ℤ × Option Pool
os_pool_free none block = (minus 1, none)
os_pool_free (some p) block =
    if block == 0
    then (minus 2, some p)
    else if ltb block p.pool
    then (minus 3, some p)
    else if not ((block - p.pool) % p.item_sz == 0)
    then (minus 4, some p)
    else if leb p.pool_sz ((block - p.pool) / p.item_sz)
    then (minus 5, some p)
    else (pos 0, some (record p { markers = set p.markers ((block - p.pool) / p.item_sz) 0 }))

-- A pool as `os_pool_create` makes it: a marker for each block, the blocks inside the address
-- space, none at NULL.
pub record IsValid (p : Pool) : Type 0 where
  pub marker_each : length p.markers ≡ p.pool_sz
  pub based : 0 < p.pool
  pub item_words : 4 ≤ p.item_sz
  pub inside : p.pool + p.pool_sz * p.item_sz < 2 ^ 32
  pub current : p.current_index ≤ p.pool_sz
