-- ===== src/Modbus/Dynamic.antt =====
-- Address spaces that are added while the device runs, in blocks of a pool: `modbus_bind_address_space`
-- and `modbus_dinamic_addr_check` of main/modbus.c over main/memory_handle.c. The pool has fewer than
-- 2^16 blocks, and the four fields are all that a block holds.
pub mod Find
use esp32_template.Base.{
  ℕ, zero, suc, ◌+◌, ◌%◌, ◌^◌, ◌≤◌, ◌<◌, Bool, true, false, ◌&&◌, ◌||◌, not, Option, none, some,
  ◌⊎◌, inl, inr,
}
use esp32_template.Base.{
  ◌≡◌, ◌≢◌, refl, ap, sym, ◌∙◌, arith, ltb, leb, ◌==◌, if◌then◌else◌, if-holds, Bool-cases,
}
use esp32_template.Base.Int.{ℤ, pos, negsuc, minus, is_negative}
use esp32_template.Pool.{Pool, os_pool_alloc, os_pool_get_by_index}

abbrev pub all_mdb_cmd : ℕ
all_mdb_cmd = 0xff

-- `dinamic_address_space_t`
pub record DinamicAddressSpace : Type 0 where
  pub address : ℕ
  pub len : ℕ
  pub space : ℕ
  pub command : ℕ

-- The pool `dinamic_address`, and what its blocks hold, by their address
pub record Spaces : Type 0 where
  pub dinamic_address : Option Pool
  pub held : ℕ → DinamicAddressSpace

-- Whether a space has `len` items from the address on, for the command
unfoldable pub contains : DinamicAddressSpace → ℕ → ℕ → ℕ → Bool
contains x mdb_or_coil_addr command len =
    leb x.address mdb_or_coil_addr
    && leb ((mdb_or_coil_addr + len) % 2 ^ 32) ((x.address + x.len) % 2 ^ 32)
    && ((command == x.command) || (x.command == all_mdb_cmd))

-- The blocks from `i` on: the number of the first one that contains the items, or -1
unfoldable pub space_loop : Spaces → ℕ → ℕ → ℕ → ℕ → ℕ → ℤ
space_loop s mdb_or_coil_addr command len zero i = minus 1
space_loop s mdb_or_coil_addr command len (suc left) i =
    let p = os_pool_get_by_index s.dinamic_address i in
    let rest = space_loop s mdb_or_coil_addr command len left (i + 1) in
    if not (p == 0) && contains (s.held p) mdb_or_coil_addr command len then pos i else rest

abbrev pub pool_sz_of : Option Pool → ℕ
pool_sz_of none = 0
pool_sz_of (some pool) = pool.pool_sz

-- `len` is cut to 16 bits.
unfoldable pub modbus_dinamic_addr_check : Spaces → ℕ → ℕ → ℕ → ℤ
modbus_dinamic_addr_check s mdb_or_coil_addr command len =
    space_loop s mdb_or_coil_addr command (len % 2 ^ 16) (pool_sz_of s.dinamic_address) 0

-- The address of the block, or NULL
unfoldable pub modbus_dinamic_addr_get : Spaces → ℤ → ℕ
modbus_dinamic_addr_get s (pos pool_id) = os_pool_get_by_index s.dinamic_address pool_id
modbus_dinamic_addr_get s (negsuc n) = 0

-- A block for a new space, if there is one: the spaces, and the length or 0
unfoldable pub put_space : Spaces → DinamicAddressSpace → ℕ × Spaces
put_space s x = elim s.dinamic_address [
  | none ↦ (0, s)
  | some pool ↦
      let (p, pool') = os_pool_alloc pool in
      if p == 0 then (0, record s { dinamic_address = some pool' }) else (
        x.len,
        record { dinamic_address = some pool'; held = λ a. if a == p then x else s.held a },
      )
]

-- What `*len` is afterwards, and the spaces
unfoldable pub modbus_bind_address_space_by_command : Spaces → ℕ → ℕ → ℕ → ℕ → ℕ × Spaces
modbus_bind_address_space_by_command s mdb_or_coil_addr space len command =
    if is_negative (modbus_dinamic_addr_check s mdb_or_coil_addr command len)
    then put_space s
        (record { address = mdb_or_coil_addr; len = len; space = space; command = command })
    else (0, s)

abbrev pub modbus_bind_address_space : Spaces → ℕ → ℕ → ℕ → ℕ × Spaces
modbus_bind_address_space s mdb_or_coil_addr space len =
    modbus_bind_address_space_by_command s mdb_or_coil_addr space len all_mdb_cmd
