-- ===== src/Modbus/Dynamic/Find.antt =====
-- What the search over the added address spaces finds: main/modbus.c.
use mathlib.Core.Path.{subst}
use native.Mathlib.Decide.{ℕ_discrete}
use esp32_template.Base.{
  ℕ, zero, suc, ◌+◌, ◌%◌, ◌^◌, ◌≤◌, ◌<◌, Bool, true, false, ◌&&◌, not, some, ◌⊎◌, inl, inr, ◌≡◌,
  ◌≢◌, refl, sym, arith, ltb, ◌==◌, if◌then◌else◌, if-holds, Bool-cases, get_or,
}
use esp32_template.Base.Int.{ℤ, pos, is_negative}
use esp32_template.Pool.{Pool, IsValid, os_pool_alloc, os_pool_get_by_index}
use esp32_template.Pool.Blocks.{os_pool_alloc-lookup}
use esp32_template.Modbus.Dynamic.{
  DinamicAddressSpace, Spaces, contains, space_loop, pool_sz_of, modbus_dinamic_addr_check,
  modbus_dinamic_addr_get, put_space, modbus_bind_address_space_by_command,
}

-- Whether block `k` is handed out and contains the items
abbrev pub Serves : Spaces → ℕ → ℕ → ℕ → ℕ → Type 0
Serves s a c l k =
    os_pool_get_by_index s.dinamic_address k ≢ 0
    × contains (s.held (os_pool_get_by_index s.dinamic_address k)) a c l ≡ true

-- What the search returns: a block that serves, or -1 if no block does
abbrev Found : Spaces → ℕ → ℕ → ℕ → ℕ → ℕ → ℤ → Type 0
Found s a c l left i r =
    ((k : ℕ) × (r ≡ pos k × Serves s a c l k))
    ⊎ ((k : ℕ) → i ≤ k → k < i + left → Serves s a c l k → r ≢ r)

test_serves : (p : ℕ) (b : Bool) → (not (p == 0) && b) ≡ true → p ≢ 0 × b ≡ true
test_serves p true e = (ground arith, refl)
test_serves p false e = ground arith

test_fails : (p : ℕ) (b : Bool) → (not (p == 0) && b) ≡ false → p ≢ 0 → b ≢ true
test_fails p true e ne = ground arith
test_fails p false e ne = ground arith

space_loop-Found :
    (s : Spaces) (a c l left i : ℕ) → Found s a c l left i (space_loop s a c l left i)
unfolding space_loop
space_loop-Found s a c l zero i = inr (λ k lo hi. absurd (omega arith))
space_loop-Found s a c l (suc left) i =
    let p = os_pool_get_by_index s.dinamic_address i in
    if-holds (Found s a c l (suc left) i) (not (p == 0) && contains (s.held p) a c l)
      (λ e. inl (i, (refl, test_serves p (contains (s.held p) a c l) e)))
      (λ e. elim (space_loop-Found s a c l left (i + 1)) [
        | inl found ↦ inl found
        | inr missing ↦ inr (λ k lo hi serves. elim (ℕ_discrete i k) [
          | yes same ↦
              let (given, held) = subst (Serves s a c l) (sym same) serves in
              absurd (test_fails p (contains (s.held p) a c l) e given held)
          | no ne ↦ missing k (omega arith) (omega arith) serves
        ])
      ])

-- The search succeeds if a block serves.
check-Serves :
    (s : Spaces) (pool : Pool) (a c l k : ℕ)
    → s.dinamic_address ≡ some pool
    → l < 2 ^ 16
    → k < pool.pool_sz
    → Serves s a c l k
    → (j : ℕ) × (modbus_dinamic_addr_check s a c l ≡ pos j × Serves s a c l j)
unfolding modbus_dinamic_addr_check
check-Serves s pool a c l k e short lt serves =
    let cut : l % 2 ^ 16 ≡ l = omega arith in
    rw cut (elim (space_loop-Found s a c l (pool_sz_of s.dinamic_address) 0) [
      | inl found ↦ found
      | inr missing ↦ absurd (missing k (omega arith) (rw e (omega arith)) serves refl)
    ])

contains-range :
    (a sp len c b l c' : ℕ)
    → a ≤ b
    → b + l ≤ a + len
    → a + len < 2 ^ 32
    → (c' ≡ c) ⊎ (c ≡ 0xff)
    → contains (record { address = a; len = len; space = sp; command = c }) b c' l ≡ true
unfolding contains
contains-range a sp len c b l c' lo hi small which = ground arith

-- The space has the items from `b` up to `b + l`, for the command.
pub record HasRange (x : DinamicAddressSpace) (b l c' : ℕ) : Type 0 where
  pub begins : x.address ≤ b
  pub ends : b + l ≤ x.address + x.len
  pub for_command : (c' ≡ x.command) ⊎ (x.command ≡ 0xff)

contains-HasRange :
    (x : DinamicAddressSpace) (b l c' : ℕ)
    → b + l < 2 ^ 32
    → contains x b c' l ≡ true
    → HasRange x b l c'
unfolding contains
contains-HasRange x b l c' small e = record {
  begins = ground (arith, e);
  ends = ground (arith, e);
  for_command = elim (ℕ_discrete c' x.command) [
    | yes same ↦ inl same
    | no differ ↦ inr (ground (arith, e))
  ];
}

-- A block that is handed out is in the pool.
by_index-lt : (pool : Pool) (k : ℕ) → os_pool_get_by_index (some pool) k ≢ 0 → k < pool.pool_sz
unfolding os_pool_get_by_index
by_index-lt pool k given =
    elim (Bool-cases (ltb k pool.pool_sz && (get_or pool.markers k 0 == 1))) [
      | inl e ↦ ground (arith, e)
      | inr e ↦ absurd (given (rw e refl))
    ]

module _ (pool : Pool) (held : ℕ → DinamicAddressSpace) where
  abbrev pub spaces : Spaces
  spaces = record { dinamic_address = some pool; held = held }

  -- The spaces with a block that has been filled
  abbrev with_space : DinamicAddressSpace → Spaces
  with_space x = record {
    dinamic_address = some (os_pool_alloc pool).1;
    held = λ a. if a == (os_pool_alloc pool).0 then x else held a;
  }

  put_space-given :
      (x : DinamicAddressSpace)
      → (put_space spaces x).0 ≢ 0
      → (os_pool_alloc pool).0 ≢ 0 × (put_space spaces x).1 ≡ with_space x
  unfolding put_space
  put_space-given x given = elim (Bool-cases ((os_pool_alloc pool).0 == 0)) [
    | inl e ↦ absurd (given (rw e refl))
    | inr e ↦ (ground (arith, e), rw e refl)
  ]

  with_space-Serves :
      (x : DinamicAddressSpace) (b l c : ℕ)
      → IsValid pool
      → (os_pool_alloc pool).0 ≢ 0
      → contains x b c l ≡ true
      → (k : ℕ) × (k < (os_pool_alloc pool).1.pool_sz × Serves (with_space x) b c l k)
  with_space-Serves x b l c v given good =
      let words = v.item_words in
      let (k, at, index, freed, marker) = os_pool_alloc-lookup pool 0 v given (omega arith) in
      let here : os_pool_get_by_index (some (os_pool_alloc pool).1) k ≢ 0 = rw at given in
      let same : ((os_pool_alloc pool).0 == (os_pool_alloc pool).0) ≡ true = ground arith in
      (k, (by_index-lt (os_pool_alloc pool).1 k here, (here, rw (at, same) good)))

-- A space that has been bound, so that its length is not 0 afterwards, is found: for the command, or
-- for any command if it is bound for all, a range of fewer than 2^16 items inside it leads to a block
-- of the pool whose space begins at or before the range, ends at or behind its end, and is for that
-- command or for all. The addresses of the bound space do not wrap around, and the pool is valid.
pub modbus_dinamic_addr_check-modbus_bind_address_space :
    (pool : Pool) (held : ℕ → DinamicAddressSpace) (a sp len c b l c' : ℕ)
    → IsValid pool
    → (modbus_bind_address_space_by_command (spaces pool held) a sp len c).0 ≢ 0
    → a ≤ b
    → b + l ≤ a + len
    → a + len < 2 ^ 32
    → l < 2 ^ 16
    → (c' ≡ c) ⊎ (c ≡ 0xff)
    → let s = (modbus_bind_address_space_by_command (spaces pool held) a sp len c).1 in
      (k : ℕ) × (modbus_dinamic_addr_check s b c' l ≡ pos k
        × modbus_dinamic_addr_get s (pos k) ≢ 0
        × HasRange (s.held (modbus_dinamic_addr_get s (pos k))) b l c')
unfolding modbus_bind_address_space_by_command modbus_dinamic_addr_get
modbus_dinamic_addr_check-modbus_bind_address_space pool held a sp len c b l c' v bound lo hi small
      short which =
    let x : DinamicAddressSpace = record { address = a; len = len; space = sp; command = c } in
    elim (Bool-cases (is_negative (modbus_dinamic_addr_check (spaces pool held) a c len))) [
      | inl e ↦
          let (given, put) = put_space-given pool held x (rw e at bound) in
          let good = contains-range a sp len c b l c' lo hi small which in
          let (k, (below, serves)) = with_space-Serves pool held x b l c' v given good in
          let (j, (at, (handed, contained))) =
            check-Serves (with_space pool held x) (os_pool_alloc pool).1 b c' l k refl short below
              serves in
          rw (e, put) (j, (at, handed, contains-HasRange _ b l c' (omega arith) contained))
      | inr e ↦ absurd (bound (rw e refl))
    ]
