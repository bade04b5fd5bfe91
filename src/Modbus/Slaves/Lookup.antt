-- ===== src/Modbus/Slaves/Lookup.antt =====
-- What the table of slaves answers after an address has been added:
-- main/modbus_tcp_client/modbus_tcp_client.c.
use native.Mathlib.Decide.{ℕ_discrete}
use esp32_template.Base.{
  ℕ, zero, suc, ◌+◌, ◌≤◌, ◌<◌, Bool, true, false, Option, none, some, ◌⊎◌, inl, inr, ◌≡◌, ◌≢◌, refl,
  ap, sym, ◌∙◌, arith, ltb, ◌==◌, if◌then◌else◌, if-holds,
}
use esp32_template.Base.Int.{ℤ, pos, minus}
use esp32_template.Modbus.Slaves.{
  SlaveItem, SlaveTable, address_exists, add_ip_to_slave_table, by_modbus_loop,
  get_ip_address_by_modbus,
}

address_exists-misses :
    (table : ℕ → SlaveItem) (ip left i k : ℕ) (exist : Bool)
    → address_exists table ip left i exist ≡ false
    → (exist ≡ false) × (i ≤ k → k < i + left → (table k).ip ≢ ip)
unfolding address_exists
address_exists-misses table ip zero i k exist e = (e, λ lo hi. absurd (omega arith))
address_exists-misses table ip (suc left) i k exist e =
    let next = if ip == (table i).ip then true else exist in
    let (kept, misses) = address_exists-misses table ip left (i + 1) k next e in
    (
      ground (arith, kept),
      λ lo hi. elim (ℕ_discrete i k) [
        | yes e ↦ rw (sym e) (differ ip (table i).ip exist kept)
        | no ne ↦ misses (omega arith) (omega arith)
      ],
    )
  where
    differ : (a b : ℕ) (exist : Bool) → (if a == b then true else exist) ≡ false → b ≢ a
    differ a b exist e same = ground arith

-- What the search finds is there.
address_exists-finds :
    (table : ℕ → SlaveItem) (ip left i : ℕ) (exist : Bool)
    → address_exists table ip left i exist ≡ true
    → (exist ≡ true) ⊎ ((k : ℕ) × (i ≤ k × k < i + left × (table k).ip ≡ ip))
unfolding address_exists
address_exists-finds table ip zero i exist e = inl e
address_exists-finds table ip (suc left) i exist e =
    elim (address_exists-finds table ip left (i + 1) (if ip == (table i).ip then true else exist)
      e) [
        | inr (k, (lo, hi, same)) ↦ inr (k, (omega arith, omega arith, same))
        | inl found ↦ elim (ℕ_discrete (table i).ip ip) [
          | yes same ↦ inr (i, (omega arith, omega arith, same))
          | no differ ↦ inl (ground arith)
        ]
      ]

by_modbus_loop_ext :
    (table table' : ℕ → SlaveItem) (modbus_id left i : ℕ) (item : Option SlaveItem)
    → ((k : ℕ) → i ≤ k → k < i + left → table k ≡ table' k)
    → by_modbus_loop table modbus_id left i item ≡ by_modbus_loop table' modbus_id left i item
unfolding by_modbus_loop
by_modbus_loop_ext table table' modbus_id zero i item h = refl
by_modbus_loop_ext table table' modbus_id (suc left) i item h =
    rw (h i (omega arith) (omega arith)) (
      by_modbus_loop_ext table table' modbus_id left (i + 1) _
        (λ k lo hi. h k (omega arith) (omega arith)))

-- The last item decides.
by_modbus_loop-snoc :
    (table : ℕ → SlaveItem) (modbus_id left i : ℕ) (item : Option SlaveItem)
    → by_modbus_loop table modbus_id (suc left) i item ≡ (
        if (table (i + left)).modbus_id == modbus_id
        then some (table (i + left))
        else by_modbus_loop table modbus_id left i item)
unfolding by_modbus_loop
by_modbus_loop-snoc table modbus_id zero i item =
    ap (λ (k : ℕ). if (table k).modbus_id == modbus_id then some (table k) else item) (omega arith)
by_modbus_loop-snoc table modbus_id (suc left) i item =
    let item' = if (table i).modbus_id == modbus_id then some (table i) else item in
    by_modbus_loop-snoc table modbus_id left (i + 1) item'
    ∙ ap
        (λ (k : ℕ).
          if (table k).modbus_id == modbus_id
          then some (table k)
          else by_modbus_loop table modbus_id left (i + 1) item')
        (omega arith)

-- At most 256 slaves, no two with the same address
pub record IsTable (t : SlaveTable) : Type 0 where
  pub bounded : t.slaves_number ≤ 256
  pub distinct :
      (j k : ℕ) → j < k → k < t.slaves_number → (t.slaves_ip_table j).ip ≢ (t.slaves_ip_table k).ip

-- What an address that is added leaves
pub record IsAdded (t : SlaveTable) (ip modbus_id : ℕ) (r : ℤ × SlaveTable) : Type 0 where
  pub result : r.0 ≡ pos 1
  pub fits : t.slaves_number < 256
  pub new : (k : ℕ) → k < t.slaves_number → (t.slaves_ip_table k).ip ≢ ip
  pub own :
      get_ip_address_by_modbus r.1 modbus_id ≡ some (record { ip = ip; modbus_id = modbus_id })
  pub others :
      (id : ℕ) → id ≢ modbus_id → get_ip_address_by_modbus r.1 id ≡ get_ip_address_by_modbus t id

-- The table as it was, because it has the address or is full
pub record IsKept (t : SlaveTable) (ip : ℕ) (r : ℤ × SlaveTable) : Type 0 where
  pub same : r.1 ≡ t
  pub reason :
      (r.0 ≡ pos 0 × ((k : ℕ) × (k < t.slaves_number × (t.slaves_ip_table k).ip ≡ ip)))
      ⊎ (r.0 ≡ minus 1 × t.slaves_number ≡ 256)

abbrev Good : SlaveTable → ℕ → ℕ → ℤ × SlaveTable → Type 0
Good t ip modbus_id r = IsTable r.1 × (IsAdded t ip modbus_id r ⊎ IsKept t ip r)

module _ (t : SlaveTable) (ip modbus_id : ℕ) where
  abbrev added : SlaveTable
  added = record {
    slaves_ip_table = λ i.
        if i == t.slaves_number
        then record { ip = ip; modbus_id = modbus_id }
        else t.slaves_ip_table i;
    slaves_number = t.slaves_number + 1;
  }

  added-behind : added.slaves_ip_table t.slaves_number ≡ (record { ip = ip; modbus_id = modbus_id })
  added-behind = let e : (t.slaves_number == t.slaves_number) ≡ true = ground arith in rw e refl

  added-before : (k : ℕ) → k < t.slaves_number → added.slaves_ip_table k ≡ t.slaves_ip_table k
  added-before k lt = let e : (k == t.slaves_number) ≡ false = ground arith in rw e refl

  lookup-added :
      (id : ℕ)
      → get_ip_address_by_modbus added id ≡ (
          if modbus_id == id
          then some (record { ip = ip; modbus_id = modbus_id })
          else get_ip_address_by_modbus t id)
  unfolding get_ip_address_by_modbus
  lookup-added id =
      let table = added.slaves_ip_table in
      let n = t.slaves_number in
      let item : SlaveItem = record { ip = ip; modbus_id = modbus_id } in
      let before = by_modbus_loop table id n 0 none in
      let count : n + 1 ≡ suc n = omega arith in
      let at : 0 + n ≡ n = omega arith in
      ap (λ (c : ℕ). by_modbus_loop table id c 0 none) count
      ∙ by_modbus_loop-snoc table id n 0 none
      ∙ ap (λ (k : ℕ). if (table k).modbus_id == id then some (table k) else before) at
      ∙ ap (λ (x : SlaveItem). if x.modbus_id == id then some x else before) added-behind
      ∙ ap (λ (o : Option SlaveItem). if modbus_id == id then some item else o)
          (by_modbus_loop_ext table t.slaves_ip_table id n 0 none
            (λ k lo hi. added-before k (omega arith)))

  added-IsTable :
      IsTable t
      → t.slaves_number < 256
      → address_exists t.slaves_ip_table ip t.slaves_number 0 false ≡ false
      → IsTable added
  added-IsTable h room new = record {
    bounded = omega arith;
    distinct = λ j k lt hi. elim (ℕ_discrete k t.slaves_number) [
      | yes e ↦ (λ p.
          (address_exists-misses t.slaves_ip_table ip t.slaves_number 0 j false new).1 (omega arith)
            (omega arith)
            (sym (ap SlaveItem.ip (added-before j (omega arith)))
              ∙ p
              ∙ ap (λ (m : ℕ). (added.slaves_ip_table m).ip) e
              ∙ ap SlaveItem.ip added-behind))
      | no ne ↦ (λ p. h.distinct j k lt (omega arith) (
          sym (ap SlaveItem.ip (added-before j (omega arith)))
          ∙ p
          ∙ ap SlaveItem.ip (added-before k (omega arith))))
    ];
  }

-- Adding an address to a table without repetition and within its 256 places keeps it so. The result is
-- 1, when no item has the address and a place is left, and then the slave's number leads to the address
-- and all other numbers to what they led to before; or the table is as it was, and the result is 0
-- because one of its items has the address, or -1 because it has 256 items.
pub add_ip_to_slave_table-lookup :
    (t : SlaveTable) (ip modbus_id : ℕ)
    → IsTable t
    → let r = add_ip_to_slave_table t ip modbus_id in
      IsTable r.1 × (IsAdded t ip modbus_id r ⊎ IsKept t ip r)
unfolding add_ip_to_slave_table
add_ip_to_slave_table-lookup t ip modbus_id h =
    if-holds (Good t ip modbus_id) (address_exists t.slaves_ip_table ip t.slaves_number 0 false)
      (λ found. (h, inr (record { same = refl; reason = inl (refl, place found) })))
      (λ new.
        if-holds (Good t ip modbus_id) (ltb t.slaves_number 256)
          (λ room. (
            added-IsTable t ip modbus_id h (ground arith) new,
            inl (record {
              result = refl;
              fits = ground arith;
              new = λ k lt.
                  (address_exists-misses t.slaves_ip_table ip t.slaves_number 0 k false new).1
                    (omega arith) (omega arith);
              own =
                  let e : (modbus_id == modbus_id) ≡ true = ground arith in
                  lookup-added t ip modbus_id modbus_id ∙ rw e refl;
              others = λ id ne.
                  let e : (modbus_id == id) ≡ false = ground arith in
                  lookup-added t ip modbus_id id ∙ rw e refl;
            }),
          ))
          (λ full.
            (h, inr (record { same = refl; reason = inr (refl, ground (arith, h.bounded)) }))))
  where
    place :
        address_exists t.slaves_ip_table ip t.slaves_number 0 false ≡ true
        → (k : ℕ) × (k < t.slaves_number × (t.slaves_ip_table k).ip ≡ ip)
    place found = elim (address_exists-finds t.slaves_ip_table ip t.slaves_number 0 false found) [
      | inl e ↦ absurd (cc)
      | inr (k, (lo, hi, same)) ↦ (k, (omega arith, same))
    ]
