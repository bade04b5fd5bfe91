-- ===== src/Modbus/Master/Execute.antt =====
-- One request of the master and what is counted about it: `modbus_master_execute_request` of
-- main/modbus.c.
use esp32_template.Base.{ℕ, ◌+◌, ◌-◌, ◌%◌, ◌^◌, ◌≤◌, Bool, true, false, ◌||◌, none, some, ◌⊎◌}
use esp32_template.Base.{◌≡◌, refl, inl, inr, arith, ltb, ◌==◌, if◌then◌else◌}
use esp32_template.Base.Bytes.{Bytes}
use esp32_template.Base.Int.{ℤ, minus, is_negative}
use esp32_template.Modbus.Transaction.{Socket}
use esp32_template.Modbus.Master.{
  Words, Reply, modbus_master_read_bits, modbus_master_read_registers, modbus_master_set_single,
  modbus_master_write_output_bits, modbus_master_write_output_words,
}

-- The fields of a request that this function reads
pub record ClientRequest : Type 0 where
  pub channel : ℕ
  pub slave_id : ℕ
  pub mb_function : ℕ
  pub address : ℕ
  pub count : ℕ
  pub coms_buffer : Words

-- The registers of the master, each of 32 bits
pub record Counters : Type 0 where
  pub comm_period_current : ℕ
  pub comm_period_max : ℕ
  pub comm_period_min : ℕ
  pub succ_transactions_number : ℕ
  pub error_transactions_number : ℕ

-- What a transaction of that result and duration adds
unfoldable pub count_transaction : ℤ → ℕ → ℕ → Counters → Counters
count_transaction result timer now c =
    let current = (now + 2 ^ 32 - timer) % 2 ^ 16 in
    record {
      comm_period_current = current;
      comm_period_max = if ltb c.comm_period_max current then current else c.comm_period_max;
      comm_period_min = if ltb current c.comm_period_min then current else c.comm_period_min;
      succ_transactions_number =
          if is_negative result
          then c.succ_transactions_number
          else (c.succ_transactions_number + 1) % 2 ^ 32;
      error_transactions_number =
          if is_negative result
          then (c.error_transactions_number + 1) % 2 ^ 32
          else c.error_transactions_number;
    }

-- The result, the request with its buffer, the counters and the next transaction number
pub record Executed : Type 0 where
  pub result : ℤ
  pub client_request : ClientRequest
  pub counters : Counters
  pub next_identifier : ℕ

module _ (packet : Bytes) (socket : Socket) where
  -- The switch over the function
  unfoldable pub reply_of : ClientRequest → ℕ → Reply
  reply_of r t =
      let f = r.mb_function in
      if (f == 1) || (f == 2)
      then modbus_master_read_bits packet r.channel socket t f r.slave_id r.address r.count
          (some r.coms_buffer) r.count
      else if (f == 3) || (f == 4)
      then modbus_master_read_registers packet r.channel socket t f r.slave_id r.address r.count
          (some r.coms_buffer) r.count
      else if (f == 5) || (f == 6)
      then modbus_master_set_single packet r.channel socket t f r.slave_id r.address
          (r.coms_buffer 0)
      else if f == 15
      then modbus_master_write_output_bits packet r.channel socket t f r.slave_id r.address
          r.coms_buffer (r.count % 256)
      else if f == 16
      then modbus_master_write_output_words packet r.channel socket t f r.slave_id r.address
          r.coms_buffer (r.count % 256)
      else record { res = minus 1; dest = none; transaction_identifier = t }

  -- `timer` and `now` are the ticks before and after the transaction.
  unfoldable pub modbus_master_execute_request : ClientRequest → ℕ → ℕ → Counters → ℕ → Executed
  unfolding count_transaction
  modbus_master_execute_request r timer now c t =
      let reply = reply_of r t in
      record {
        result = reply.res;
        client_request = record r {
          coms_buffer = elim reply.dest [ none ↦ r.coms_buffer | some words ↦ words ];
        };
        counters = count_transaction reply.res timer now c;
        next_identifier = reply.transaction_identifier;
      }

counted :
    (b : Bool) (s e : ℕ)
    → let s' = if b then s else (s + 1) % 2 ^ 32 in
      let e' = if b then (e + 1) % 2 ^ 32 else e in
      (s' + e') % 2 ^ 32 ≡ (s + e + 1) % 2 ^ 32 × ((e' ≡ e) ⊎ (b ≡ true)) × ((s' ≡ s) ⊎ (b ≡ false))
counted true s e = (omega arith, inr refl, inl refl)
counted false s e = (omega arith, inl refl, inr refl)

apart :
    (current least greatest : ℕ)
    → let least' = if ltb current least then current else least in
      let greatest' = if ltb greatest current then current else greatest in
      least' ≤ current × current ≤ greatest' × least' ≤ least × greatest ≤ greatest'
apart current least greatest = (ground arith, ground arith, ground arith, ground arith)

-- Each request is counted once, as a success or as an error, as its result is 0 or more or is
-- below 0, modulo 2^32; the duration lies between the least and the greatest one, which only move
-- apart.
pub modbus_master_execute_request-counters :
    (packet : Bytes) (socket : Socket) (r : ClientRequest) (timer now : ℕ) (c : Counters) (t : ℕ)
    → let x = modbus_master_execute_request packet socket r timer now c t in
      let d = x.counters in
      (d.succ_transactions_number + d.error_transactions_number) % 2 ^ 32
        ≡ (c.succ_transactions_number + c.error_transactions_number + 1) % 2 ^ 32
      × ((d.error_transactions_number ≡ c.error_transactions_number)
          ⊎ (is_negative x.result ≡ true))
      × ((d.succ_transactions_number ≡ c.succ_transactions_number) ⊎ (is_negative x.result ≡ false))
      × d.comm_period_min ≤ d.comm_period_current
      × d.comm_period_current ≤ d.comm_period_max
      × d.comm_period_min ≤ c.comm_period_min
      × c.comm_period_max ≤ d.comm_period_max
unfolding modbus_master_execute_request count_transaction
modbus_master_execute_request-counters packet socket r timer now c t =
    let current = (now + 2 ^ 32 - timer) % 2 ^ 16 in
    let (sum, error, succ) =
      counted (is_negative (reply_of packet socket r t).res) c.succ_transactions_number
        c.error_transactions_number in
    let (lo, hi, least, greatest) = apart current c.comm_period_min c.comm_period_max in
    (sum, error, succ, lo, hi, least, greatest)
