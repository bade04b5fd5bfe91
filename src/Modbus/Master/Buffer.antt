-- ===== src/Modbus/Master/Buffer.antt =====
-- What a request of the master leaves in its buffer: main/modbus.c.
use esp32_template.Base.{
  ℕ, ◌+◌, ◌*◌, ◌/◌, ◌%◌, ◌^◌, ◌≤◌, ◌<◌, false, ◌||◌, not, Option, none, some, ◌⊎◌,
}
use esp32_template.Base.{◌≡◌, refl, ap, inl, inr, arith, ltb, ◌==◌, if◌then◌else◌, if-holds}
use esp32_template.Base.Bytes.{Bytes}
use esp32_template.Base.Int.{ℤ, minus, is_negative, is_positive}
use esp32_template.Crc.{modbus_crc16_check}
use esp32_template.Modbus.Request.{TcpRequest}
use esp32_template.Modbus.Transaction.{Socket, modbus_tcp_master_packet_transaction}
use esp32_template.Modbus.Master.{
  Words, buffer_of, Reply, transact, process_bits, process_words, as_length, acknowledges, repeats,
  fits_packet, body_of, modbus_master_read_bits, modbus_master_read_registers,
  modbus_master_set_single, modbus_master_write_output_bits, modbus_master_write_output_words,
}
use esp32_template.Modbus.Master.Execute.{
  ClientRequest, Counters, reply_of, modbus_master_execute_request,
}

-- A result that is not above 0 comes with the buffer as it was.
abbrev Keeps : Words → ℤ × Option Words → Type 0
Keeps w r = is_positive r.0 ≡ false → buffer_of w r.1 ≡ w

record ReplyKeeps (w : Words) (r : Reply) : Type 0 where
  keeps : is_positive r.res ≡ false → buffer_of w r.dest ≡ w

process_bits-Keeps :
    (slave count size n : ℕ) (w : Words) (body : Bytes)
    → 0 < n
    → Keeps w (process_bits slave count size (some w) n body)
unfolding process_bits
process_bits-Keeps slave count size n w body long =
    if-holds (Keeps w) (not (body 2 == (count + 7) / 8) || not (body 0 == slave)) (λ e p. refl)
      (λ e.
        if-holds (Keeps w) (not (modbus_crc16_check body (body 2 + 3 + 2))) (λ e p. refl)
          (λ e p. absurd (ground arith)))

process_words-Keeps :
    (slave count size n : ℕ) (w : Words) (body : Bytes)
    → 0 < n
    → Keeps w (process_words slave count size (some w) n body)
unfolding process_words
process_words-Keeps slave count size n w body long =
    if-holds (Keeps w) (not (body 2 == 2 * count) || not (body 0 == slave)) (λ e p. refl)
      (λ e.
        if-holds (Keeps w) (modbus_crc16_check body (body 2 + 3 + 2)) (λ e p. absurd (ground arith))
          (λ e p. refl))

transact-ReplyKeeps :
    (channel shortest : ℕ) (query : TcpRequest) (response_length : ℤ) (socket : Socket) (w : Words)
    (process : ℕ → Bytes → ℤ × Option Words)
    → 0 < shortest
    → ((n : ℕ) (body : Bytes) → 0 < n → Keeps w (process n body))
    → ReplyKeeps w (transact channel shortest query response_length socket (some w) process)
unfolding transact
transact-ReplyKeeps channel shortest query response_length socket w process long h =
    let t =
      modbus_tcp_master_packet_transaction query.packet (as_length query.byte % 2 ^ 16) socket in
    if-holds (ReplyKeeps w) (not (is_positive query.byte) || not (fits_packet response_length))
      (λ e. record { keeps = λ p. refl })
      (λ e.
        if-holds (ReplyKeeps w) (is_negative t.0 || ltb (as_length t.0) shortest)
          (λ e. record { keeps = λ p. refl })
          (λ e. record {
            keeps = h (as_length t.0) (body_of channel (as_length t.0) t.1) (ground (arith, e));
          }))

-- The functions that write leave no buffer behind.
abbrev NoDest : ℤ × Option Words → Type 0
NoDest r = r.1 ≡ none

record NoBuffer (r : Reply) : Type 0 where
  empty : r.dest ≡ none

transact-NoBuffer :
    (channel shortest : ℕ) (query : TcpRequest) (response_length : ℤ) (socket : Socket)
    (process : ℕ → Bytes → ℤ × Option Words)
    → ((n : ℕ) (body : Bytes) → (process n body).1 ≡ none)
    → NoBuffer (transact channel shortest query response_length socket none process)
unfolding transact
transact-NoBuffer channel shortest query response_length socket process h =
    let t =
      modbus_tcp_master_packet_transaction query.packet (as_length query.byte % 2 ^ 16) socket in
    if-holds NoBuffer (not (is_positive query.byte) || not (fits_packet response_length))
      (λ e. record { empty = refl })
      (λ e.
        if-holds NoBuffer (is_negative t.0 || ltb (as_length t.0) shortest)
          (λ e. record { empty = refl })
          (λ e. record { empty = h (as_length t.0) (body_of channel (as_length t.0) t.1) }))

acknowledges-none : (slave n : ℕ) (body : Bytes) → NoDest (acknowledges slave n body)
acknowledges-none slave n body =
    if-holds NoDest (not (modbus_crc16_check body 8) || not (body 0 == slave)) (λ e. refl)
      (λ e. refl)

repeats-none : (f slave a count n : ℕ) (body : Bytes) → NoDest (repeats f slave a count n body)
repeats-none f slave a count n body =
    if-holds NoDest
      (not (body 0 == slave)
        || not (body 1 == f)
        || not (body 2 == a / 256 % 256)
        || not (body 3 == a % 256)
        || not (body 4 == 0)
        || not (body 5 == count))
      (λ e. refl) (λ e. refl)

module _ (packet : Bytes) (socket : Socket) (r : ClientRequest) (t : ℕ) where
  set_single-NoBuffer :
      (f v : ℕ)
      → NoBuffer (modbus_master_set_single packet r.channel socket t f r.slave_id r.address v)
  unfolding modbus_master_set_single
  set_single-NoBuffer f v =
      transact-NoBuffer r.channel 6 _ _ socket (acknowledges r.slave_id)
        (acknowledges-none r.slave_id)

  write_output_bits-NoBuffer :
      (f n : ℕ)
      → NoBuffer (
          modbus_master_write_output_bits packet r.channel socket t f r.slave_id r.address
            r.coms_buffer n)
  unfolding modbus_master_write_output_bits
  write_output_bits-NoBuffer f n =
      let count = if ltb 240 n then 240 else n in
      transact-NoBuffer r.channel 6 _ _ socket (repeats f r.slave_id r.address count)
        (repeats-none f r.slave_id r.address count)

  write_output_words-NoBuffer :
      (f n : ℕ)
      → NoBuffer (
          modbus_master_write_output_words packet r.channel socket t f r.slave_id r.address
            r.coms_buffer n)
  unfolding modbus_master_write_output_words
  write_output_words-NoBuffer f n =
      let count = if ltb 112 n then 112 else n in
      transact-NoBuffer r.channel 8 _ _ socket (repeats f r.slave_id r.address count)
        (repeats-none f r.slave_id r.address count)

  abbrev NoChange : Reply → Type 0
  NoChange reply =
      (is_positive reply.res ≡ false) ⊎ (4 < r.mb_function)
      → buffer_of r.coms_buffer reply.dest ≡ r.coms_buffer

  read-NoChange :
      (reply : Reply) → r.mb_function ≤ 4 → ReplyKeeps r.coms_buffer reply → NoChange reply
  read-NoChange reply small h (inl e) = h.keeps e
  read-NoChange reply small h (inr e) = absurd (omega arith)

  write-NoChange : (reply : Reply) → NoBuffer reply → NoChange reply
  write-NoChange reply e p = ap (buffer_of r.coms_buffer) e.empty

  reply_of-NoChange : NoChange (reply_of packet socket r t)
  unfolding reply_of modbus_master_read_bits modbus_master_read_registers
  reply_of-NoChange =
      let f = r.mb_function in
      if-holds NoChange ((f == 1) || (f == 2))
        (λ e. read-NoChange _ (ground arith) (
          transact-ReplyKeeps r.channel 6 _ _ socket r.coms_buffer _ (omega arith)
            (λ n body. process_bits-Keeps r.slave_id r.count r.count n r.coms_buffer body)))
        λ e.
          if-holds NoChange ((f == 3) || (f == 4))
            (λ e. read-NoChange _ (ground arith) (
              transact-ReplyKeeps r.channel 6 _ _ socket r.coms_buffer _ (omega arith)
                (λ n body. process_words-Keeps r.slave_id r.count r.count n r.coms_buffer body)))
            λ e.
              if-holds NoChange ((f == 5) || (f == 6))
                (λ e. write-NoChange _ (set_single-NoBuffer f (r.coms_buffer 0)))
                λ e.
                  if-holds NoChange (f == 15)
                    (λ e. write-NoChange _ (write_output_bits-NoBuffer f (r.count % 256)))
                    λ e.
                      if-holds NoChange (f == 16)
                        (λ e. write-NoChange _ (write_output_words-NoBuffer f (r.count % 256)))
                        λ e.
                          write-NoChange
                            (record { res = minus 1; dest = none; transaction_identifier = t })
                            (record { empty = refl })

-- A request that fails, or that is answered by an exception or by an answer that does not fit (so
-- that its result is not above 0), leaves the buffer of the request as it was, whatever the socket
-- delivers; a request that writes leaves it in every case.
pub modbus_master_execute_request-buffer :
    (packet : Bytes) (socket : Socket) (r : ClientRequest) (timer now : ℕ) (c : Counters) (t : ℕ)
    → (is_positive (modbus_master_execute_request packet socket r timer now c t).result ≡ false)
      ⊎ (4 < r.mb_function)
    → (modbus_master_execute_request packet socket r timer now c t).client_request ≡ r
unfolding modbus_master_execute_request
modbus_master_execute_request-buffer packet socket r timer now c t h =
    rw (reply_of-NoChange packet socket r t h) refl
