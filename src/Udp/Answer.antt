-- ===== src/Udp/Answer.antt =====
-- The answer of a device to a request, main/udp_broadcast/udp_broadcast.c: it fits a packet, its field is
-- found, and it has no message.
use mathlib.Core.List.{append_assoc}
use esp32_template.Base.{
  ℕ, zero, suc, ◌+◌, ◌/◌, ◌%◌, ◌≤◌, ◌<◌, ◌≡◌, refl, ap, ◌∙◌, arith, true, false, Option, none, some,
  [], ◌∷◌, ◌++◌, ltb, ◌==◌, if-holds, length, length-append, lt→ltb,
}
use esp32_template.Base.Bytes.{Bytes, IsBytes, get_u16}
use esp32_template.Json.Answer.{decimal, digits_loop}
use esp32_template.Json.Decimal.{AllDigits, decimal-AllDigits, Ends, atoi-decimal}
use esp32_template.Json.Strings.{Text, codes, begins_with, strstr}
use esp32_template.Modbus.Slaves.{SlaveTable, add_ip_to_slave_table}
use esp32_template.Platform.{Platform}
use esp32_template.Udp.{
  udp_broadcast_max_packet_size, modbus_field, quad, answer_rest, advertisment_answer, learn_slave,
}

abbrev Within : ℕ → Text → Type 0
Within k text = length text ≤ k

length-digits_loop :
    (places n : ℕ) (out : Text) → Within (places + length out) (digits_loop places n out)
unfolding digits_loop
length-digits_loop zero n out = omega arith
length-digits_loop (suc places) n out =
    let rest = length-digits_loop places (n / 10) ((b'0' + n % 10) ∷ out) in
    if-holds (Within (suc places + length out)) (n / 10 == 0) (λ e. omega arith) λ e. omega arith

length-decimal : (n : ℕ) → length (decimal n) ≤ 20
unfolding decimal
length-decimal n = length-digits_loop 20 n []

-- A number in a text takes no more than 20 bytes.
length-number : (n : ℕ) (text : Text) → length (decimal n ++ text) ≤ 20 + length text
length-number n text =
    let sum = length-append (decimal n) text in let short = length-decimal n in omega arith

length-quad : (m : Bytes) (a : ℕ) → length (quad m a) ≤ 86
length-quad m a =
    let fourth = b']' ∷ b',' ∷ [] in
    let third = b',' ∷ (decimal (m (a + 3)) ++ fourth) in
    let second = b',' ∷ (decimal (m (a + 2)) ++ third) in
    let first = b',' ∷ (decimal (m (a + 1)) ++ second) in
    omega (
      arith,
      length-number (m (a + 3)) fourth,
      length-number (m (a + 2)) third,
      length-number (m (a + 1)) second,
      length-number (m a) first,
    )

length-quad_text : (m : Bytes) (a : ℕ) (text : Text) → length (quad m a ++ text) ≤ 86 + length text
length-quad_text m a text = omega (arith, length-append (quad m a) text, length-quad m a)

length-answer_rest : (pf : Platform) (m : Bytes) → length (answer_rest pf m) ≤ 400
unfolding answer_rest
length-answer_rest pf m =
    let gate = codes "\"port\": 502}" in
    let netmask = codes "\"gateway\": " ++ (quad m pf.gate ++ gate) in
    let ip = codes "\"netmask\": " ++ (quad m pf.netmask ++ netmask) in
    omega (
      arith,
      length-quad_text m pf.gate gate,
      length-quad_text m pf.netmask netmask,
      length-quad_text m pf.ip ip,
    )

pub length-answer :
    (pf : Platform) (m : Bytes) → length (advertisment_answer pf m) ≤ udp_broadcast_max_packet_size
unfolding advertisment_answer
length-answer pf m =
    omega (arith, length-number (get_u16 m pf.mdb_addr) (answer_rest pf m), length-answer_rest pf m)

-- The field is found in the answer, wherever the number ends.
found_field :
    (text : Text)
    → strstr modbus_field (codes "{\"device_name\": \"morse\",\"modbus_address\": " ++ text)
      ≡ some (codes "modbus_address\": " ++ text)
unfolding strstr begins_with
found_field text = refl

some_rest : (pf : Platform) (m : Bytes) → 0 < length (answer_rest pf m)
unfolding answer_rest
some_rest pf m = omega arith

rest-Ends : (pf : Platform) (m : Bytes) → Ends (answer_rest pf m)
unfolding answer_rest
rest-Ends pf m = refl

-- A device that receives the answer of another, from the address `ip`, puts it into its table with
-- the low byte of its Modbus address.
pub learn_slave-answer :
    (pf : Platform) (m : Bytes) (t : SlaveTable) (ip : ℕ)
    → IsBytes m
    → learn_slave t ip (advertisment_answer pf m)
      ≡ (add_ip_to_slave_table t ip (get_u16 m pf.mdb_addr % 256)).1
unfolding learn_slave advertisment_answer
learn_slave-answer pf m t ip h =
    let number = get_u16 m pf.mdb_addr in
    let text = decimal number ++ answer_rest pf m in
    let found = found_field text in
    let long : ltb 17 (length (codes "modbus_address\": " ++ text)) ≡ true =
      lt→ltb 17 (length (codes "modbus_address\": " ++ text))
        (omega (arith, length-append (decimal number) (answer_rest pf m), some_rest pf m)) in
    let read =
      atoi-decimal number (answer_rest pf m) (omega (arith, h pf.mdb_addr, h (pf.mdb_addr + 1)))
        (rest-Ends pf m) in
    rw (found, long, read, learn_slave) refl

-- Where the search for a message goes on
abbrev rest_of : Text → Option Text
rest_of text = strstr (codes "message") text

rest_of-AllDigits : (s text : Text) → AllDigits s → rest_of (s ++ text) ≡ rest_of text
unfolding strstr begins_with
rest_of-AllDigits [] text p = refl
rest_of-AllDigits (c ∷ s) text (pc, ps) =
    let other : (c == b'm') ≡ false = ground arith in
    let rest = rest_of-AllDigits s text ps in rw (other, rest) refl

rest_of-number : (n : ℕ) (text : Text) → rest_of (decimal n ++ text) ≡ rest_of text
rest_of-number n text = rest_of-AllDigits (decimal n) text (decimal-AllDigits n)

rest_of-number_then :
    (n : ℕ) (next text : Text) → rest_of ((decimal n ++ next) ++ text) ≡ rest_of (next ++ text)
rest_of-number_then n next text =
    ap rest_of (append_assoc (decimal n) next text) ∙ rest_of-number n (next ++ text)

rest_of-quad : (m : Bytes) (a : ℕ) (text : Text) → rest_of (quad m a ++ text) ≡ rest_of text
unfolding strstr begins_with
rest_of-quad m a text =
    let fourth = b']' ∷ b',' ∷ [] in
    let third = b',' ∷ (decimal (m (a + 3)) ++ fourth) in
    let second = b',' ∷ (decimal (m (a + 2)) ++ third) in
    let first = b',' ∷ (decimal (m (a + 1)) ++ second) in
    rest_of-number_then (m a) first text
    ∙ rest_of-number_then (m (a + 1)) second text
    ∙ rest_of-number_then (m (a + 2)) third text
    ∙ rest_of-number_then (m (a + 3)) fourth text

pub no_message : (pf : Platform) (m : Bytes) → rest_of (advertisment_answer pf m) ≡ none
unfolding strstr begins_with advertisment_answer answer_rest
no_message pf m =
    let gate = codes "\"port\": 502}" in
    let netmask = codes "\"gateway\": " ++ (quad m pf.gate ++ gate) in
    let ip = codes "\"netmask\": " ++ (quad m pf.netmask ++ netmask) in
    rest_of-number (get_u16 m pf.mdb_addr) (answer_rest pf m)
    ∙ rest_of-quad m pf.ip ip
    ∙ rest_of-quad m pf.netmask netmask
    ∙ rest_of-quad m pf.gate gate
