-- ===== src/Crc/Detect.antt =====
-- A change of one byte changes the crc: the loop bodies are injective in the running value and in
-- the byte.
use mathlib.Core.Logic.{◌≢◌}
use native.Mathlib.Decide.{ℕ_discrete}
use esp32_template.Base.{
  ℕ, zero, suc, ◌+◌, ◌*◌, ◌/◌, ◌%◌, ◌^◌, ◌≤◌, ◌<◌, bit_and, bit_xor, Bool, true, false,
}
use esp32_template.Base.{◌≡◌, refl, sym, ap, ◌∙◌, arith, ltb, ◌==◌, ==_iff, if◌then◌else◌}
use esp32_template.Base.Bits.{bit_xor-cancel, bit_xor-lt, bit_xor_comm}
use esp32_template.Base.Bytes.{Bytes, IsBytes}
use esp32_template.Crc.{
  fold_bytes, rounds, modbus_crc16_bit, modbus_crc16_byte, crc16_bit, crc16_byte,
}

-- Every number below the bound passes the test.
unfoldable pub each_below : ℕ → (ℕ → Bool) → Bool
each_below zero test = true
each_below (suc bound) test = if test bound then each_below bound test else false

pub each_below→holds :
    (bound : ℕ) (test : ℕ → Bool) (x : ℕ) → each_below bound test ≡ true → x < bound → test x ≡ true
unfolding each_below
each_below→holds zero test x all below = absurd (omega arith)
each_below→holds (suc bound) test x all below = ground (arith, each_below→holds bound test x)

-- The bit step run backwards: the top bit tells whether the polynomial was added.
modbus_crc16_unbit : ℕ → ℕ
modbus_crc16_unbit r = if ltb r 0x8000 then r * 2 else bit_xor r 0xA001 * 2 + 1

unbit_table : each_below 0x10000 (λ r. modbus_crc16_unbit (modbus_crc16_bit r) == r) ≡ true
unfolding each_below modbus_crc16_unbit modbus_crc16_bit
unbit_table = refl

crc16_unbit : ℕ → ℕ
crc16_unbit r = if bit_and r 1 == 0 then r / 2 else bit_xor r 0x1021 / 2 + 0x8000

crc16_unbit_table : each_below 0x10000 (λ r. crc16_unbit (crc16_bit r) == r) ≡ true
unfolding each_below crc16_unbit crc16_bit
crc16_unbit_table = refl

-- Equal results of an undone step have equal arguments.
inj_of_undo :
    (f g : ℕ → ℕ)
    → each_below 0x10000 (λ r. g (f r) == r) ≡ true
    → (r s : ℕ) → r < 0x10000
    → s < 0x10000
    → f r ≡ f s
    → r ≡ s
inj_of_undo f g table r s hr hs e =
    sym ((==_iff _ r).0 (each_below→holds 0x10000 _ r table hr))
    ∙ ap g e
    ∙ (==_iff _ s).0 (each_below→holds 0x10000 _ s table hs)

module _ (f : ℕ → ℕ) (range : (r : ℕ) → r < 0x10000 → f r < 0x10000) where
  rounds-lt : (n r : ℕ) → r < 0x10000 → rounds f n r < 0x10000
  unfolding rounds
  rounds-lt zero r h = h
  rounds-lt (suc n) r h = rounds-lt n (f r) (range r h)

  rounds-inj :
      ((r s : ℕ) → r < 0x10000 → s < 0x10000 → f r ≡ f s → r ≡ s)
      → (n r s : ℕ) → r < 0x10000
      → s < 0x10000
      → rounds f n r ≡ rounds f n s
      → r ≡ s
  unfolding rounds
  rounds-inj inj zero r s hr hs e = e
  rounds-inj inj (suc n) r s hr hs e =
      inj r s hr hs (rounds-inj inj n (f r) (f s) (range r hr) (range s hs) e)

-- A loop body whose result determines the byte, given the value, and the value, given the byte.
pub record IsStep (body : ℕ → ℕ → ℕ) : Type 0 where
  pub range : (r b : ℕ) → r < 0x10000 → b < 256 → body r b < 0x10000
  pub value : (r s b : ℕ) → r < 0x10000 → s < 0x10000 → b < 256 → body r b ≡ body s b → r ≡ s
  pub byte : (r b c : ℕ) → r < 0x10000 → b < 256 → c < 256 → body r b ≡ body r c → b ≡ c

xor_inj : (a b c : ℕ) → bit_xor a b ≡ bit_xor a c → b ≡ c
xor_inj a b c e = sym (bit_xor-cancel a b) ∙ ap (bit_xor a) e ∙ bit_xor-cancel a c

xor_inj_left : (a b c : ℕ) → bit_xor b a ≡ bit_xor c a → b ≡ c
xor_inj_left a b c e = xor_inj a b c (bit_xor_comm a b ∙ e ∙ bit_xor_comm c a)

modbus_crc16_bit-lt : (r : ℕ) → r < 0x10000 → modbus_crc16_bit r < 0x10000
unfolding modbus_crc16_bit
modbus_crc16_bit-lt r h = ground (arith, bit_xor-lt 16 (r / 2) 0xA001)

crc16_bit-lt : (r : ℕ) → r < 0x10000 → crc16_bit r < 0x10000
unfolding crc16_bit
crc16_bit-lt r h = ground (arith, bit_xor-lt 16 (r * 2 % 2 ^ 16) 0x1021)

-- The byte, placed by `g`, is mixed in by an exclusive or, and eight bit steps follow.
rounds-IsStep :
    (f g : ℕ → ℕ)
    → ((r : ℕ) → r < 0x10000 → f r < 0x10000)
    → ((r s : ℕ) → r < 0x10000 → s < 0x10000 → f r ≡ f s → r ≡ s)
    → ((b : ℕ) → b < 256 → g b < 0x10000)
    → ((b c : ℕ) → b < 256 → c < 256 → g b ≡ g c → b ≡ c)
    → IsStep (λ r b. rounds f 8 (bit_xor r (g b)))
rounds-IsStep f g range inj fits place = record {
  range = λ r b hr hb. rounds-lt f range 8 _ (bit_xor-lt 16 r (g b) hr (fits b hb));
  value = λ r s b hr hs hb e. xor_inj_left (g b) r s (
      rounds-inj f range inj 8 _ _ (bit_xor-lt 16 r (g b) hr (fits b hb))
        (bit_xor-lt 16 s (g b) hs (fits b hb)) e);
  byte = λ r b c hr hb hc e. place b c hb hc (
      xor_inj r (g b) (g c) (
        rounds-inj f range inj 8 _ _ (bit_xor-lt 16 r (g b) hr (fits b hb))
          (bit_xor-lt 16 r (g c) hr (fits c hc)) e));
}

pub modbus_crc16_byte-IsStep : IsStep modbus_crc16_byte
unfolding modbus_crc16_byte
modbus_crc16_byte-IsStep =
    rounds-IsStep modbus_crc16_bit (λ b. b) modbus_crc16_bit-lt
      (inj_of_undo modbus_crc16_bit modbus_crc16_unbit unbit_table) (λ b h. omega arith)
      (λ b c hb hc e. e)

pub crc16_byte-IsStep : IsStep crc16_byte
unfolding crc16_byte
crc16_byte-IsStep =
    rounds-IsStep crc16_bit (λ b. b * 2 ^ 8 % 2 ^ 16) crc16_bit-lt
      (inj_of_undo crc16_bit crc16_unbit crc16_unbit_table) (λ b h. omega arith)
      (λ b c hb hc e. omega arith)

-- The two buffers hold bytes and differ at `j` only.
pub record DifferAt (m m' : Bytes) (j : ℕ) : Type 0 where
  pub bytes : IsBytes m
  pub bytes' : IsBytes m'
  pub differ : m j ≢ m' j
  pub same : (i : ℕ) → i ≢ j → m i ≡ m' i

module _ (body : ℕ → ℕ → ℕ) (step : IsStep body) where
  pub fold_bytes-lt :
      (left i r : ℕ) (m : Bytes) → IsBytes m → r < 0x10000 → fold_bytes body m left i r < 0x10000
  unfolding fold_bytes
  fold_bytes-lt zero i r m h hr = hr
  fold_bytes-lt (suc left) i r m h hr =
      fold_bytes-lt left (i + 1) (body r (m i)) m h (step.range r (m i) hr (h i))

  module _ {m m' : Bytes} {j : ℕ} (d : DifferAt m m' j) where
    -- Past the changed byte, different values stay different.
    fold_bytes-ne :
        (left i r s : ℕ)
        → j < i
        → r < 0x10000
        → s < 0x10000
        → r ≢ s
        → fold_bytes body m left i r ≢ fold_bytes body m' left i s
    unfolding fold_bytes
    fold_bytes-ne zero i r s past hr hs ne = ne
    fold_bytes-ne (suc left) i r s past hr hs ne =
        let e : m i ≡ m' i = d.same i (omega arith) in
        rw (← e) (
          fold_bytes-ne left (i + 1) (body r (m i)) (body s (m i)) (omega arith)
            (step.range r (m i) hr (d.bytes i)) (step.range s (m i) hs (d.bytes i))
            (λ eq. ne (step.value r s (m i) hr hs (d.bytes i) eq)))

    pub fold_bytes-detects :
        (left i r : ℕ)
        → i ≤ j
        → j < i + left
        → r < 0x10000
        → fold_bytes body m left i r ≢ fold_bytes body m' left i r
    unfolding fold_bytes
    fold_bytes-detects zero i r lo hi hr = absurd (omega arith)
    fold_bytes-detects (suc left) i r lo hi hr = elim (ℕ_discrete i j) [
      | yes here ↦
          fold_bytes-ne left (i + 1) (body r (m i)) (body r (m' i)) (omega arith)
            (step.range r (m i) hr (d.bytes i)) (step.range r (m' i) hr (d.bytes' i))
            (λ eq. d.differ (rw (← here) (step.byte r (m i) (m' i) hr (d.bytes i) (d.bytes' i) eq)))
      | no later ↦
          let e : m i ≡ m' i = d.same i later in
          rw (← e) (
            fold_bytes-detects left (i + 1) (body r (m i)) (omega arith) (omega arith)
              (step.range r (m i) hr (d.bytes i)))
    ]
