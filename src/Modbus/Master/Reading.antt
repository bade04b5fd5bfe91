-- ===== src/Modbus/Master/Reading.antt =====
-- The request of the master to read words, and what it makes of an answer over TCP: main/modbus.c.
use native.Mathlib.Decide.{ℕ_discrete}
use esp32_template.Base.{
  zero, suc, ◌-◌, bit_or, if◌then◌else◌, not, ℕ, ◌+◌, ◌*◌, ◌/◌, ◌%◌, ◌^◌, ◌≤◌, ◌<◌, true, false,
  ◌||◌, some, ◌⊎◌, inl, inr, ◌≡◌, refl, ◌∙◌, arith, ltb, ◌==◌,
}
use esp32_template.Base.Bytes.{Bytes, IsBytes, put_u16}
use esp32_template.Crc.Frames.{modbus_crc16_ext, modbus_crc16-lt}
use esp32_template.Base.Int.{pos}
use esp32_template.Modbus.{behind}
use esp32_template.Modbus.Request.{
  put_be16, modbus_make_tcp_packet, tcp_request, request_head, request_body, request_crc,
}
use esp32_template.Modbus.Master.{
  Words, set_word, make_query, no_pointer, framed, buffer_of, least, words_loop, process_words,
  body_of,
}
use esp32_template.Crc.{modbus_crc16, modbus_crc16_check}
use esp32_template.Base.Bits.{bit_or_bytes}

-- The twelve bytes of a request to read `n` items
abbrev pub Query : ℕ → ℕ → ℕ → ℕ → ℕ → Bytes → Type 0
Query t slave f start n p =
    p 0 ≡ t / 256 % 256
    × p 1 ≡ t % 256
    × p 6 ≡ slave % 256
    × p 7 ≡ f % 256
    × p 8 ≡ start / 256 % 256
    × p 9 ≡ start % 256
    × p 10 ≡ n / 256 % 256
    × p 11 ≡ n % 256

request_body-read :
    (f n : ℕ) (head : Bytes)
    → (f ≡ 3) ⊎ (f ≡ 4)
    → request_body f n no_pointer head ≡ (pos 6, put_be16 head 4 n)
unfolding request_body
request_body-read f n head (inl e) = rw e refl
request_body-read f n head (inr e) = rw e refl

pub make_query-read :
    (channel slave f start n t : ℕ) (packet : Bytes)
    → framed channel ≡ true
    → (f ≡ 3) ⊎ (f ≡ 4)
    → let q = make_query channel slave f start n no_pointer packet t in
      q.byte ≡ pos 12 × Query t slave f start n q.packet
unfolding make_query modbus_make_tcp_packet request_head request_crc tcp_request
make_query-read channel slave f start n t packet e which =
    rw (e, request_body-read f n _ which) (refl, (refl, refl, refl, refl, refl, refl, refl, refl))

words_loop-outside :
    (body : Bytes) (left i k : ℕ) (dest : Words)
    → (k < i) ⊎ (i + left ≤ k)
    → words_loop body left i dest k ≡ dest k
unfolding words_loop
words_loop-outside body zero i k dest h = refl
words_loop-outside body (suc left) i k dest h =
    let w = bit_or (body (3 + i * 2) * 256 % 2 ^ 16) (body (4 + i * 2)) in
    ground (arith, words_loop-outside body left (i + 1) k (set_word dest i w))

word_of :
    (body : Bytes) (i : ℕ)
    → body (3 + i * 2) < 256
    → body (4 + i * 2) < 256
    → bit_or (body (3 + i * 2) * 256 % 2 ^ 16) (body (4 + i * 2))
      ≡ body (3 + i * 2) * 256 + body (4 + i * 2)
word_of body i h l =
    let e : body (3 + i * 2) * 256 % 2 ^ 16 ≡ body (3 + i * 2) * 256 = omega arith in
    rw e (bit_or_bytes (body (3 + i * 2)) (body (4 + i * 2)) l)

words_loop-inside :
    (body : Bytes) (left i k : ℕ) (dest : Words)
    → i ≤ k
    → k < i + left
    → body (3 + k * 2) < 256
    → body (4 + k * 2) < 256
    → words_loop body left i dest k ≡ body (3 + k * 2) * 256 + body (4 + k * 2)
unfolding words_loop
words_loop-inside body zero i k dest lo hi h l = absurd (omega arith)
words_loop-inside body (suc left) i k dest lo hi h l =
    let w = bit_or (body (3 + i * 2) * 256 % 2 ^ 16) (body (4 + i * 2)) in
    elim (ℕ_discrete i k) [
      | yes e ↦
          let value = word_of body k h l in
          words_loop-outside body left (i + 1) k (set_word dest i w) (inl (omega arith))
          ∙ ground (arith, value, e)
      | no differ ↦
          words_loop-inside body left (i + 1) k (set_word dest i w) (omega arith) (omega arith) h l
    ]

-- A buffer whose first `n` words are those that stand in `body`
abbrev pub Filled : ℕ → Words → Bytes → Words → Type 0
Filled n dest body w =
    (k : ℕ) → (k < n → w k ≡ body (3 + k * 2) * 256 + body (4 + k * 2)) × (n ≤ k → w k ≡ dest k)

pub process_words-Filled :
    (slave n len : ℕ) (dest : Words) (body : Bytes)
    → body 0 ≡ slave
    → body 2 ≡ 2 * n
    → n ≤ 125
    → ((i : ℕ) → i < n * 2 → body (3 + i) < 256)
    → modbus_crc16_check body (body 2 + 3 + 2) ≡ true
    → let r = process_words slave n n (some dest) len body in
      r.0 ≡ pos len × Filled n dest body (buffer_of dest r.1)
unfolding process_words
process_words-Filled slave n len dest body e0 e2 small bytes good =
    let same : (not (body 2 == 2 * n) || not (body 0 == slave)) ≡ false = ground arith in
    let count : least (n % 256) n ≡ n = ground arith in
    rw (same, good, count)
      (
        refl,
        λ k. (
          λ lt.
              words_loop-inside body n 0 k dest (omega arith) (omega arith)
                (bytes (k * 2) (omega arith)) (ground (arith, bytes (k * 2 + 1) (omega arith))),
          λ ge. words_loop-outside body n 0 k dest (inr (omega arith)),
        ),
      )

crc-small : (m : Bytes) (n : ℕ) → ((i : ℕ) → i < n → m i < 256) → modbus_crc16 m n < 0x10000
crc-small m n h =
    let inside : Bytes = λ i. if ltb i n then m i else 0 in
    let same : modbus_crc16 m n ≡ modbus_crc16 inside n =
      modbus_crc16_ext m inside n (λ k lt. ground arith) in
    let bytes : IsBytes inside = λ i. ground (arith, h i) in
    rw same (modbus_crc16-lt inside n bytes)

checked_by :
    (m : Bytes) (n len : ℕ)
    → 0 < n
    → len ≡ n + 2
    → modbus_crc16 m n ≡ m n + 256 * m (n + 1)
    → modbus_crc16_check m len ≡ true
unfolding modbus_crc16_check
checked_by m n len above e good = let f : n + 2 - 2 ≡ n = omega arith in rw (e, f) (ground arith)

-- What the master makes of an answer over TCP: the body, with the crc behind it
pub body_of-checked :
    (channel len : ℕ) (p : Bytes)
    → framed channel ≡ true
    → 9 ≤ len
    → p 8 + 9 ≡ len
    → ((i : ℕ) → 6 + i < len → p (6 + i) < 256)
    → let body = body_of channel len p in
      ((i : ℕ) → i + 6 < len → body i ≡ p (6 + i)) × modbus_crc16_check body (body 2 + 3 + 2) ≡ true
unfolding body_of
body_of-checked channel len p e lo count bytes =
    let n = len - 6 in
    let c = modbus_crc16 (behind 6 p) n in
    let body = behind 6 (put_u16 p len c) in
    let kept : (i : ℕ) → i + 6 < len → body i ≡ p (6 + i) = λ i lt. ground arith in
    let same : modbus_crc16 body n ≡ c =
      modbus_crc16_ext body (behind 6 p) n (λ k lt. kept k (omega arith)) in
    let small = crc-small (behind 6 p) n (λ i lt. bytes i (omega arith)) in
    let at : 6 + n ≡ len = omega arith in
    let low : body n ≡ c % 256 = ground arith in
    let high : body (n + 1) ≡ c / 256 % 256 = ground arith in
    let total : body 2 + 3 + 2 ≡ n + 2 = ground (arith, kept 2 (omega arith)) in
    rw e (kept, checked_by body n (body 2 + 3 + 2) (omega arith) total (omega arith))
