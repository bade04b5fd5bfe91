-- ===== src/Morse/Broadcast.antt =====
-- A text that is keyed letter by letter and then broadcast: `handle_next_letter` of
-- user_tasks/morse.c.
use mathlib.Core.Path.{subst}
use native.Mathlib.Decide.{dec_lt}
use esp32_template.Base.{
  ℕ, zero, suc, ◌+◌, ◌%◌, ◌^◌, ◌≤◌, ◌<◌, some, List, [], ◌∷◌, ◌++◌, inr, ◌≡◌, refl, ap, sym, ◌∙◌,
  arith, ltb, if◌then◌else◌, length, get_or, length-append,
}
use esp32_template.Base.Bytes.{
  Bytes, upd, load, store, store-outside, store-inside, length-load, get_or-load,
}
use esp32_template.Morse.{
  MorseType, MorseNode, node, MorseState, fill_morse_log_buffer, zeros, handle_type,
  handle_next_letter,
}
use esp32_template.Morse.Letters.{broadcast_the_message_command}
use esp32_template.Morse.Message.{length-zeros, get_or-zeros}

-- Letters one after the other
abbrev pub key_all : ℕ → List MorseNode → MorseState → MorseState
key_all max [] s = s
key_all max (n ∷ nodes) s = key_all max nodes (handle_next_letter max n s)

-- The nodes are letters, and their texts together are the text.
pub data Spells : List MorseNode → List ℕ → Type 0 where
  spells_nothing : Spells [] []
  spells_letter :
      (letter : List ℕ) (dit dah : MorseNode) (nodes : List MorseNode) (text : List ℕ)
      → Spells nodes text
      → Spells (node (some letter) MorseType.morse_letter dit dah ∷ nodes) (letter ++ text)

-- A text that fits is written as it is.
fill-store :
    (letter : List ℕ) (buffer : Bytes) (p max : ℕ)
    → p + length letter ≤ max
    → max < 2 ^ 16
    → fill_morse_log_buffer buffer letter p max ≡ (p + length letter, store buffer p letter)
unfolding fill_morse_log_buffer store
fill-store [] buffer p max fits small = ap (λ (k : ℕ). (k, buffer)) (omega arith)
fill-store (c ∷ letter) buffer p max fits small =
    let room : (if ltb p max then (p + 1) % 2 ^ 16 else 0) ≡ p + 1 = ground arith in
    let rest = fill-store letter (upd buffer p c) (p + 1) max (omega arith) small in
    rw room (rest ∙ ap (λ (k : ℕ). (k, store (upd buffer p c) (p + 1) letter)) (omega arith))

store-append :
    (xs ys : List ℕ) (m : Bytes) (a : ℕ)
    → store (store m a xs) (a + length xs) ys ≡ store m a (xs ++ ys)
unfolding store
store-append [] ys m a = ap (λ (k : ℕ). store m k ys) (omega arith)
store-append (x ∷ xs) ys m a =
    ap (λ (k : ℕ). store (store (upd m a x) (a + 1) xs) k ys) (omega arith)
    ∙ store-append xs ys (upd m a x) (a + 1)

get_or-beyond : (xs : List ℕ) (k d : ℕ) → length xs ≤ k → get_or xs k d ≡ d
get_or-beyond [] k d h = refl
get_or-beyond (x ∷ xs) zero d h = absurd (omega arith)
get_or-beyond (x ∷ xs) (suc k) d h = get_or-beyond xs k d (omega arith)

-- A text in front of a zero byte, or over it
over_zeros :
    (text : List ℕ) (m : Bytes) (k : ℕ) → m k ≡ 0 → store m 0 text (0 + k) ≡ get_or text k 0
over_zeros text m k z = elim (dec_lt k (length text)) [
  | yes lt ↦ store-inside text m 0 k lt
  | no ge ↦
      ap (store m 0 text) (omega arith)
      ∙ store-outside text m 0 k (inr (omega arith))
      ∙ z
      ∙ sym (get_or-beyond text k 0 (omega arith))
]

-- What keying the text leaves
abbrev Keyed : MorseState → List ℕ → MorseState → Type 0
Keyed s text s' =
    s'.log_pointer ≡ s.log_pointer + length text
    × s'.regs ≡ store s.regs s.log_pointer text
    × s'.morse_counter ≡ s.morse_counter

key_all-Keyed :
    (max : ℕ) (nodes : List MorseNode) (text : List ℕ) (s : MorseState)
    → Spells nodes text
    → s.log_pointer + length text ≤ max
    → max < 2 ^ 16
    → Keyed s text (key_all max nodes s)
unfolding handle_next_letter handle_type store
key_all-Keyed max [] text s spells_nothing fits small = (omega arith, refl, refl)
key_all-Keyed max (_ ∷ nodes) _ s (spells_letter letter dit dah _ text rest) fits small =
    let total = length-append letter text in
    let filled = fill-store letter s.regs s.log_pointer max (omega arith) small in
    let p = s.log_pointer + length letter in
    let s' : MorseState = record s {
      log_pointer = p;
      regs = store s.regs s.log_pointer letter;
      morse_message_position = p;
    } in
    let (at, put, same) = key_all-Keyed max nodes text s' rest (omega arith) small in
    subst
      (λ (r : ℕ × Bytes). Keyed s (letter ++ text) (
        key_all max nodes
          (record s { log_pointer = r.0; regs = r.1; morse_message_position = r.0 })))
      (sym filled) (at ∙ omega arith, put ∙ store-append letter text s.regs s.log_pointer, same)

-- A text that is keyed letter by letter into an empty message, which has no byte but zeros and is
-- written from its start, and that fits the message's length of at most 32 bytes, is what the broadcast
-- command sends, with zeros behind it up to that length; then the message is empty again, and is
-- counted.
pub handle_next_letter-broadcast :
    (max k : ℕ) (nodes : List MorseNode) (text : List ℕ) (s : MorseState)
    → Spells nodes text
    → s.log_pointer ≡ 0
    → ((j : ℕ) → j < max → s.regs j ≡ 0)
    → length text ≤ max
    → max ≤ 32
    → k < max
    → let s' = handle_next_letter max broadcast_the_message_command (key_all max nodes s) in
      s'.regs (32 + k) ≡ get_or text k 0
      × s'.regs k ≡ 0
      × s'.log_pointer ≡ 0
      × s'.morse_counter ≡ (s.morse_counter + 1) % 2 ^ 32
unfolding handle_next_letter handle_type
handle_next_letter-broadcast max k nodes text s spelled start empty fits small below =
    let s1 = key_all max nodes s in
    let (at, put, same) = key_all-Keyed max nodes text s spelled (omega arith) (omega arith) in
    let sent = store s1.regs 32 (load s1.regs 0 max) in
    let size = length-load max s1.regs 0 in
    let blank = length-zeros max in
    let message : s1.regs ≡ store s.regs 0 text = put ∙ ap (λ (a : ℕ). store s.regs a text) start in
    (
      store-outside (zeros max) sent 0 (32 + k) (inr (omega arith))
          ∙ store-inside (load s1.regs 0 max) s1.regs 32 k (omega arith)
          ∙ get_or-load max s1.regs 0 k below
          ∙ ap (λ (m : Bytes). m (0 + k)) message
          ∙ over_zeros text s.regs k (empty k below),
      ap (store sent 0 (zeros max)) (omega arith)
          ∙ store-inside (zeros max) sent 0 k (omega arith)
          ∙ get_or-zeros max k,
      refl,
      ap (λ (c : ℕ). (c + 1) % 2 ^ 32) same,
    )
