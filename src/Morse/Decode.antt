-- ===== src/Morse/Decode.antt =====
-- What `morse_task` of user_tasks/morse.c makes of the signals of its key.
use esp32_template.Base.{
  ℕ, suc, ◌+◌, ◌*◌, ◌≤◌, ◌<◌, Bool, true, false, ◌||◌, List, [], ◌∷◌, ◌≡◌, ◌≢◌, refl, ap, ◌∙◌,
  arith, ltb, if◌then◌else◌, length,
}
use esp32_template.Morse.{MorseNode, null, node, read_letter}
use esp32_template.Morse.Letters.{root_letter}

-- The node that a code leads to; `true` is a dah.
abbrev pub walk : List Bool → MorseNode → MorseNode
walk [] n = n
walk (b ∷ code) null = null
walk (b ∷ code) (node letter type dit dah) = walk code (if b then dah else dit)

-- A key is held for more than three units for a dah and for at most three for a dit.
abbrev pub Held : ℕ → Bool → ℕ → Type 0
Held unit true held = 3 * unit < held
Held unit false held = held ≤ 3 * unit

-- The signals from `i` on are a code: three units at most between two of them, and more behind the
-- last one.
pub data IsKeyed (unit : ℕ) (signals : ℕ → ℕ × ℕ) : ℕ → List Bool → Type 0 where
  last_one :
      (i : ℕ) (b : Bool)
      → Held unit b (signals i).0
      → 3 * unit < (signals i).1
      → IsKeyed unit signals i (b ∷ [])
  one_before :
      (i : ℕ) (b c : Bool) (code : List Bool)
      → Held unit b (signals i).0
      → (signals i).1 ≤ 3 * unit
      → IsKeyed unit signals (i + 1) (c ∷ code)
      → IsKeyed unit signals i (b ∷ c ∷ code)

Held-test : (unit : ℕ) (b : Bool) (held : ℕ) → Held unit b held → ltb (3 * unit) held ≡ b
Held-test unit true held h = ground arith
Held-test unit false held h = ground arith

walk_null : (code : List Bool) → walk code null ≡ null
walk_null [] = refl
walk_null (b ∷ code) = refl

further :
    (n : MorseNode) (i l : ℕ) → ◌≡◌ {A = MorseNode × ℕ} (n, i + 1 + suc l) (n, i + suc (suc l))
further n i l = ap (λ (k : ℕ). (n, k)) (omega arith)

read_letter-walk_from :
    (unit : ℕ) (signals : ℕ → ℕ × ℕ) (code : List Bool) (n : MorseNode) (i : ℕ)
    → IsKeyed unit signals i code
    → walk code n ≢ null
    → read_letter unit signals n i ≡ (walk code n, i + length code)
unfolding read_letter
read_letter-walk_from unit signals code null i k found = absurd (found (walk_null code))
read_letter-walk_from unit signals [] (node l t dit dah) i k found = elim k [ ]
read_letter-walk_from unit signals (true ∷ []) (node l t dit dah) i (last_one _ _ held long) found =
    let e = Held-test unit true (signals i).0 held in
    let stops : (ltb (7 * unit) (signals i).1 || ltb (3 * unit) (signals i).1) ≡ true =
      ground arith in
    rw (e, stops) refl
read_letter-walk_from unit signals (false ∷ []) (node l t dit dah) i (last_one _ _ held long)
      found =
    let e = Held-test unit false (signals i).0 held in
    let stops : (ltb (7 * unit) (signals i).1 || ltb (3 * unit) (signals i).1) ≡ true =
      ground arith in
    rw (e, stops) refl
read_letter-walk_from unit signals (true ∷ c ∷ code) (node l t dit dah) i
      (one_before _ _ _ _ held short k) found =
    let e = Held-test unit true (signals i).0 held in
    let goes : (ltb (7 * unit) (signals i).1 || ltb (3 * unit) (signals i).1) ≡ false =
      ground arith in
    let rest = read_letter-walk_from unit signals (c ∷ code) dah (i + 1) k found in
    rw (e, goes) (rest ∙ further (walk (c ∷ code) dah) i (length code))
read_letter-walk_from unit signals (false ∷ c ∷ code) (node l t dit dah) i
      (one_before _ _ _ _ held short k) found =
    let e = Held-test unit false (signals i).0 held in
    let goes : (ltb (7 * unit) (signals i).1 || ltb (3 * unit) (signals i).1) ≡ false =
      ground arith in
    let rest = read_letter-walk_from unit signals (c ∷ code) dit (i + 1) k found in
    rw (e, goes) (rest ∙ further (walk (c ∷ code) dit) i (length code))

-- A code that is keyed well leads to its node in the tree, if it has one, and takes as many signals
-- as the code has dits and dahs.
pub read_letter-walk :
    (unit : ℕ) (signals : ℕ → ℕ × ℕ) (code : List Bool)
    → IsKeyed unit signals 0 code
    → walk code root_letter ≢ null
    → read_letter unit signals root_letter 0 ≡ (walk code root_letter, length code)
read_letter-walk unit signals code k found =
    read_letter-walk_from unit signals code root_letter 0 k found
    ∙ ap (λ (k : ℕ). (walk code root_letter, k)) (omega arith)
