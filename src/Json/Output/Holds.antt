-- ===== src/Json/Output/Holds.antt =====
-- The answer's buffer holds what the calls write, or it has overflowed.
use mathlib.Core.Path.{ap₂}
use esp32_template.Base.{
  ℕ, zero, suc, ◌+◌, ◌-◌, ◌≤◌, ◌<◌, ◌≡◌, inl, refl, ap, ◌∙◌, arith, true, false, List, [], ◌∷◌,
  ◌++◌, ltb, leb, length, length-append, if-holds,
}
use esp32_template.Base.Bytes.{Bytes, upd, store, load, load_ext, store-outside}
use esp32_template.Json.Output.{
  max_dinamic_json_file_len, JsonOut, take, vsnprintf, json_out_append, json_out_replace_last, Op,
  append, replace_last, run_op, run_ops,
}
use esp32_template.Json.Strings.{Text}

-- The last byte of a text is replaced, if it has one.
abbrev pub with_last : ℕ → Text → Text
with_last c [] = []
with_last c (x ∷ []) = c ∷ []
with_last c (x ∷ y ∷ s) = x ∷ with_last c (y ∷ s)

-- What the calls make of a text without a bound
abbrev pub text_op : Op → Text → Text
text_op (append t) text = text ++ t
text_op (replace_last c) text = with_last c text

abbrev pub text_ops : List Op → Text → Text
text_ops [] text = text
text_ops (op ∷ ops) text = text_ops ops (text_op op text)

-- The bytes in the buffer
abbrev pub content : JsonOut → Text
content out = load out.databuf 0 out.len

-- The buffer holds the text, if it fits with its NUL; otherwise it has overflowed.
pub data Holds (text : Text) (out : JsonOut) : Type 0 where
  whole :
      length text < max_dinamic_json_file_len
      → out.overflow ≡ false
      → out.len ≡ length text
      → content out ≡ text
      → Holds text out
  lost :
      max_dinamic_json_file_len ≤ length text
      → out.overflow ≡ true
      → out.len < max_dinamic_json_file_len
      → Holds text out

-- No call appends nothing.
abbrev pub IsBody : List Op → Type 0
IsBody [] = Unit {0}
IsBody (append t ∷ ops) = (0 < length t) × IsBody ops
IsBody (replace_last c ∷ ops) = IsBody ops

pub take-all : (n : ℕ) (s : Text) → length s ≤ n → take n s ≡ s
take-all zero [] h = refl
take-all zero (x ∷ s) h = absurd (omega arith)
take-all (suc n) [] h = refl
take-all (suc n) (x ∷ s) h = ap (◌∷◌ x) (take-all n s (omega arith))

load-append : (n k : ℕ) (m : Bytes) (a : ℕ) → load m a (n + k) ≡ load m a n ++ load m (a + n) k
unfolding load
load-append zero k m a = ap₂ (λ b. load m b) (omega arith) (omega arith)
load-append (suc n) k m a =
    let total : suc n + k ≡ suc (n + k) = omega arith in
    let next : a + suc n ≡ a + 1 + n = omega arith in
    rw (total, next) (ap (◌∷◌ (m a)) (load-append n k m (a + 1)))

load-store_front :
    (xs ys : List ℕ) (m : Bytes) (a : ℕ) → load (store m a (xs ++ ys)) a (length xs) ≡ xs
unfolding load store
load-store_front [] ys m a = refl
load-store_front (x ∷ xs) ys m a =
    ap₂ ◌∷◌ (ground (arith, store-outside (xs ++ ys) (upd m a x) (a + 1) a))
      (load-store_front xs ys (upd m a x) (a + 1))

-- What is stored behind the first `n` bytes is read behind them.
load-store_behind :
    (n : ℕ) (xs ys : List ℕ) (m : Bytes)
    → load (store m n (xs ++ ys)) 0 (n + length xs) ≡ load m 0 n ++ xs
load-store_behind n xs ys m =
    let m' = store m n (xs ++ ys) in
    let before : load m' 0 n ≡ load m 0 n =
      load_ext n m' m 0 0 (λ k less. store-outside (xs ++ ys) m n (0 + k) (inl (omega arith))) in
    let start : 0 + n ≡ n = omega arith in
    let behind : load m' (0 + n) (length xs) ≡ xs = rw start (load-store_front xs ys m n) in
    load-append n (length xs) m' 0 ∙ ap₂ ◌++◌ before behind

load-upd_last :
    (n : ℕ) (m : Bytes) (a b c : ℕ)
    → b ≡ a + n
    → load (upd m b c) a (suc n) ≡ with_last c (load m a (suc n))
unfolding load
load-upd_last zero m a b c e = ground arith
load-upd_last (suc n) m a b c e =
    ap₂ ◌∷◌ (ground arith) (load-upd_last n m (a + 1) b c (omega arith))

length-with_last : (c : ℕ) (s : Text) → length (with_last c s) ≡ length s
length-with_last c [] = refl
length-with_last c (x ∷ []) = refl
length-with_last c (x ∷ y ∷ s) = ap suc (length-with_last c (y ∷ s))

content-appended :
    (t : Text) (out : JsonOut)
    → length t < max_dinamic_json_file_len - out.len
    → load
        (vsnprintf out.databuf out.len (max_dinamic_json_file_len - out.len) t)
        0
        (out.len + length t)
      ≡ content out ++ t
content-appended t out h =
    let all = take-all (max_dinamic_json_file_len - out.len - 1) t (omega arith) in
    rw all (load-store_behind out.len t (0 ∷ []) out.databuf)

pub json_out_append-whole :
    (t text : Text) (out : JsonOut)
    → 0 < length t
    → length text < max_dinamic_json_file_len
    → out.overflow ≡ false
    → out.len ≡ length text
    → content out ≡ text
    → Holds (text ++ t) (json_out_append t out)
unfolding json_out_append
json_out_append-whole t text out some_bytes h o l e =
    let sum = length-append text t in
    let free_space = max_dinamic_json_file_len - out.len in
    rw (o, json_out_append)
      (if-holds (Holds (text ++ t)) (leb free_space 1)
        (λ full. lost (ground arith) refl (omega arith))
        λ room.
          if-holds (Holds (text ++ t)) (leb free_space (length t))
            (λ over. lost (ground arith) refl (omega arith))
            λ under.
              whole (ground arith) refl (omega arith)
                (content-appended t out (ground arith) ∙ ap (λ s. s ++ t) e))

json_out_append-lost :
    (t text : Text) (out : JsonOut)
    → max_dinamic_json_file_len ≤ length text
    → out.overflow ≡ true
    → out.len < max_dinamic_json_file_len
    → Holds (text ++ t) (json_out_append t out)
unfolding json_out_append
json_out_append-lost t text out h o b =
    let sum = length-append text t in rw (o, json_out_append) (lost (omega arith) refl b)

content-replaced :
    (n c : ℕ) (out : JsonOut)
    → out.len ≡ suc n
    → content (record out { databuf = upd out.databuf (out.len - 1) c }) ≡ with_last c (content out)
content-replaced n c out e = rw e (load-upd_last n out.databuf 0 (suc n - 1) c (omega arith))

pub content-empty : (out : JsonOut) → out.len ≡ 0 → content out ≡ []
unfolding load
content-empty out e = rw e refl

replaced_whole :
    (n c : ℕ) (text : Text) (out : JsonOut)
    → length text < max_dinamic_json_file_len
    → out.overflow ≡ false
    → out.len ≡ n
    → n ≡ length text
    → content out ≡ text
    → Holds (with_last c text) (json_out_replace_last c out)
unfolding json_out_replace_last
replaced_whole zero c [] out h o l k e =
    if-holds (Holds []) (ltb 0 out.len) (λ above. absurd (ground arith))
      λ none_yet. whole h o (omega arith) e
replaced_whole zero c (x ∷ text) out h o l k e = absurd (omega arith)
replaced_whole (suc n) c text out h o l k e =
    let same = length-with_last c text in
    if-holds (Holds (with_last c text)) (ltb 0 out.len)
      (λ above.
        whole (omega arith) o (omega arith) (content-replaced n c out l ∙ ap (with_last c) e))
      λ none_yet. absurd (ground arith)

replaced_lost :
    (c : ℕ) (text : Text) (out : JsonOut)
    → max_dinamic_json_file_len ≤ length text
    → out.overflow ≡ true
    → out.len < max_dinamic_json_file_len
    → Holds (with_last c text) (json_out_replace_last c out)
unfolding json_out_replace_last
replaced_lost c text out h o b =
    let same = length-with_last c text in
    if-holds (Holds (with_last c text)) (ltb 0 out.len) (λ above. lost (omega arith) o b)
      λ none_yet. lost (omega arith) o b

pub run_op-Holds :
    (op : Op) (text : Text) (out : JsonOut)
    → IsBody (op ∷ [])
    → Holds text out
    → Holds (text_op op text) (run_op op out)
unfolding run_op
run_op-Holds (append t) text out (p, _) (whole h o l e) = json_out_append-whole t text out p h o l e
run_op-Holds (append t) text out (p, _) (lost h o b) = json_out_append-lost t text out h o b
run_op-Holds (replace_last c) text out p (whole h o l e) =
    replaced_whole out.len c text out h o refl l e
run_op-Holds (replace_last c) text out p (lost h o b) = replaced_lost c text out h o b

pub run_ops-Holds :
    (ops : List Op) (text : Text) (out : JsonOut)
    → IsBody ops
    → Holds text out
    → Holds (text_ops ops text) (run_ops ops out)
unfolding run_ops
run_ops-Holds [] text out p h = h
run_ops-Holds (append t ∷ ops) text out (p, ps) h =
    run_ops-Holds ops (text ++ t) (run_op (append t) out) ps
      (run_op-Holds (append t) text out (p, tt) h)
run_ops-Holds (replace_last c ∷ ops) text out ps h =
    run_ops-Holds ops (with_last c text) (run_op (replace_last c) out) ps
      (run_op-Holds (replace_last c) text out tt h)
