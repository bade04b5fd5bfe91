-- ===== src/Json/Answer/Finished.antt =====
-- Every answer of `get_json_handle`, main/http/json.c, is finished.
use esp32_template.Base.{
  ◌%◌, ◌^◌, ℕ, zero, suc, ◌+◌, ◌*◌, ◌<◌, ◌≡◌, refl, arith, inl, inr, Bool, true, false, Option,
  none, some, List, [], ◌∷◌, ◌++◌, ltb, length, length-append, if◌then◌else◌, if-holds,
  Option-cases,
}
use esp32_template.Base.Bytes.{Bytes}
use esp32_template.Description.{RegsFlag, regs_size_in_byte, RegsTemplate, RegsTable}
use esp32_template.Description.Lookup.{regs_description_get_by_index}
use esp32_template.Json.{Pair, json_parse}
use esp32_template.Json.Answer.{
  Shown, value_text, item_ops, items_ops, register_value_ops, full_ops, register_ops, registers_ops,
  version_ops, answer_ops, Outcome, no_reading, give_answer, answer_pairs, get_json_handle, decimal,
  is_full,
}
use esp32_template.Json.Output.{
  max_dinamic_json_file_len, JsonOut, Op, append, replace_last, too_large,
}
use esp32_template.Json.Output.Bounded.{full_answer, IsFinished, build_answer-IsFinished}
use esp32_template.Json.Output.Holds.{IsBody}
use esp32_template.Json.Request.{Request, GetType, Reading, Floats, read_pairs}
use esp32_template.Json.Request.Kept.{
  InBounds, read_pairs-InBounds, IsNoValue, read_pairs-IsNoValue,
}
use esp32_template.Json.Request.Steps.{Each, AllNames}
use esp32_template.Json.Strings.{Text, codes}
use esp32_template.Mirror.{read_value}
use esp32_template.Platform.{Platform}
use esp32_template.Regs.{no_bytes}
use esp32_template.Regs.Command.{State}

IsBody-append : (xs ys : List Op) → IsBody xs → IsBody ys → IsBody (xs ++ ys)
IsBody-append [] ys p q = q
IsBody-append (append t ∷ xs) ys (p, ps) q = (p, IsBody-append xs ys ps q)
IsBody-append (replace_last c ∷ xs) ys p q = IsBody-append xs ys p q

-- A text is not empty if a part of it is not.
ends_full : (s t : Text) → 0 < length t → 0 < length (s ++ t)
ends_full s t h = let sum = length-append s t in omega arith

-- The registers after an outcome
abbrev pub SameRegs : State → Outcome → Type 0
SameRegs s outcome = outcome.0 ≡ s

module _ (sh : Shown) where
  shown-IsBody :
      (o : Option Text)
      → IsBody (elim o [ none ↦ [] | some text ↦ append (text ++ b',' ∷ []) ∷ [] ])
  shown-IsBody none = tt
  shown-IsBody (some text) = (ends_full text (b',' ∷ []) (omega arith), tt)

  item_ops-IsBody : (type : RegsFlag) (v : ℕ) → IsBody (item_ops sh type v)
  unfolding item_ops
  item_ops-IsBody type v = shown-IsBody (value_text sh type v)

  items_ops-IsBody :
      (left : ℕ) (t : RegsTemplate) (m : Bytes) (i : ℕ) → IsBody (items_ops sh left t m i)
  unfolding items_ops
  items_ops-IsBody zero t m i = tt
  items_ops-IsBody (suc left) t m i =
      let n = regs_size_in_byte t.desc.type in
      let v = read_value m (t.desc.p_value + i * n) n in
      IsBody-append (item_ops sh t.desc.type v) (items_ops sh left t m (i + 1))
        (item_ops-IsBody t.desc.type v) (items_ops-IsBody left t m (i + 1))

  register_value_ops-IsBody : (t : RegsTemplate) (m : Bytes) → IsBody (register_value_ops sh t m)
  unfolding register_value_ops
  register_value_ops-IsBody t m =
      let items = items_ops-IsBody t.desc.size t m 0 in
      if-holds IsBody (ltb 1 t.desc.size)
        (λ e.
          (omega arith, IsBody-append (items_ops sh t.desc.size t m 0) _ items (omega arith, tt)))
        λ e. items

  full_ops-IsBody : (t : RegsTemplate) → IsBody (full_ops sh t)
  unfolding full_ops
  full_ops-IsBody t = (omega arith, (omega arith, tt))

  register_ops-IsBody :
      (g : GetType) (m : Bytes) (index : ℕ) (o : Option RegsTemplate)
      → IsBody (register_ops sh g m index o)
  unfolding register_ops
  register_ops-IsBody g m index none = (omega arith, (omega arith, tt))
  register_ops-IsBody g m index (some t) =
      let described = if-holds IsBody (is_full g) (λ e. full_ops-IsBody t) (λ e. tt {0}) in
      (
        omega arith,
        IsBody-append (if is_full g then full_ops sh t else [])
            (append (codes " \"value\" :") ∷ register_value_ops sh t m) described
            (omega arith, register_value_ops-IsBody t m),
      )

  registers_ops-IsBody :
      (tables : List RegsTable) (left : ℕ) (r : Reading) (i : ℕ)
      → IsBody (registers_ops sh tables left r i)
  unfolding registers_ops
  registers_ops-IsBody tables zero r i = tt
  registers_ops-IsBody tables (suc left) r i =
      IsBody-append
        (register_ops sh r.get_type r.regs.mem (r.reg_index i)
          (regs_description_get_by_index tables (r.reg_index i % 2 ^ 32)))
        (registers_ops sh tables left r (i + 1))
        (register_ops-IsBody r.get_type r.regs.mem (r.reg_index i)
          (regs_description_get_by_index tables (r.reg_index i % 2 ^ 32)))
        (registers_ops-IsBody tables left r (i + 1))

  version_ops-IsBody : (left : ℕ) (m : Bytes) (i : ℕ) → IsBody (version_ops sh left m i)
  unfolding version_ops
  version_ops-IsBody zero m i = tt
  version_ops-IsBody (suc left) m i = (
    ends_full (decimal (m (sh.fw_version + i))) (b',' ∷ []) (omega arith),
    version_ops-IsBody left m (i + 1),
  )

  answer_ops-IsBody :
      (tables : List RegsTable) (q : Request) (r : Reading) → IsBody (answer_ops sh tables q r)
  unfolding answer_ops
  answer_ops-IsBody tables Request.os_param_request r = (
    omega arith,
    IsBody-append (version_ops sh 4 r.regs.mem 0) _ (version_ops-IsBody 4 r.regs.mem 0)
        (omega arith, tt),
  )
  answer_ops-IsBody tables Request.task_param_request r = tt
  answer_ops-IsBody tables Request.regs_request r = registers_ops-IsBody tables r.reg_num r 0
  answer_ops-IsBody tables Request.regs_num_request r = (omega arith, tt)
  answer_ops-IsBody tables Request.user_task_regs_num_request r = (omega arith, tt)
  answer_ops-IsBody tables Request.regs_set_request r = (omega arith, tt)
  answer_ops-IsBody tables Request.set_string r = (omega arith, tt)
  answer_ops-IsBody tables Request.none_request r = (omega arith, tt)

  -- The bounded text of an answer
  abbrev pub limited : Text → Text
  limited text = if ltb (length text) max_dinamic_json_file_len then text else too_large

-- A request that has no pairs
pub data NoRequest : Option Text → Type 0 where
  no_pack : NoRequest none
  no_pairs : (json_pack : Text) → json_parse json_pack ≡ some [] → NoRequest (some json_pack)

module _ (fl : Floats) (sh : Shown) (pf : Platform) (tables : List RegsTable) where
  -- What the pairs of the request come to, with the registers after their writes
  pub data Reads (s : State) : Option Text → Reading → Type 0 where
    reads :
        (json_pack : Text) (pairs : List Pair) (r : Reading)
        → json_parse json_pack ≡ some pairs
        → read_pairs fl pf tables pairs (no_reading s) ≡ some r
        → Reads s (some json_pack) r

  -- The outcome of a request: nothing without pairs; the writes but no answer while the file is in use;
  -- the writes, and the answer for what was read
  pub data Answers (s : State) (json_pack : Option Text) (is_free : Bool) : Outcome → Type 0 where
    no_request : NoRequest json_pack → Answers s json_pack is_free (s, none)
    file_in_use :
        (r : Reading)
        → Reads s json_pack r
        → is_free ≡ false
        → Answers s json_pack is_free (r.regs, none)
    answered :
        (r : Reading) (out : JsonOut)
        → Reads s json_pack r
        → is_free ≡ true
        → InBounds no_bytes r
        → IsFinished (limited sh (full_answer (answer_ops sh tables r.request r))) out
        → Answers s json_pack is_free (r.regs, some out)

  give_answer-Answers :
      (s : State) (json_pack : Option Text) (is_free : Bool) (databuf : Bytes) (r : Reading)
      → Reads s json_pack r
      → InBounds no_bytes r
      → Answers s json_pack is_free (give_answer fl sh pf tables is_free databuf r)
  unfolding give_answer
  give_answer-Answers s json_pack true databuf r read b = answered r _ read refl b (
      build_answer-IsFinished (answer_ops sh tables r.request r) databuf
        (answer_ops-IsBody sh tables r.request r))
  give_answer-Answers s json_pack false databuf r read b = file_in_use r read refl

  answer_pairs-Answers :
      (json_pack : Text) (pairs : List Pair) (is_free : Bool) (databuf : Bytes) (s : State)
      → json_parse json_pack ≡ some pairs
      → Each
          (Answers s (some json_pack) is_free)
          (answer_pairs fl sh pf tables pairs is_free databuf s)
  unfolding answer_pairs
  answer_pairs-Answers json_pack [] is_free databuf s parsed =
      no_request (no_pairs json_pack parsed)
  answer_pairs-Answers json_pack (pair ∷ pairs) is_free databuf s parsed =
      given (read_pairs fl pf tables (pair ∷ pairs) (no_reading s)) refl
        (read_pairs-InBounds fl pf tables (pair ∷ pairs) (no_reading s) (omega arith))
    where
      given :
          (o : Option Reading)
          → read_pairs fl pf tables (pair ∷ pairs) (no_reading s) ≡ o
          → Each (InBounds no_bytes) o
          → Each (Answers s (some json_pack) is_free) (elim o [
            | none ↦ none
            | some r ↦ some (give_answer fl sh pf tables is_free databuf r)
          ])
      given none e b = tt
      given (some r) e b =
          give_answer-Answers s (some json_pack) is_free databuf r
            (reads json_pack (pair ∷ pairs) r parsed e) b

  -- Whatever the request, its outcome, if it has one, is one of three. Without pairs nothing happens.
  -- While the answer's file is in use, the request's writes are made and no answer is given. Otherwise
  -- the writes are made and the answer is finished: less than 512 bytes with a NUL behind them, as the
  -- calls for the request that was read wrote them, or the error `response too large` in place of
  -- more. It shows the registers as they are after the writes. What was read is what the pairs of the
  -- request come to; it asks for ten registers at most, and no place behind the ten of `reg_index` is
  -- written.
  pub get_json_handle-Answers :
      (json_pack : Option Text) (is_free : Bool) (databuf : Bytes) (s : State)
      → Each
          (Answers s json_pack is_free)
          (get_json_handle fl sh pf tables json_pack is_free databuf s)
  unfolding get_json_handle
  get_json_handle-Answers none is_free databuf s = no_request no_pack
  get_json_handle-Answers (some json_pack) is_free databuf s =
      elim (Option-cases (json_parse json_pack)) [
        | inl gone ↦ rw (gone, Each, get_json_handle) tt
        | inr (pairs, at) ↦
            rw (at, Each, get_json_handle)
              (answer_pairs-Answers json_pack pairs is_free databuf s at)
      ]

  answer_pairs-SameRegs :
      (pairs : List Pair) (is_free : Bool) (databuf : Bytes) (s : State)
      → AllNames IsNoValue pairs
      → Each (SameRegs s) (answer_pairs fl sh pf tables pairs is_free databuf s)
  unfolding answer_pairs give_answer
  answer_pairs-SameRegs [] is_free databuf s names = refl
  answer_pairs-SameRegs (pair ∷ pairs) is_free databuf s names =
      answered (read_pairs fl pf tables (pair ∷ pairs) (no_reading s))
        (read_pairs-IsNoValue fl pf tables (pair ∷ pairs) (no_reading s) names)
    where
      answered :
          (o : Option Reading)
          → Each (λ r. r.regs ≡ s) o
          → Each (SameRegs s) (elim o [
            | none ↦ none
            | some r ↦ some (give_answer fl sh pf tables is_free databuf r)
          ])
      answered none e = tt
      answered (some r) e = if-holds (SameRegs s) is_free (λ _. e) λ _. e

  -- A request whose pairs, each without the quotes of its name, have none called `value` leaves the
  -- registers as they are, if it has an outcome.
  pub get_json_handle-IsNoValue :
      (json_pack : Text) (pairs : List Pair) (is_free : Bool) (databuf : Bytes) (s : State)
      → json_parse json_pack ≡ some pairs
      → AllNames IsNoValue pairs
      → Each (SameRegs s) (get_json_handle fl sh pf tables (some json_pack) is_free databuf s)
  unfolding get_json_handle
  get_json_handle-IsNoValue json_pack pairs is_free databuf s at names =
      rw (at, Each, get_json_handle) (answer_pairs-SameRegs pairs is_free databuf s names)
