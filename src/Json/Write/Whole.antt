-- ===== src/Json/Write/Whole.antt =====
-- The request is read, and its numbers are written.
use mathlib.Core.List.{append-nil}
use esp32_template.Base.{
  ◌%◌, ◌^◌, ℕ, ◌%◌, ◌^◌, ◌≤◌, ◌<◌, ◌≡◌, refl, ap, ◌∙◌, arith, Bool, true, false, some, List, [],
  ◌∷◌, ◌++◌, length,
}
use esp32_template.Base.Bytes.{Bytes, store}
use esp32_template.Description.{RegsTemplate, RegsTable}
use esp32_template.Description.Lookup.{regs_description_get_by_index}
use esp32_template.Json.{JsonMsg, Pair, json_get_msg_type, scalar_type, json_parse}
use esp32_template.Json.Answer.{
  Shown, decimal, answer_ops, no_reading, give_answer, answer_pairs, get_json_handle,
}
use esp32_template.Json.Decimal.{decimal-Starts, decimal-AllDigits, number_limit, atoi-decimal}
use esp32_template.Json.Marks.{is_mark, joined, as_pairs}
use esp32_template.Json.Numbers.{
  Plain-AllDigits, decimals, decimals-AllPlain, skip_while-Starts, AllBelow, Plain-all_plain,
  type_array, type_decimal, first_number,
}
use esp32_template.Json.Request.{
  request_of, Reading, Floats, opens, skip_while, write_value_pair, read_typed_index, read_index,
  read_pair, read_pairs,
}
use esp32_template.Json.RoundTrip.{json_parse-pack}
use esp32_template.Json.Strings.{Text, codes, strchr, strcmp_same, atoi}
use esp32_template.Platform.{Platform}
use esp32_template.Regs.{no_bytes}
use esp32_template.Regs.Command.{State}
use esp32_template.Json.Write.{
  index_entry, value_entry, request_entry, regs_set_text, setting, index_pair, value_pair,
  request_pair, done, write_items,
}
use esp32_template.Json.Write.Items.{set_items-decimals}

parsed :
    (i : ℕ) (vs : List ℕ)
    → json_parse (regs_set_text i vs)
      ≡ some (as_pairs (request_entry ∷ index_entry i ∷ value_entry vs ∷ []))
unfolding is_mark
parsed i vs =
    json_parse-pack request_entry (index_entry i ∷ value_entry vs ∷ [])
      (
        Plain-all_plain (codes "\"request\"") refl,
        Plain-all_plain (codes "\"regs_set\"") refl,
        (
          Plain-all_plain (codes "\"index\"") refl,
          Plain-AllDigits (decimal i) (decimal-AllDigits i),
          (Plain-all_plain (codes "\"value\"") refl, decimals-AllPlain vs, tt),
        ),
      )
      (omega arith)

decimal_index : (i : ℕ) → i < 2 ^ 16 → atoi (decimal i) % 2 ^ 16 ≡ i
decimal_index i h =
    let bare = append-nil (decimal i) in
    let read : atoi (decimal i) ≡ i = rw bare at (atoi-decimal i [] (omega arith) tt) in
    rw read (omega arith)

module _ (fl : Floats) (pf : Platform) (tables : List RegsTable) where
  -- One pair of the loop that is read without ending it
  read_pairs_step :
      (pair : Pair) (pairs : List Pair) (param value : Text) (type type' : JsonMsg) (r r' : Reading)
      → json_get_msg_type pair.param ≡ some (param, type)
      → json_get_msg_type pair.value ≡ some (value, type')
      → read_pair fl pf tables param value r ≡ some (true, r')
      → read_pairs fl pf tables (pair ∷ pairs) r ≡ read_pairs fl pf tables pairs r'
  unfolding read_pairs
  read_pairs_step pair pairs param value type type' r r' named valued read =
      rw (named, valued, read, read_pairs) refl

  read_request :
      (s : State)
      → read_pair fl pf tables (codes "request") (codes "regs_set") (no_reading s)
        ≡ some (true, setting no_bytes s)
  unfolding read_pair request_of strcmp_same
  read_request s = refl

  read_decimal_index :
      (i : ℕ) (reg_index : Bytes) (s : State)
      → i < 2 ^ 16
      → read_pair fl pf tables (codes "index") (decimal i) (setting reg_index s)
        ≡ some (true, setting (store reg_index 0 (i ∷ [])) s)
  unfolding read_pair strcmp_same read_index read_typed_index
  read_decimal_index i reg_index s h =
      let type = type_decimal i in
      let number = decimal_index i h in rw (type, number, read_pair, read_index) refl

  read_value :
      (t : RegsTemplate) (v : ℕ) (vs : List ℕ) (reg_index : Bytes) (s : State)
      → regs_description_get_by_index tables (reg_index 0 % 2 ^ 32) ≡ some t
      → AllBelow (number_limit t.desc.type) (v ∷ vs)
      → length (v ∷ vs) ≤ t.desc.size
      → read_pair fl pf tables
          (codes "value")
          (b'[' ∷ (joined b';' (decimals (v ∷ vs)) ++ b']' ∷ []))
          (setting reg_index s)
        ≡ some (true, setting reg_index (write_items pf tables t (v ∷ vs) 0 s))
  unfolding read_pair strcmp_same write_value_pair
  read_value t v vs reg_index s at p h =
      let text = joined b';' (decimals (v ∷ vs)) ++ b']' ∷ [] in
      let (tail, cut) = first_number v vs in
      let stays : skip_while opens (b'[' ∷ text) ≡ text =
        unfold skip_while in
        rw cut
          (skip_while-Starts opens (decimal v) tail (λ c d. ground arith) (decimal-Starts v)) in
      let items = set_items-decimals fl pf tables v vs t.desc.size t 0 s p h in
      rw (at, stays, items, read_pair, write_value_pair) refl

  read_regs_set :
      (t : RegsTemplate) (i v : ℕ) (vs : List ℕ) (s : State)
      → i < 2 ^ 16
      → regs_description_get_by_index tables i ≡ some t
      → AllBelow (number_limit t.desc.type) (v ∷ vs)
      → length (v ∷ vs) ≤ t.desc.size
      → read_pairs fl pf tables
          (request_pair ∷ index_pair i ∷ value_pair (v ∷ vs) ∷ [])
          (no_reading s)
        ≡ some (setting (store no_bytes 0 (i ∷ [])) (write_items pf tables t (v ∷ vs) 0 s))
  unfolding json_get_msg_type strchr scalar_type read_pairs store
  read_regs_set t i v vs s h at p few =
      let small : i % 2 ^ 32 ≡ i = omega arith in
      let indexed = store no_bytes 0 (i ∷ []) in
      read_pairs_step request_pair (index_pair i ∷ value_pair (v ∷ vs) ∷ []) (codes "request")
        (codes "regs_set") JsonMsg.text_json JsonMsg.text_json (no_reading s) (setting no_bytes s)
        refl refl (read_request s)
      ∙ read_pairs_step (index_pair i) (value_pair (v ∷ vs) ∷ []) (codes "index") (decimal i)
          JsonMsg.text_json JsonMsg.number_json (setting no_bytes s) (setting indexed s) refl
          (type_decimal i) (read_decimal_index i no_bytes s h)
      ∙ read_pairs_step (value_pair (v ∷ vs)) [] (codes "value") (value_pair (v ∷ vs)).value
          JsonMsg.text_json JsonMsg.array_json (setting indexed s)
          (setting indexed (write_items pf tables t (v ∷ vs) 0 s)) refl
          (type_array (joined b';' (decimals (v ∷ vs))))
          (read_value t v vs indexed s (ap (regs_description_get_by_index tables) small ∙ at) p few)

module _ (fl : Floats) (sh : Shown) (pf : Platform) (tables : List RegsTable) where
  get_json_handle-parsed :
      (json_pack : Text) (pairs : List Pair) (is_free : Bool) (databuf : Bytes) (s : State)
      → json_parse json_pack ≡ some pairs
      → get_json_handle fl sh pf tables (some json_pack) is_free databuf s
        ≡ answer_pairs fl sh pf tables pairs is_free databuf s
  unfolding get_json_handle
  get_json_handle-parsed json_pack pairs is_free databuf s e = rw (e, get_json_handle) refl

  answer_pairs-read :
      (pair : Pair) (pairs : List Pair) (is_free : Bool) (databuf : Bytes) (s : State) (r : Reading)
      → read_pairs fl pf tables (pair ∷ pairs) (no_reading s) ≡ some r
      → answer_pairs fl sh pf tables (pair ∷ pairs) is_free databuf s
        ≡ some (give_answer fl sh pf tables is_free databuf r)
  unfolding answer_pairs
  answer_pairs-read pair pairs is_free databuf s r e = rw (e, answer_pairs) refl

  give_answer-setting :
      (is_free : Bool) (databuf reg_index : Bytes) (s : State)
      → give_answer fl sh pf tables is_free databuf (setting reg_index s)
        ≡ (s, done is_free databuf)
  unfolding give_answer answer_ops
  give_answer-setting true databuf reg_index s = refl
  give_answer-setting false databuf reg_index s = refl

  -- A request `regs_set` with the index of a register, below 2^16, and an array of decimal numbers, at
  -- least one and no more than the register has items, of an integer type and in the range of that
  -- type's conversion, writes each number to its item with `regs_set`, in order, and does nothing else.
  -- The answer, if the file is free, is the status `ok`.
  pub get_json_handle-regs_set :
      (t : RegsTemplate) (i v : ℕ) (vs : List ℕ) (is_free : Bool) (databuf : Bytes) (s : State)
      → i < 2 ^ 16
      → regs_description_get_by_index tables i ≡ some t
      → AllBelow (number_limit t.desc.type) (v ∷ vs)
      → length (v ∷ vs) ≤ t.desc.size
      → get_json_handle fl sh pf tables (some (regs_set_text i (v ∷ vs))) is_free databuf s
        ≡ some (write_items pf tables t (v ∷ vs) 0 s, done is_free databuf)
  get_json_handle-regs_set t i v vs is_free databuf s h at p few =
      let written = write_items pf tables t (v ∷ vs) 0 s in
      let indexed = store no_bytes 0 (i ∷ []) in
      get_json_handle-parsed _ _ is_free databuf s (parsed i (v ∷ vs))
      ∙ answer_pairs-read (request_pair) (index_pair i ∷ value_pair (v ∷ vs) ∷ []) is_free databuf s
          (setting indexed written) (read_regs_set fl pf tables t i v vs s h at p few)
      ∙ ap some (give_answer-setting is_free databuf indexed written)
