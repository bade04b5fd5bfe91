-- ===== src/Tests/Requests.antt =====
-- Requests in JSON: main/http/json.c.
use esp32_template.Base.{
  ℕ, zero, suc, ◌<◌, ◌≡◌, refl, arith, true, none, some, [], ◌∷◌, ◌++◌, ◌==◌, if◌then◌else◌,
}
use esp32_template.Base.Bytes.{store}
use esp32_template.Description.{RegsTemplate}
use esp32_template.Description.Lookup.{
  regs_description_get_by_index, regs_description_get_index_by_name,
}
use esp32_template.Json.{
  Pair, find_header, extract_json_pack, json_parse, json_get_msg_type, parse_loop, strip_brace,
  mark_array,
}
use esp32_template.Json.Answer.{no_reading, Shown, get_json_handle}
use esp32_template.Json.Answer.Finished.{
  Answers, SameRegs, get_json_handle-Answers, get_json_handle-IsNoValue,
}
use esp32_template.Json.Marks.{scalar, array, Entry, print, as_pairs, is_mark}
use esp32_template.Json.Output.{json_header}
use esp32_template.Json.Output.Bounded.{full_answer}
use esp32_template.Json.Request.{Floats, read_name}
use esp32_template.Json.Request.Steps.{Each}
use esp32_template.Json.RoundTrip.{header, pack, NotYet, json_parse-extract_json_pack}
use esp32_template.Json.Strings.{Text, codes, strchr, strstr, begins_with, strcmp_same}
use esp32_template.Json.Write.{regs_set_text, write_items, done}
use esp32_template.Json.Write.Whole.{get_json_handle-regs_set}
use esp32_template.Tests.Registers.{word_register, tables, platform, memory, state}

abbrev first_entry : Entry
first_entry = record { name = codes "a"; value = scalar (codes "1") }

abbrev second_entry : Entry
second_entry = record { name = codes "b"; value = array (codes "2" ∷ codes "3" ∷ []) }

abbrev front : Text
front = codes "J, "

abbrev back : Text
back = codes "."

abbrev headers : ℕ → Text
headers i =
    if i == 1 then front ++ header (print (first_entry ∷ second_entry ∷ [])) back else codes "GET"

others : (j : ℕ) → j < 1 → find_header (headers j) ≡ none
unfolding find_header strstr begins_with
others zero h = refl
others (suc j) h = absurd (omega arith)

front-NotYet : NotYet (header (print (first_entry ∷ second_entry ∷ [])) back) front
unfolding begins_with
front-NotYet = (refl, (refl, (refl, tt)))

json_parse-extract_json_pack_example :
    extract_json_pack headers ≡ some (pack (first_entry ∷ second_entry ∷ []))
    × json_parse (pack (first_entry ∷ second_entry ∷ []))
      ≡ some (as_pairs (first_entry ∷ second_entry ∷ []))
unfolding is_mark
json_parse-extract_json_pack_example =
    json_parse-extract_json_pack first_entry (second_entry ∷ []) headers 1 front back
      ((refl, tt), (refl, tt), ((refl, tt), ((refl, tt), ((refl, tt), tt)), tt)) (omega arith)
      (omega arith) others refl front-NotYet

-- No float is read or shown here.
abbrev floats : Floats
floats = record { strtod = λ text. 0; strtod_float = λ text. 0 }

abbrev shown : Shown
shown = record {
  float_text = λ v. [];
  double_text = λ v. [];
  float_is_number = λ v. true;
  double_is_number = λ v. true;
  description = λ r. [];
  other_type = 0;
  fw_version = 900;
  num_of_vars = 904;
  user_task_num_of_vars = 906;
}

abbrev ask_number : Text
ask_number = codes "{\"request\":\"regs_num\"}"

abbrev number_pair : Pair
number_pair = record { param = codes "\"request\""; value = codes "\"regs_num\"" }

get_json_handle-Answers_example :
    Each
      (Answers floats shown platform tables state (some ask_number) true)
      (get_json_handle floats shown platform tables (some ask_number) true memory state)
get_json_handle-Answers_example =
    get_json_handle-Answers floats shown platform tables (some ask_number) true memory state

ask_number_parsed : json_parse ask_number ≡ some (number_pair ∷ [])
unfolding json_parse strip_brace parse_loop mark_array strchr
ask_number_parsed = refl

get_json_handle-IsNoValue_example :
    Each
      (SameRegs state)
      (get_json_handle floats shown platform tables (some ask_number) true memory state)
unfolding json_get_msg_type strcmp_same strchr
get_json_handle-IsNoValue_example =
    get_json_handle-IsNoValue floats shown platform tables ask_number (number_pair ∷ []) true memory
      state ask_number_parsed (refl, tt)

abbrev template : RegsTemplate
template = record { desc = word_register 100 0 2 0; size_in_bytes = 4; table_ind = 0 }

found_at_zero : regs_description_get_by_index tables 0 ≡ some template
unfolding regs_description_get_by_index
found_at_zero = refl

get_json_handle-regs_set_example :
    get_json_handle floats shown platform tables
      (some (regs_set_text 0 (5 ∷ 6 ∷ [])))
      true
      memory
      state
    ≡ some (write_items platform tables template (5 ∷ 6 ∷ []) 0 state, done true memory)
get_json_handle-regs_set_example =
    get_json_handle-regs_set floats shown platform tables template 0 5 (6 ∷ []) true memory state
      (omega arith) found_at_zero (omega arith, (omega arith, tt)) (omega arith)

-- The loop on an array without `]` leaves the string.
unclosed_array : json_parse (codes "{a:[1,2}") ≡ none
unfolding json_parse strip_brace parse_loop mark_array strchr
unclosed_array = refl

-- An answer without a text ends with a brace that none opens.
empty_answer : full_answer [] ≡ json_header ++ codes "}"
empty_answer = refl

-- A name that no register has stands for the first register.
unknown_name : (read_name floats platform tables (codes "none") (no_reading state)).reg_index 0 ≡ 0
unfolding read_name regs_description_get_index_by_name store
unknown_name = refl
