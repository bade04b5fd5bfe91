-- ===== src/Json/Write.antt =====
-- A request that writes a register, from its text to the registers: `get_json_handle` of
-- main/http/json.c with `regs_set` of main/regs.c. Here are the request and what is to happen.
pub mod Items
pub mod Whole
use mathlib.Core.List.{append_assoc, append-nil}
use esp32_template.Base.{
  ℕ, zero, suc, ◌+◌, ◌*◌, ◌%◌, ◌^◌, ◌≤◌, ◌<◌, ◌≡◌, refl, sym, ap, ◌∙◌, arith, Bool, true, false,
  not, ◌&&◌, ◌||◌, Option, none, some, List, [], ◌∷◌, ◌++◌, leb, ◌==◌, Bool-cases, inl, inr,
  if◌then◌else◌, length,
}
use esp32_template.Base.Bytes.{Bytes, store}
use esp32_template.Description.{RegsFlag, regs_size_in_byte, RegsTemplate, RegsTable}
use esp32_template.Description.Lookup.{regs_description_get_by_index}
use esp32_template.Json.{JsonMsg, Pair, json_get_msg_type, scalar_type, last_or, json_parse}
use esp32_template.Json.Answer.{
  Shown, decimal, answer_ops, Outcome, no_reading, give_answer, answer_pairs, get_json_handle,
}
use esp32_template.Json.Decimal.{
  Ends, AllDigits, Starts, decimal-Starts, decimal-AllDigits, number_limit, atoi-decimal,
  json_get_elements-decimal,
}
use esp32_template.Json.Marks.{
  is_mark, Plain, Value, scalar, array, Entry, joined, print, as_pairs, AllPlain, PlainEntries,
  Lacks, Lacks-append, strchr-Lacks, strchr-Lacks-none,
}
use esp32_template.Json.Numbers.{
  Lacks-AllDigits, Plain-AllDigits, decimals, decimals-AllPlain, skip_while-Starts, AllBelow,
  Plain-all_plain, type_array, type_decimal, first_number,
}
use esp32_template.Json.Output.{append, JsonOut, build_answer}
use esp32_template.Json.Request.{
  request_of, GetType, Request, Reading, Floats, json_get_elements, opens, skip_while, set_item,
  set_items, write_value_pair, read_typed_index, read_index, read_pair, read_pairs,
}
use esp32_template.Json.RoundTrip.{pack, json_parse-pack}
use esp32_template.Json.Strings.{Text, codes, isdigit, strchr, strcmp_same, atoi}
use esp32_template.Mirror.{le_bytes}
use esp32_template.Platform.{Platform}
use esp32_template.Regs.{RegsAccess, no_bytes}
use esp32_template.Regs.Command.{State}
use esp32_template.Regs.Set.{regs_set}

-- The texts of the request, with the numbers as an array
abbrev pub index_entry : ℕ → Entry
index_entry i = record { name = codes "\"index\""; value = scalar (decimal i) }

abbrev pub value_entry : List ℕ → Entry
value_entry vs = record { name = codes "\"value\""; value = array (decimals vs) }

abbrev pub request_entry : Entry
request_entry = record { name = codes "\"request\""; value = scalar (codes "\"regs_set\"") }

abbrev pub regs_set_text : ℕ → List ℕ → Text
regs_set_text i vs = pack (request_entry ∷ index_entry i ∷ value_entry vs ∷ [])

-- A reading of a request to write
abbrev pub setting : Bytes → State → Reading
setting reg_index s = record {
  request = Request.regs_set_request;
  get_type = GetType.get_none;
  reg_num = 0;
  reg_index = reg_index;
  regs = s;
}

abbrev pub index_pair : ℕ → Pair
index_pair i = record { param = codes "\"index\""; value = decimal i }

abbrev pub value_pair : List ℕ → Pair
value_pair vs = record {
  param = codes "\"value\"";
  value = b'[' ∷ (joined b';' (decimals vs) ++ b']' ∷ []);
}

abbrev pub request_pair : Pair
request_pair = record { param = codes "\"request\""; value = codes "\"regs_set\"" }

-- The answer to a write
abbrev pub done : Bool → Bytes → Option JsonOut
done is_free databuf =
    if is_free then some (build_answer (append (codes "\"status\":\"ok\",") ∷ []) databuf) else none

module _ (pf : Platform) (tables : List RegsTable) where
  -- One item after the other is written with its number.
  abbrev pub write_items : RegsTemplate → List ℕ → ℕ → State → State
  write_items t [] j s = s
  write_items t (v ∷ vs) j s =
      write_items t vs (j + 1)
        (regs_set pf tables s (t.desc.p_value + regs_size_in_byte t.desc.type * j)
          (record { flag = t.desc.type; value = store no_bytes 0 (le_bytes 8 v) })).1
