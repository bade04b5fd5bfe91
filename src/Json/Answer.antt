-- ===== src/Json/Answer.antt =====
-- What `get_json_handle` of main/http/json.c answers.
pub mod Finished
use esp32_template.Base.{
  ℕ, zero, suc, ◌+◌, ◌-◌, ◌*◌, ◌/◌, ◌%◌, ◌^◌, Bool, true, false, Option, none, some, List, [], ◌∷◌,
  ◌++◌, ltb, ◌==◌, if◌then◌else◌,
}
use esp32_template.Base.Bytes.{Bytes}
use esp32_template.Description.{
  RegsFlag, regs_size_in_byte, RegsDescription, RegsTemplate, RegsTable, rd_mdb_address,
  rd_mdb_function,
}
use esp32_template.Description.Lookup.{regs_description_get_by_index}
use esp32_template.Json.{Pair, json_parse}
use esp32_template.Json.Output.{JsonOut, Op, append, replace_last, build_answer}
use esp32_template.Json.Request.{Request, GetType, Reading, Floats, read_pairs}
use esp32_template.Json.Strings.{Text, codes}
use esp32_template.Mirror.{read_value}
use esp32_template.Platform.{Platform}
use esp32_template.Regs.{no_bytes}
use esp32_template.Regs.Command.{State}

-- The last digits of `n`, at most `places`, in front of `out`
unfoldable pub digits_loop : ℕ → ℕ → Text → Text
digits_loop zero n out = out
digits_loop (suc places) n out =
    let rest = digits_loop places (n / 10) ((b'0' + n % 10) ∷ out) in
    if n / 10 == 0 then (b'0' + n % 10) ∷ out else rest

-- `%u` and `%llu`: a number of 64 bits has at most 20 digits.
unfoldable pub decimal : ℕ → Text
unfolding digits_loop
decimal n = digits_loop 20 n []

-- `%d`, `%i`, `%li` and `%lli` for a number of `w` bits
unfoldable pub signed_decimal : ℕ → ℕ → Text
unfolding decimal
signed_decimal w n = if ltb n (2 ^ (w - 1)) then decimal n else b'-' ∷ decimal (2 ^ w - n)

-- What the answer takes from outside: `%f` of the bit patterns, whether they are numbers, the text
-- about a register that its description has for the user, the number of a type that is none, and where the variables of
-- `regs_global->vars` stand.
pub record Shown : Type 0 where
  pub float_text : ℕ → Text
  pub double_text : ℕ → Text
  pub float_is_number : ℕ → Bool
  pub double_is_number : ℕ → Bool
  pub description : RegsDescription → Text
  pub other_type : ℕ
  pub fw_version : ℕ
  pub num_of_vars : ℕ
  pub user_task_num_of_vars : ℕ

-- `regs_flag_t`
abbrev type_number : ℕ → RegsFlag → ℕ
type_number other RegsFlag.u8_regs_flag = 2 ^ 0
type_number other RegsFlag.u16_regs_flag = 2 ^ 1
type_number other RegsFlag.u32_regs_flag = 2 ^ 2
type_number other RegsFlag.u64_regs_flag = 2 ^ 3
type_number other RegsFlag.i8_regs_flag = 2 ^ 4
type_number other RegsFlag.s16_regs_flag = 2 ^ 5
type_number other RegsFlag.s32_regs_flag = 2 ^ 6
type_number other RegsFlag.s64_regs_flag = 2 ^ 7
type_number other RegsFlag.float_regs_flag = 2 ^ 8
type_number other RegsFlag.double_regs_flag = 2 ^ 9
type_number other RegsFlag.int_regs_flag = 2 ^ 10
type_number other RegsFlag.time_regs_flag = 2 ^ 11
type_number other RegsFlag.no_flag = other

abbrev is_full : GetType → Bool
is_full GetType.get_full = true
is_full _ = false

abbrev in_quotes : Text → Text
in_quotes s = b'"' ∷ s ++ b'"' ∷ []

abbrev comma : Text
comma = b',' ∷ []

module _ (sh : Shown) where
  -- A value that is no number stands in quotes.
  unfoldable pub value_text : RegsFlag → ℕ → Option Text
  unfolding decimal signed_decimal
  value_text RegsFlag.i8_regs_flag v = some (signed_decimal 8 v)
  value_text RegsFlag.s16_regs_flag v = some (signed_decimal 16 v)
  value_text RegsFlag.s32_regs_flag v = some (signed_decimal 32 v)
  value_text RegsFlag.int_regs_flag v = some (signed_decimal 32 v)
  value_text RegsFlag.s64_regs_flag v = some (signed_decimal 64 v)
  value_text RegsFlag.float_regs_flag v =
      some (if sh.float_is_number v then sh.float_text v else in_quotes (sh.float_text v))
  value_text RegsFlag.double_regs_flag v =
      some (if sh.double_is_number v then sh.double_text v else in_quotes (sh.double_text v))
  value_text RegsFlag.no_flag v = none
  value_text _ v = some (decimal v)

  -- One item of a register; a type that is none writes nothing.
  unfoldable pub item_ops : RegsFlag → ℕ → List Op
  item_ops type v = elim (value_text type v) [ none ↦ [] | some text ↦ append (text ++ comma) ∷ [] ]

  -- The items from `i` on
  unfoldable pub items_ops : ℕ → RegsTemplate → Bytes → ℕ → List Op
  items_ops zero t m i = []
  items_ops (suc left) t m i =
      let n = regs_size_in_byte t.desc.type in
      item_ops t.desc.type (read_value m (t.desc.p_value + i * n) n) ++ items_ops left t m (i + 1)

  -- `add_lwip_stats` adds nothing and returns 0.
  unfoldable pub register_value_ops : RegsTemplate → Bytes → List Op
  register_value_ops t m =
      if ltb 1 t.desc.size
      then append (codes "[") ∷ items_ops t.desc.size t m 0 ++ replace_last b']' ∷ append comma ∷ []
      else items_ops t.desc.size t m 0

  unfoldable pub full_ops : RegsTemplate → List Op
  unfolding decimal signed_decimal
  full_ops t =
      append (
        codes " \"name\" :\""
        ++ t.desc.name
        ++ codes "\", \"type\" :"
        ++ decimal (type_number sh.other_type t.desc.type)
        ++ codes ", \"byte_address\" :"
        ++ signed_decimal 32 t.desc.guid
        ++ codes ", \"flags\" :"
        ++ decimal t.desc.property
        ++ comma)
      ∷ append (
          codes " \"description\" :\""
          ++ sh.description t.desc
          ++ codes "\", \"modbus_function\" :"
          ++ decimal (rd_mdb_function t.desc.modbus_description)
          ++ codes ", \"modbus_address\" :"
          ++ decimal (rd_mdb_address t.desc.modbus_description)
          ++ comma)
      ∷ []

  unfoldable pub register_ops : GetType → Bytes → ℕ → Option RegsTemplate → List Op
  register_ops get_type m index none =
      append (codes " \"index\" :" ++ signed_decimal 32 (index % 2 ^ 32) ++ comma)
      ∷ append (codes " \"value\" :")
      ∷ []
  register_ops get_type m index (some t) =
      append (codes " \"index\" :" ++ signed_decimal 32 (index % 2 ^ 32) ++ comma)
        ∷ (if is_full get_type then full_ops t else [])
      ++ append (codes " \"value\" :") ∷ register_value_ops t m

  -- The registers asked for, from place `i` on
  unfoldable pub registers_ops : List RegsTable → ℕ → Reading → ℕ → List Op
  registers_ops tables zero r i = []
  registers_ops tables (suc left) r i =
      register_ops r.get_type r.regs.mem (r.reg_index i)
        (regs_description_get_by_index tables (r.reg_index i % 2 ^ 32))
      ++ registers_ops tables left r (i + 1)

  -- The bytes of `fw_version` from place `i` on
  unfoldable pub version_ops : ℕ → Bytes → ℕ → List Op
  unfolding decimal
  version_ops zero m i = []
  version_ops (suc left) m i =
      append (decimal (m (sh.fw_version + i)) ++ comma) ∷ version_ops left m (i + 1)

  -- The `switch (request)`
  unfoldable pub answer_ops : List RegsTable → Request → Reading → List Op
  answer_ops tables Request.os_param_request r =
      append (codes "\"current\":0,\"main\":0,\"os_ver\":[") ∷ version_ops 4 r.regs.mem 0
      ++ replace_last b']' ∷ append comma ∷ []
  answer_ops tables Request.task_param_request r = []
  answer_ops tables Request.regs_request r = registers_ops tables r.reg_num r 0
  answer_ops tables Request.regs_num_request r =
      append (codes "\"regs_num\":" ++ decimal (read_value r.regs.mem sh.num_of_vars 2) ++ comma)
      ∷ []
  answer_ops tables Request.user_task_regs_num_request r =
      append (
        codes "\"user_task_regs_num\":"
        ++ decimal (read_value r.regs.mem sh.user_task_num_of_vars 2)
        ++ comma)
      ∷ []
  answer_ops tables Request.regs_set_request r = append (codes "\"status\":\"ok\",") ∷ []
  answer_ops tables Request.set_string r = append (codes "\"status\":\"ok\",") ∷ []
  answer_ops tables Request.none_request r =
      append (codes "\"error\":\"invalid request value\",") ∷ []

-- The registers afterwards, and the answer's file, for `json_request`, or NULL
abbrev pub Outcome : Type 0
Outcome = State × Option JsonOut

abbrev pub no_reading : State → Reading
no_reading s = record {
  request = Request.none_request;
  get_type = GetType.get_none;
  reg_num = 0;
  reg_index = no_bytes;
  regs = s;
}

module _ (fl : Floats) (sh : Shown) (pf : Platform) (tables : List RegsTable) where
  -- `is_free` tells whether the file is free before the time is up.
  unfoldable pub give_answer : Bool → Bytes → Reading → Outcome
  give_answer is_free databuf r =
      if is_free
      then (r.regs, some (build_answer (answer_ops sh tables r.request r) databuf))
      else (r.regs, none)

  unfoldable pub answer_pairs : List Pair → Bool → Bytes → State → Option Outcome
  answer_pairs [] is_free databuf s = some (s, none)
  answer_pairs (pair ∷ pairs) is_free databuf s =
      elim (read_pairs fl pf tables (pair ∷ pairs) (no_reading s)) [
        | none ↦ none
        | some r ↦ some (give_answer is_free databuf r)
      ]

  unfoldable pub get_json_handle : Option Text → Bool → Bytes → State → Option Outcome
  get_json_handle none is_free databuf s = some (s, none)
  get_json_handle (some json_pack) is_free databuf s = elim (json_parse json_pack) [
    | none ↦ none
    | some pairs ↦ answer_pairs pairs is_free databuf s
  ]
