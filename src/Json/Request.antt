-- ===== src/Json/Request.antt =====
-- How `get_json_handle` of main/http/json.c reads the pairs of a request, and writes registers.
pub mod Steps
pub mod Kept
use esp32_template.Base.{
  ℕ, zero, suc, ◌+◌, ◌-◌, ◌*◌, ◌%◌, ◌^◌, Bool, true, false, ◌&&◌, ◌||◌, Option, none, some, List,
  [], ◌∷◌, ◌++◌, ltb, leb, ◌==◌, if◌then◌else◌,
}
use esp32_template.Base.Bytes.{Bytes, store}
use esp32_template.Description.{RegsFlag, regs_size_in_byte, RegsTemplate, RegsTable}
use esp32_template.Description.Lookup.{
  regs_description_get_by_index, regs_description_get_index_by_name,
}
use esp32_template.Json.{
  Pair, JsonMsg, json_get_msg_type, json_get_array_elem_nmb, json_get_array_elements,
}
use esp32_template.Json.Strings.{Text, codes, strchr, strcmp_same, atoi, strtoll, strtoul, strtoull}
use esp32_template.Mirror.{le_bytes}
use esp32_template.Platform.{Platform}
use esp32_template.Regs.{no_bytes}
use esp32_template.Regs.Command.{State, zeros}
use esp32_template.Regs.Set.{regs_set, regs_set_buffer}

-- `request_t`, but for the requests that no text asks for
pub data Request : Type 0 where
  none_request os_param_request task_param_request regs_request : Request
  regs_num_request regs_set_request set_string user_task_regs_num_request : Request

-- `get_t`
pub data GetType : Type 0 where
  get_none get_full get_value : GetType

-- `MAX_REGS_REQUEST_NUM`
abbrev pub max_regs_request_num : ℕ
max_regs_request_num = 10

-- The variables of `get_json_handle`, and the registers
pub record Reading : Type 0 where
  pub request : Request
  pub get_type : GetType
  pub reg_num : ℕ
  pub reg_index : Bytes
  pub regs : State

-- `strtod`, and its result as a `float`, as bit patterns
pub record Floats : Type 0 where
  pub strtod : Text → ℕ
  pub strtod_float : Text → ℕ

abbrev is : Text → Text → Bool
is text word = strcmp_same text word

-- An unknown word leaves the request as it was.
unfoldable pub request_of : Text → Request → Request
unfolding strcmp_same
request_of value old =
    if is value (codes "os_param")
    then Request.os_param_request
    else if is value (codes "task_param")
    then Request.task_param_request
    else if is value (codes "regs_num")
    then Request.regs_num_request
    else if is value (codes "user_task_regs_num")
    then Request.user_task_regs_num_request
    else if is value (codes "regs_set")
    then Request.regs_set_request
    else if is value (codes "regs")
    then Request.regs_request
    else if is value (codes "set_string")
    then Request.set_string
    else old

unfoldable pub get_type_of : Text → GetType → GetType
unfolding strcmp_same
get_type_of value old =
    if is value (codes "full")
    then GetType.get_full
    else if is value (codes "only_value")
    then GetType.get_value
    else old

-- `request == REGS_REQUEST || request == REGS_SET_REQUEST`
abbrev pub names_regs : Request → Bool
names_regs Request.regs_request = true
names_regs Request.regs_set_request = true
names_regs _ = false

abbrev pub is_set_string : Request → Bool
is_set_string Request.set_string = true
is_set_string _ = false

unfoldable pub reg_num_of : Text → ℕ
reg_num_of value =
    let reg_num = atoi value % 256 in
    if ltb max_regs_request_num reg_num then max_regs_request_num else reg_num

-- The bytes in front of the first quote, 64 at most
unfoldable pub up_to_quote : ℕ → Text → Text
up_to_quote zero s = []
up_to_quote (suc room) [] = []
up_to_quote (suc room) (c ∷ s) = let rest = up_to_quote room s in if c == b'"' then [] else c ∷ rest

unfoldable pub skip_while : (ℕ → Bool) → Text → Text
skip_while p [] = []
skip_while p (c ∷ s) = let rest = skip_while p s in if p c then rest else c ∷ s

abbrev is_quote : ℕ → Bool
is_quote c = c == b'"'

abbrev pub opens : ℕ → Bool
opens c = (c == b'"') || (c == b'[')

-- The first `n` bytes of a text with zeros behind it
unfoldable pub padded : ℕ → Text → Text
padded zero s = []
padded (suc n) [] = 0 ∷ padded n []
padded (suc n) (c ∷ s) = c ∷ padded n s

module _ (fl : Floats) where
  -- The operand's number: `value` has eight bytes, and a type with fewer leaves the others 0.
  unfoldable pub json_get_elements : Text → RegsFlag → ℕ
  json_get_elements str_value RegsFlag.i8_regs_flag = strtoll str_value
  json_get_elements str_value RegsFlag.s16_regs_flag = strtoll str_value
  json_get_elements str_value RegsFlag.s32_regs_flag = strtoll str_value
  json_get_elements str_value RegsFlag.s64_regs_flag = strtoll str_value
  json_get_elements str_value RegsFlag.int_regs_flag = strtoll str_value
  json_get_elements str_value RegsFlag.u8_regs_flag = strtoul str_value
  json_get_elements str_value RegsFlag.u16_regs_flag = strtoul str_value
  json_get_elements str_value RegsFlag.u32_regs_flag = strtoul str_value
  json_get_elements str_value RegsFlag.time_regs_flag = strtoul str_value
  json_get_elements str_value RegsFlag.u64_regs_flag = strtoull str_value
  json_get_elements str_value RegsFlag.float_regs_flag = fl.strtod_float str_value
  json_get_elements str_value RegsFlag.double_regs_flag = fl.strtod str_value
  json_get_elements str_value RegsFlag.no_flag = 0

-- The loop goes on.
abbrev pub go_on : Option Reading → Option (Bool × Reading)
go_on none = none
go_on (some r) = some (true, r)

module _ (fl : Floats) (pf : Platform) (tables : List RegsTable) where
  -- The element as one access at the `j`th item; its result is not used.
  unfoldable pub set_item : RegsTemplate → Text → ℕ → State → State
  set_item t element j s =
      (regs_set pf tables s (t.desc.p_value + regs_size_in_byte t.desc.type * j) (record {
        flag = t.desc.type;
        value = store no_bytes 0 (le_bytes 8 (json_get_elements fl element t.desc.type));
      })).1

  -- The items from `j` on, as long as a `;` follows
  unfoldable pub set_items : ℕ → RegsTemplate → Text → ℕ → State → State
  unfolding set_item
  set_items zero t element j s = s
  set_items (suc left) t element j s =
      let s' = set_item t element j s in
      elim (strchr b';' element) [
        | none ↦ s'
        | some (_, next) ↦ set_items left t (skip_while (λ c. c == b' ') next) (j + 1) s'
      ]

  -- `none` where more than the 64 bytes of `temp_buff` are asked for
  unfoldable pub write_string : RegsTemplate → Text → State → Option State
  write_string t value s =
      let temp_buff = padded 64 (up_to_quote 64 (skip_while is_quote value)) in
      if ltb 64 t.size_in_bytes
      then none
      else some (regs_set_buffer pf tables s t.desc.p_value (padded t.size_in_bytes temp_buff)).1

  -- The pair `value`; the index is passed on as a `u32`. Without such a register nothing is written.
  unfoldable pub write_value_pair : Text → Reading → Option Reading
  unfolding set_items write_string
  write_value_pair value r = elim (regs_description_get_by_index tables (r.reg_index 0 % 2 ^ 32)) [
    | none ↦ some r
    | some t ↦
        if is_set_string r.request
        then (elim (write_string t value r.regs) [
          | none ↦ none
          | some s ↦ some (record r { regs = s })
        ])
        else some (record r { regs = set_items t.desc.size t (skip_while opens value) 0 r.regs })
  ]

  -- A number, or as many numbers as asked for; for another count the loop ends, as the flag says.
  unfoldable pub read_typed_index : Text → JsonMsg → Reading → Option (Bool × Reading)
  read_typed_index text JsonMsg.number_json r =
      some (true, record r { reg_index = store r.reg_index 0 (atoi text % 2 ^ 16 ∷ []) })
  read_typed_index text JsonMsg.array_json r =
      if r.reg_num == json_get_array_elem_nmb text
      then (elim (json_get_array_elements text r.reg_num) [
        | none ↦ none
        | some elements ↦ some (true, record r { reg_index = store r.reg_index 0 elements })
      ])
      else some (false, r)
  read_typed_index text _ r = some (true, r)

  -- The pair `index`
  unfoldable pub read_index : Text → Reading → Option (Bool × Reading)
  read_index value r = elim (json_get_msg_type value) [
    | none ↦ none
    | some (text, type) ↦ read_typed_index text type r
  ]

  -- The pair `name`: an unknown register is taken for the first one.
  unfoldable pub read_name : Text → Reading → Reading
  read_name value r =
      let index : ℕ = elim (regs_description_get_index_by_name tables value) [
        | none ↦ 0
        | some i ↦ i
      ] in
      record r { reg_index = store r.reg_index 0 (index ∷ []) }

  -- One pair without its quotes
  unfoldable pub read_pair : Text → Text → Reading → Option (Bool × Reading)
  read_pair param value r =
      if is param (codes "request")
      then some (true, record r { request = request_of value r.request })
      else if is param (codes "reg_num")
      then some (true, record r { reg_num = reg_num_of value })
      else if is param (codes "get_type")
      then some (true, record r { get_type = get_type_of value r.get_type })
      else if is param (codes "index") && (names_regs r.request || is_set_string r.request)
      then read_index value r
      else if is param (codes "name") && names_regs r.request
      then some (true, read_name value r)
      else if is param (codes "value") && (names_regs r.request || is_set_string r.request)
      then go_on (write_value_pair value r)
      else some (true, r)

  unfoldable pub read_pairs : List Pair → Reading → Option Reading
  read_pairs [] r = some r
  read_pairs (pair ∷ pairs) r = elim (json_get_msg_type pair.param) [
    | none ↦ none
    | some (param, _) ↦ elim (json_get_msg_type pair.value) [
      | none ↦ none
      | some (value, _) ↦ elim (read_pair param value r) [
        | none ↦ none
        | some (false, r') ↦ some r'
        | some (true, r') ↦ read_pairs pairs r'
      ]
    ]
  ]
