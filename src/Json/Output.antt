-- ===== src/Json/Output.antt =====
-- The buffer of the answer, `dynamic_json_file` and `json_out_overflow` of main/http/json.c.
pub mod Holds
pub mod Bounded
use esp32_template.Base.{
  ℕ, zero, suc, ◌+◌, ◌-◌, Bool, true, false, ◌||◌, List, [], ◌∷◌, ◌++◌, ltb, leb, length,
  if◌then◌else◌,
}
use esp32_template.Base.Bytes.{Bytes, upd, store, load}
use esp32_template.Json.Strings.{Text, codes}

-- `MAX_DINAMIC_JSON_FILE_LEN`, with the sizes of `dynamical_file_databuf` and of an answer
abbrev pub max_dinamic_json_file_len : ℕ
max_dinamic_json_file_len = 512

-- What the code changes of `dynamic_json_file`, its bytes, and whether a call did not fit
pub record JsonOut : Type 0 where
  pub databuf : Bytes
  pub len : ℕ
  pub overflow : Bool

abbrev pub take : ℕ → Text → Text
take zero s = []
take (suc n) [] = []
take (suc n) (c ∷ s) = c ∷ take n s

-- `vsnprintf` into `size` bytes at `at`: as much of the text as fits, and a NUL
abbrev pub vsnprintf : Bytes → ℕ → ℕ → Text → Bytes
vsnprintf m at size text = store m at (take (size - 1) text ++ 0 ∷ [])

-- The text is what the format makes of its arguments.
unfoldable pub json_out_append : Text → JsonOut → JsonOut
unfolding store
json_out_append text out =
    let free_space = max_dinamic_json_file_len - out.len in
    if out.overflow || leb free_space 1
    then record out { overflow = true }
    else (let written = record out { databuf = vsnprintf out.databuf out.len free_space text } in
        if leb free_space (length text)
        then record written { overflow = true }
        else record written { len = out.len + length text })

unfoldable pub json_out_replace_last : ℕ → JsonOut → JsonOut
json_out_replace_last symbol out =
    if ltb 0 out.len then record out { databuf = upd out.databuf (out.len - 1) symbol } else out

-- One of the calls with which an answer is built
pub data Op : Type 0 where
  append : Text → Op
  replace_last : ℕ → Op

unfoldable pub run_op : Op → JsonOut → JsonOut
unfolding json_out_append json_out_replace_last
run_op (append text) out = json_out_append text out
run_op (replace_last symbol) out = json_out_replace_last symbol out

unfoldable pub run_ops : List Op → JsonOut → JsonOut
unfolding run_op
run_ops [] out = out
run_ops (op ∷ ops) out = run_ops ops (run_op op out)

abbrev pub json_header : Text
json_header = codes "HTTP/1.0 200 OK\r\nServer:sofi_1.0.0\r\nAccess-Control-Allow-Origin: *\r\n\r\n"

abbrev pub too_large : Text
too_large = json_header ++ codes "{\"error\":\"response too large\"}"

-- The answer from `json_out_append("%s{", json_header)` on; `body` is what the request adds.
unfoldable pub build_answer : List Op → Bytes → JsonOut
build_answer body databuf =
    let start : JsonOut = record { databuf = databuf; len = 0; overflow = false } in
    let opened = json_out_append (json_header ++ b'{' ∷ []) start in
    let closed = json_out_replace_last b'}' (run_ops body opened) in
    let out =
      if closed.overflow
      then json_out_append too_large (record closed { len = 0; overflow = false })
      else closed in
    record out { databuf = upd out.databuf out.len 0 }
