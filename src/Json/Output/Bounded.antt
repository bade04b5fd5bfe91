-- ===== src/Json/Output/Bounded.antt =====
-- A finished answer is what was written, or an error where that is too long.
use mathlib.Core.Path.{subst}
use esp32_template.Base.{
  ◌<◌, ◌≡◌, refl, sym, ◌∙◌, arith, Bool, false, List, [], ◌∷◌, ◌++◌, ltb, length, lt→ltb,
  if◌then◌else◌,
}
use esp32_template.Base.Bytes.{Bytes, upd, load, load_ext}
use esp32_template.Json.Output.{
  max_dinamic_json_file_len, JsonOut, json_out_append, json_out_replace_last, Op, replace_last,
  run_op, json_header, too_large, build_answer,
}
use esp32_template.Json.Strings.{Text}
use esp32_template.Json.Output.Holds.{
  with_last, text_ops, content, Holds, whole, lost, IsBody, json_out_append-whole, content-empty,
  run_op-Holds, run_ops-Holds,
}

-- The whole answer, without a bound
abbrev pub full_answer : List Op → Text
full_answer body = with_last b'}' (text_ops body (json_header ++ b'{' ∷ []))

-- What is in the buffer once an answer is finished: the text, with a NUL behind it
pub record IsFinished (text : Text) (out : JsonOut) : Type 0 where
  pub is_text : content out ≡ text
  pub ended : out.databuf out.len ≡ 0
  pub inside : out.len < max_dinamic_json_file_len

finished :
    (text : Text) (out : JsonOut)
    → length text < max_dinamic_json_file_len
    → Holds text out
    → IsFinished text (record out { databuf = upd out.databuf out.len 0 })
finished text out h (lost over o b) = absurd (omega arith)
finished text out h (whole less o l e) =
    let kept : load (upd out.databuf out.len 0) 0 out.len ≡ content out =
      load_ext out.len (upd out.databuf out.len 0) out.databuf 0 0 (λ k below. ground arith) in
    record { is_text = kept ∙ e; ended = ground arith; inside = omega arith }

opened-Holds :
    (t : Text) (out : JsonOut)
    → 0 < length t
    → out.len ≡ 0
    → out.overflow ≡ false
    → Holds t (json_out_append t out)
opened-Holds t out some_bytes l o =
    json_out_append-whole t [] out some_bytes (omega arith) o l (content-empty out l)

-- The end of `build_answer`, for an overflow or not
abbrev closing : Bool → JsonOut → JsonOut
closing over closed =
    let out : JsonOut =
      if over
      then json_out_append too_large (record closed { len = 0; overflow = false })
      else closed in
    record out { databuf = upd out.databuf out.len 0 }

closing-IsFinished :
    (text : Text) (closed : JsonOut)
    → Holds text closed
    → IsFinished
        (if ltb (length text) max_dinamic_json_file_len then text else too_large)
        (closing closed.overflow closed)
closing-IsFinished text closed (whole h o l e) =
    let small = lt→ltb (length text) max_dinamic_json_file_len h in
    rw small (
      subst (λ over. IsFinished text (closing over closed)) (sym o)
        (finished text closed h (whole h o l e)))
closing-IsFinished text closed (lost h o b) =
    let large : ltb (length text) max_dinamic_json_file_len ≡ false = ground arith in
    let empty : JsonOut = record closed { len = 0; overflow = false } in
    rw large (
      subst (λ over. IsFinished too_large (closing over closed)) (sym o)
        (finished too_large (json_out_append too_large empty) (omega arith)
          (opened-Holds too_large empty (omega arith) refl refl)))

-- An answer of less than 512 bytes is in the buffer as it was written; in place of a longer one stands
-- the error `response too large`. Either way it ends with a NUL inside the buffer. The calls that
-- build it append at least one byte each.
pub build_answer-IsFinished :
    (body : List Op) (databuf : Bytes)
    → IsBody body
    → IsFinished
        (if ltb (length (full_answer body)) max_dinamic_json_file_len
          then full_answer body
          else too_large)
        (build_answer body databuf)
unfolding build_answer run_op json_out_replace_last
build_answer-IsFinished body databuf p =
    let start : JsonOut = record { databuf = databuf; len = 0; overflow = false } in
    let opened = opened-Holds (json_header ++ b'{' ∷ []) start (omega arith) refl refl in
    let built =
      run_ops-Holds body (json_header ++ b'{' ∷ [])
        (json_out_append (json_header ++ b'{' ∷ []) start) p opened in
    closing-IsFinished (full_answer body) _ (run_op-Holds (replace_last b'}') _ _ tt built)
