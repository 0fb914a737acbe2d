-- ===== src/Planner/Answer.antt =====
-- src/desktop_worker/loop/claude_cli_planner.py: the JSON object in what the CLI printed. The JSON
-- library is a parameter, as are `repr` and `str` of a value.
pub mod Unreadable
use text.Mathlib.Text.{starts_with}
use Prim.Native.Char.{code}
use Prim.Native.String.{String, count}
use desktop_worker.Prelude.{
  ◌-◌, ◌<>◌, Bool, true, false, ◌||◌, Option, none, some, List, [], ◌∷◌, ◌==◌, string_eq, nat_eq,
  if◌then◌else◌,
}
use desktop_worker.Prelude.Text.{strip, strip_right, ends_with, take_text}
use desktop_worker.Errors.{Error, value_error, Result, ok, err, ◌>>=◌}
use desktop_worker.Value.{Value, Dict, str, dict, truthy}
use desktop_worker.Dict.{lookup, get_or, is_some}

-- `json.loads`, `raw_decode` at the start of a text, `json.dumps`, `repr` and `str`
pub record Python : Type 0 where
  pub loads : String → Option Value
  pub raw_decode : String → Option Value
  pub dumps : Value → String
  pub repr : Value → String
  pub str_of : Value → String

-- What stands after the first line, if there is an end of a line.
after_line : String → Option String
after_line String.[] = none
after_line (String.◌∷◌ c s) = if code c == 10 then some s else after_line s

drop_fence : String → String
drop_fence t = let r = strip_right t in if ends_with "```" r then take_text (count r - 3) r else t

abbrev rest_or : String → Option String → String
rest_or t none = t
rest_or t (some rest) = rest

-- `_strip_fences`
unfoldable pub strip_fences : String → String
unfolding strip after_line drop_fence strip_right ends_with take_text
strip_fences text =
    let t = strip text in
    if starts_with t "```" then strip (drop_fence (rest_or t (after_line t))) else t

-- The dictionaries that can be read at a brace of the text, in order.
unfoldable pub objects : (String → Option Value) → String → List Dict
objects decode String.[] = []
objects decode (String.◌∷◌ c s) =
    let rest = objects decode s in
    if starts_with (String.◌∷◌ c s) "{"
    then elim (decode (String.◌∷◌ c s)) [
      | none ↦ rest
      | some v ↦ elim v [ dict o ↦ o ∷ rest | _ ↦ rest ]
    ]
    else rest

abbrev pub is_answer : Dict → Bool
is_answer o = is_some (lookup "action" o) || is_some (lookup "done" o)

unfoldable pub first_answer : List Dict → Option Dict
first_answer [] = none
first_answer (o ∷ os) = if is_answer o then some o else first_answer os

abbrev best : List Dict → Option Dict
best [] = none
best (o ∷ os) = elim (first_answer (o ∷ os)) [ none ↦ some o | some a ↦ some a ]

-- `_first_json_object`
unfoldable pub first_json_object : (String → Option Value) → String → Option Dict
unfolding objects first_answer
first_json_object decode text = best (objects decode text)

abbrev inner_text : Python → Value → String
inner_text py (str s) = s
inner_text py v = py.dumps v

-- The text of the answer: the `result` of an envelope, or all of the output.
unfoldable pub inner_of : Python → String → Option Value → Result String
inner_of py text (some (dict env)) = elim (lookup "result" env) [
  | none ↦ ok text
  | some result ↦
      if truthy (get_or (lookup "is_error" env) Value.null)
      then err (value_error ("claude returned an error: " <> py.repr result))
      else ok (inner_text py result)
]
inner_of py text _ = ok text

unfoldable pub read_object : Python → String → Result Dict
unfolding strip_fences first_json_object
read_object py inner = elim (first_json_object py.raw_decode (strip_fences inner)) [
  | none ↦ err (
      value_error
        ("no JSON object found in planner output: " <> py.repr (str (take_text 200 inner))))
  | some o ↦ ok o
]

-- `parse_planner_output`
unfoldable pub parse_planner_output : Python → String → Result Dict
unfolding strip inner_of read_object
parse_planner_output py stdout =
    let text = strip stdout in
    if text == ""
    then err (value_error "empty planner output")
    else (inner_of py text (py.loads text) >>= read_object py)
