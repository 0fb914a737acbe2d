-- ===== src/Tools/Registry.antt =====
-- src/desktop_worker/tools/registry.py: the map from names to tools. A tool is the protocol's four
-- texts, and a `run` that may use the session.
pub mod Laws
use desktop_worker.Prelude.{
  String, ◌<>◌, Bool, true, false, Option, none, some, List, [], ◌∷◌, map, ◌==◌, string_eq,
  if◌then◌else◌,
}
use desktop_worker.Errors.{Error, tool, type_error, other, Result, ok, err, ◌>>=◌}
use desktop_worker.Value.{
  Value, Dict, dict, str, end, field, null, bool, int, float, list, tuple, hashable, truthy,
}
use desktop_worker.Dict.{lookup, get_or}
use desktop_worker.Session.{World, Exec, Outcome, done, raised, hang}

pub record Tool : Type 0 where
  pub name : String
  pub description : String
  pub args_help : String
  pub risk : String
  pub run : Dict → Exec Value

abbrev pub Registry : Type 0
Registry = List (String × Tool)

-- `self._tools[tool.name] = tool`
unfoldable pub register : Tool → Registry → Registry
register t [] = (t.name, t) ∷ []
register t ((name, u) ∷ tools) =
    let rest = register t tools in if name == t.name then (name, t) ∷ tools else (name, u) ∷ rest

unfoldable pub get : String → Registry → Option Tool
get n [] = none
get n ((name, t) ∷ tools) = if name == n then some t else get n tools

-- `self._tools.get(name)`, which raises for a key that has no hash.
unfoldable pub get_value : Value → Registry → Result (Option Tool)
unfolding get
get_value (str n) tools = ok (get n tools)
get_value v tools = if hashable v then ok none else err (type_error "unhashable type")

abbrev pub risk_or_high : Option Tool → String
risk_or_high none = "high"
risk_or_high (some t) = t.risk

-- The risk of a tool; an unknown one is high.
unfoldable pub risk_of : Value → Registry → Result String
risk_of name tools = get_value name tools >>= λ found. ok (risk_or_high found)

unfoldable pub catalog : Registry → List (String × String × String)
catalog tools =
    map (λ (entry : String × Tool). (entry.1.name, entry.1.description, entry.1.args_help)) tools

-- The text of a failure: `(result or {}).get('error', 'unknown error')`.
abbrev pub failure : Value → Error
failure (dict d) = tool "tool failed"
failure v = if truthy v then other "AttributeError" "no attribute 'get'" else tool "tool failed"

-- Whether a tool's answer is a dictionary that says `success`.
abbrev pub succeeds : Value → Bool
succeeds (dict d) = truthy (get_or (lookup "success" d) null)
succeeds _ = false

abbrev pub check_answer : Value → Result Value
check_answer v = if succeeds v then ok v else err (failure v)

-- `run`
unfoldable pub run_tool : Value → Value → Registry → Exec Value
run_tool name args tools w = elim (get_value name tools) [
  | err e ↦ (raised e, w)
  | ok none ↦ (raised (tool "unknown tool"), w)
  | ok (some t) ↦ elim args [
    | dict d ↦
        let (r, w') = t.run d w in
        elim r [
          | done v ↦ elim (check_answer v) [ ok u ↦ (done u, w') | err e ↦ (raised e, w') ]
          | raised e ↦ (raised e, w')
          | hang ↦ (hang, w')
        ]
    | _ ↦ (raised (tool "args must be an object"), w)
  ]
]
