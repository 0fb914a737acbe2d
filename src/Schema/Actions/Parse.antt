-- ===== src/Schema/Actions/Parse.antt =====
-- src/desktop_worker/schema/actions.py: `Action`, `parse_action` and `to_dict`.
use desktop_worker.Prelude.{
  String, not, Option, none, some, List, [], ◌∷◌, contains, is_nil, map, if◌then◌else◌,
}
use desktop_worker.Errors.{
  action_validation, type_error, not_object, missing_type, unknown_type, unexpected, missing_field,
  bad_field, Result, ok, err, ◌>>◌, guard,
}
use desktop_worker.Value.{Value, Dict, dict, str, end, field, hashable}
use desktop_worker.Dict.{lookup, without, keys, update}
use desktop_worker.Schema.Actions.Checks.{FieldSpec, ActionSpec}
use desktop_worker.Schema.Actions.Specs.{action_specs, find_spec}

pub record Action : Type 0 where
  pub type : String
  pub params : Dict

-- `set(params) - allowed`, in the order of the parameters.
unfoldable pub unexpected_keys : List String → List String → List String
unexpected_keys allowed [] = []
unexpected_keys allowed (k ∷ ks) =
    let rest = unexpected_keys allowed ks in if contains allowed k then rest else k ∷ rest

-- One round of the loop over the fields of a row.
unfoldable pub check_field : FieldSpec → Option Value → Result (Unit {0})
check_field fs none = guard (not fs.required) (action_validation (missing_field fs.name))
check_field fs (some v) = guard (fs.check v) (action_validation (bad_field fs.name fs.hint))

unfoldable pub check_fields : List FieldSpec → Dict → Result (Unit {0})
unfolding check_field
check_fields [] params = ok tt
check_fields (fs ∷ rest) params = check_field fs (lookup fs.name params) >> check_fields rest params

abbrev pub field_names : ActionSpec → List String
field_names spec = map (λ fs. fs.name) spec.fields

unfoldable pub parse_params : String → ActionSpec → Dict → Result Action
unfolding check_fields unexpected_keys
parse_params atype spec params = do
  let extra = unexpected_keys (field_names spec) (keys params)
  guard (is_nil extra) (action_validation (unexpected extra))
  check_fields spec.fields params
  ok (record { type = atype; params = params })

-- A type that is no text is unknown, or cannot be looked up at all when it has no hash.
unfoldable pub parse_typed : Value → Dict → Result Action
parse_typed (str atype) raw = elim (find_spec atype action_specs) [
  | none ↦ err (action_validation unknown_type)
  | some spec ↦ parse_params atype spec (without "type" raw)
]
parse_typed v raw =
    err (if hashable v then action_validation unknown_type else type_error "unhashable type")

unfoldable pub parse_action : Value → Result Action
parse_action (dict raw) = elim (lookup "type" raw) [
  | none ↦ err (action_validation missing_type)
  | some atype ↦ parse_typed atype raw
]
parse_action _ = err (action_validation not_object)

-- `{"type": self.type, **self.params}`
unfoldable pub to_dict : Action → Dict
to_dict a = update (field "type" (str a.type) end) a.params
