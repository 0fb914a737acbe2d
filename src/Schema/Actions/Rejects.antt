-- ===== src/Schema/Actions/Rejects.antt =====
-- src/desktop_worker/schema/actions.py: what `parse_action` raises.
use desktop_worker.Prelude.{
  String, Bool, true, false, Option, none, some, List, [], ◌∷◌, inl, inr, Option-cases, Bool-cases,
  is_nil,
}
use desktop_worker.Errors.{
  Error, Invalid, action_validation, type_error, Result, ok, err, guard, ◌>>=◌,
}
use desktop_worker.Value.{Value, Dict, str, dict, hashable}
use desktop_worker.Dict.{lookup, keys, without}
use desktop_worker.Schema.Actions.Checks.{FieldSpec, ActionSpec}
use desktop_worker.Schema.Actions.Specs.{action_specs, find_spec}
use desktop_worker.Schema.Actions.Parse.{
  parse_action, parse_typed, parse_params, check_fields, check_field, unexpected_keys, field_names,
}

-- That the action is invalid, or a TypeError.
abbrev pub IsRejection : Error → Type 0
IsRejection (action_validation i) = Unit
IsRejection (type_error m) = Unit
IsRejection _ = ⊥

abbrev pub Rejects : {A : Type 0} → Result A → Type 0
Rejects (ok a) = Unit
Rejects (err e) = IsRejection e

Rejects->>= :
    {A B : Type 0} (m : Result A) (f : A → Result B)
    → Rejects m
    → ((a : A) → Rejects (f a))
    → Rejects (m >>= f)
Rejects->>= (ok a) f h k = k a
Rejects->>= (err e) f h k = h

Rejects-guard : (b : Bool) (i : Invalid) → Rejects (guard b (action_validation i))
Rejects-guard true i = tt
Rejects-guard false i = tt

Rejects-check_fields :
    (specs : List FieldSpec) (params : Dict) → Rejects (check_fields specs params)
unfolding check_fields check_field
Rejects-check_fields [] params = tt
Rejects-check_fields (fs ∷ specs) params =
    Rejects->>= (check_field fs (lookup fs.name params)) (λ u. check_fields specs params)
      (checked (lookup fs.name params)) (λ u. Rejects-check_fields specs params)
  where
    checked : (o : Option Value) → Rejects (check_field fs o)
    checked none = Rejects-guard _ _
    checked (some v) = Rejects-guard _ _

Rejects-parse_params :
    (t : String) (spec : ActionSpec) (params : Dict) → Rejects (parse_params t spec params)
unfolding parse_params
Rejects-parse_params t spec params =
    Rejects->>= (guard (is_nil extra) (action_validation (Invalid.unexpected extra))) _
      (Rejects-guard _ _)
      (λ u.
        Rejects->>= (check_fields spec.fields params) _ (Rejects-check_fields spec.fields params)
          (λ u'. tt))
  where
    extra : List String
    extra = unexpected_keys (field_names spec) (keys params)

Rejects-parse_typed : (v : Value) (raw : Dict) → Rejects (parse_typed v raw)
unfolding parse_typed
Rejects-parse_typed (str t) raw = elim (Option-cases (find_spec t action_specs)) [
  | inl e ↦ rw (e, Rejects) tt
  | inr (spec, e) ↦ rw (e, Rejects) (Rejects-parse_params t spec (without "type" raw))
]
Rejects-parse_typed v raw = elim (Bool-cases (hashable v)) [
  | inl e ↦ rw (e, Rejects) tt
  | inr e ↦ rw (e, Rejects) tt
]

pub Rejects-parse_action : (v : Value) → Rejects (parse_action v)
unfolding parse_action
Rejects-parse_action (dict raw) = elim (Option-cases (lookup "type" raw)) [
  | inl e ↦ rw (e, Rejects) tt
  | inr (v, e) ↦ rw (e, Rejects) (Rejects-parse_typed v raw)
]
Rejects-parse_action v = tt
