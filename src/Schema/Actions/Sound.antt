-- ===== src/Schema/Actions/Sound.antt =====
-- src/desktop_worker/schema/actions.py: what `parse_action` accepts.
use desktop_worker.Prelude.{
  String, ◌≡◌, refl, sym, ap, subst, ◌∙◌, ◌↔◌, true, false, none, some, List, [], ◌∷◌, arith,
  Option-cases, inl, inr, string_eq, eq_iff, contains, is_nil, All,
}
use desktop_worker.Errors.{ok, guard, >>=-eq-ok, guard-eq-ok}
use desktop_worker.Value.{Value, Dict, dict, str}
use desktop_worker.Dict.{lookup, without, keys, is_some}
use desktop_worker.Dict.Laws.{contains-keys}
use desktop_worker.Schema.Actions.Checks.{FieldSpec, ActionSpec}
use desktop_worker.Schema.Actions.Specs.{action_specs, find_spec}
use desktop_worker.Schema.Actions.Parse.{
  Action, unexpected_keys, check_field, check_fields, field_names, parse_params, parse_typed,
  parse_action,
}

-- What a row of the registry asks of one field.
pub record FieldFits (params : Dict) (fs : FieldSpec) : Type 0 where
  pub absent : lookup fs.name params ≡ none → fs.required ≡ false
  pub present : (v : Value) → lookup fs.name params ≡ some v → fs.check v ≡ true

-- The parameters fit a row: no other name, every required name, every value as declared.
pub record Fits (spec : ActionSpec) (params : Dict) : Type 0 where
  pub declared :
      (k : String) (v : Value) → lookup k params ≡ some v → contains (field_names spec) k ≡ true
  pub fields : All (FieldFits params) spec.fields

unexpected_keys-nil :
    (allowed ks : List String) (k : String)
    → is_nil (unexpected_keys allowed ks) ≡ true
    → contains ks k ≡ true
    → contains allowed k ≡ true
unfolding unexpected_keys
unexpected_keys-nil allowed [] k h c = cc
unexpected_keys-nil allowed (j ∷ ks) k h c =
    ground (arith, unexpected_keys-nil allowed ks k, eq_iff k j)

nil-unexpected_keys :
    (allowed ks : List String)
    → ((k : String) → contains ks k ≡ true → contains allowed k ≡ true)
    → is_nil (unexpected_keys allowed ks) ≡ true
unfolding unexpected_keys
nil-unexpected_keys allowed [] h = refl
nil-unexpected_keys allowed (j ∷ ks) h =
    ground (arith, h j, eq_iff j j, nil-unexpected_keys allowed ks (λ k c. h k (ground (arith, c))))

check_field-FieldFits :
    (fs : FieldSpec) (params : Dict) {u : Unit {0}}
    → check_field fs (lookup fs.name params) ≡ ok u
    → FieldFits params fs
unfolding check_field
check_field-FieldFits fs params h = record {
  absent = λ e. ground arith;
  present = λ v e. ground arith;
}

check_fields-All :
    (fields : List FieldSpec) (params : Dict) {u : Unit {0}}
    → check_fields fields params ≡ ok u
    → All (FieldFits params) fields
unfolding check_fields
check_fields-All [] params h = tt
check_fields-All (fs ∷ rest) params h =
    let (_, first, others) = >>=-eq-ok (check_field fs (lookup fs.name params)) _ h in
    (check_field-FieldFits fs params first, check_fields-All rest params others)

FieldFits-check_field :
    (fs : FieldSpec) (params : Dict)
    → FieldFits params fs
    → check_field fs (lookup fs.name params) ≡ ok tt
unfolding check_field
FieldFits-check_field fs params h = elim (Option-cases (lookup fs.name params)) [
  | inl e ↦ rw (e, h.absent e)
  | inr (v, e) ↦ rw (e, h.present v e)
]

All-check_fields :
    (fields : List FieldSpec) (params : Dict)
    → All (FieldFits params) fields
    → check_fields fields params ≡ ok tt
unfolding check_fields
All-check_fields [] params h = refl
All-check_fields (fs ∷ rest) params h =
    rw (FieldFits-check_field fs params h.0) (All-check_fields rest params h.1)

-- The parameters pass the two tests of `parse_params` exactly when they fit the row.
parse_params-Fits :
    (atype : String) (spec : ActionSpec) (params : Dict) {a : Action}
    → parse_params atype spec params ≡ ok a
    → Fits spec params × (a ≡ record { type = atype; params = params })
unfolding parse_params
parse_params-Fits atype spec params {a} h =
    let (_, nothing_extra, rest) = >>=-eq-ok (guard _ _) _ h in
    let (_, checked, made) = >>=-eq-ok (check_fields spec.fields params) _ rest in
    (
      record {
        declared = λ k v e.
            unexpected_keys-nil (field_names spec) (keys params) k (guard-eq-ok _ _ nothing_extra)
              (contains-keys k params ∙ ap is_some e);
        fields = check_fields-All spec.fields params checked;
      },
      cc,
    )

Fits-parse_params :
    (atype : String) (spec : ActionSpec) (params : Dict)
    → Fits spec params
    → parse_params atype spec params ≡ ok (record { type = atype; params = params })
unfolding parse_params
Fits-parse_params atype spec params h =
    rw (nil-unexpected_keys (field_names spec) (keys params) names)
      (rw (All-check_fields spec.fields params h.fields))
  where
    names : (k : String) → contains (keys params) k ≡ true → contains (field_names spec) k ≡ true
    names k c = elim (Option-cases (lookup k params)) [
      | inl e ↦ cc (contains-keys k params, e)
      | inr (v, e) ↦ h.declared k v e
    ]

-- What an accepted action is: the row of its type, and parameters that fit this row.
pub record IsValid (a : Action) : Type 0 where
  pub spec : ActionSpec
  pub known : find_spec a.type action_specs ≡ some spec
  pub fits : Fits spec a.params

-- What a document says that `parse_action` reads an action from.
pub record Says (raw : Dict) (a : Action) : Type 0 where
  pub type : lookup "type" raw ≡ some (str a.type)
  pub params : a.params ≡ without "type" raw

parse_typed-Says :
    (v : Value) (raw : Dict) {a : Action}
    → lookup "type" raw ≡ some v
    → parse_typed v raw ≡ ok a
    → Says raw a × IsValid a
unfolding parse_typed
parse_typed-Says (str t) raw {a} e h = elim (Option-cases (find_spec t action_specs)) [
  | inl unknown ↦ ground arith
  | inr (spec, known) ↦
      let (fits, made) = parse_params-Fits t spec (without "type" raw) (ground arith) in
      (
        record {
          type = e ∙ ap (λ (b : Action). some (str b.type)) (sym made);
          params = ap (λ (b : Action). b.params) made;
        },
        record {
          spec = spec;
          known = ap (λ (b : Action). find_spec b.type action_specs) made ∙ known;
          fits = subst (λ (b : Action). Fits spec b.params) (sym made) fits;
        },
      )
]
parse_typed-Says v raw e h = cc

parse_typed-ok :
    (raw : Dict) (a : Action) → Says raw a → IsValid a → parse_typed (str a.type) raw ≡ ok a
unfolding parse_typed
parse_typed-ok raw a says valid =
    rw (valid.known, ← says.params, parse_typed)
      (Fits-parse_params a.type valid.spec a.params valid.fits)

-- `parse_action` accepts a document exactly when its `type` is a known one and its other entries
-- are those that the row of this type declares, each required one present and each value as its
-- validator wants it; the action holds that type and those entries.
pub parse_action_iff :
    (raw : Dict) (a : Action) → (parse_action (dict raw) ≡ ok a) ↔ (Says raw a × IsValid a)
unfolding parse_action
parse_action_iff raw a = (accepted, accepts)
  where
    accepted : parse_action (dict raw) ≡ ok a → Says raw a × IsValid a
    accepted h = elim (Option-cases (lookup "type" raw)) [
      | inl e ↦ ground arith
      | inr (v, e) ↦ parse_typed-Says v raw e (ground arith)
    ]

    accepts : Says raw a × IsValid a → parse_action (dict raw) ≡ ok a
    accepts (says, valid) = rw (says.type, parse_action) (parse_typed-ok raw a says valid)
