-- ===== src/Errors.antt =====
-- The exceptions that the modelled code raises or catches, and a call that may raise one.
-- The text of a message is kept where the code reads it again, and its parts elsewhere.
use desktop_worker.Prelude.{String, ◌<>◌, ◌≡◌, refl, ◌⊎◌, inl, inr, Bool, true, false, List}

-- Why `parse_action` refuses (src/desktop_worker/schema/actions.py).
pub data Invalid : Type 0 where
  not_object missing_type unknown_type : Invalid
  unexpected : List String → Invalid
  missing_field : String → Invalid
  bad_field : String → String → Invalid

pub data Error : Type 0 where
  action_validation : Invalid → Error
  orchestration_validation : String → Error
  emergency_stop : String → Error
  tool : String → Error
  runtime : String → Error
  not_implemented : String → Error
  key_error : String → Error
  type_error : String → Error
  value_error : String → Error
  -- What a component outside of the model raises: its class and its message.
  other : String → String → Error

pub data Result {ℓ} (A : Type ℓ) : Type ℓ where
  ok : A → Result A
  err : Error → Result A

abbrev pub is_ok {ℓ} : {A : Type ℓ} → Result A → Bool
is_ok (ok value) = true
is_ok (err e) = false

-- Go on where `holds`, and raise `e` otherwise.
abbrev pub guard : Bool → Error → Result (Unit {0})
guard holds e = elim holds [ true ↦ ok tt | false ↦ err e ]

infixl 5 ◌>>=◌ ◌>>◌
-- The first error is the error of the whole.
abbrev pub ◌>>=◌ {ℓ μ} : {V : Type ℓ} {W : Type μ} → Result V → (V → Result W) → Result W
err e >>= next = err e
ok value >>= next = next value

abbrev pub ◌>>◌ {ℓ} : {W : Type ℓ} → Result (Unit {0}) → Result W → Result W
first >> second = first >>= λ done. second

pub guard-eq-ok : (holds : Bool) (e : Error) {u : Unit {0}} → guard holds e ≡ ok u → holds ≡ true
guard-eq-ok true e h = refl
guard-eq-ok false e h = cc

-- What a chain that succeeds says of its first part.
pub >>=-eq-ok {ℓ μ} :
    {V : Type ℓ} {W : Type μ} (first : Result V) (next : V → Result W) {w : W}
    → (first >>= next) ≡ ok w
    → (v : V) × (first ≡ ok v) × (next v ≡ ok w)
>>=-eq-ok (err e) next h = cc
>>=-eq-ok (ok value) next h = (value, refl, h)

-- `type(exc).__name__` and `str(exc)`. The text of a validation error is not modelled.
abbrev pub class_name : Error → String
class_name (action_validation i) = "ActionValidationError"
class_name (orchestration_validation m) = "OrchestrationValidationError"
class_name (emergency_stop m) = "EmergencyStopError"
class_name (tool m) = "ToolError"
class_name (runtime m) = "RuntimeError"
class_name (not_implemented m) = "NotImplementedError"
class_name (key_error k) = "KeyError"
class_name (type_error m) = "TypeError"
class_name (value_error m) = "ValueError"
class_name (other name m) = name

abbrev pub message : Error → String
message (action_validation i) = "invalid action"
message (orchestration_validation m) = m
message (emergency_stop m) = m
message (tool m) = m
message (runtime m) = m
message (not_implemented m) = m
message (key_error k) = "'" <> k <> "'"
message (type_error m) = m
message (value_error m) = m
message (other name m) = m

pub Result-cases {ℓ} :
    {A : Type ℓ} (r : Result A) → ((e : Error) × (r ≡ err e)) ⊎ ((a : A) × (r ≡ ok a))
Result-cases (ok a) = inr (a, refl)
Result-cases (err e) = inl (e, refl)
