-- ===== src/Planner/Answer/Unreadable.antt =====
-- src/desktop_worker/loop/claude_cli_planner.py: what reading an answer raises.
use desktop_worker.Prelude.{
  String, Option, some, inl, inr, Bool-cases, Option-cases, ◌==◌, string_eq,
}
use desktop_worker.Prelude.Text.{strip}
use desktop_worker.Errors.{value_error, Result, ok, err, ◌>>=◌}
use desktop_worker.Value.{Value, dict, truthy}
use desktop_worker.Dict.{lookup, get_or}
use desktop_worker.Planner.Answer.{
  Python, inner_of, read_object, first_json_object, strip_fences, parse_planner_output,
}

-- An output that cannot be read is a ValueError, and no other.
abbrev pub IsUnreadable : {A : Type 0} → Result A → Type 0
IsUnreadable (ok a) = Unit
IsUnreadable (err (value_error m)) = Unit
IsUnreadable (err e) = ⊥

IsUnreadable-inner_of :
    (py : Python) (text : String) (o : Option Value) → IsUnreadable (inner_of py text o)
unfolding inner_of
IsUnreadable-inner_of py text (some (dict env)) = elim (Option-cases (lookup "result" env)) [
  | inl e ↦ rw (e, IsUnreadable) tt
  | inr (result, e) ↦ elim (Bool-cases (truthy (get_or (lookup "is_error" env) Value.null))) [
    | inl bad ↦ rw (e, bad, IsUnreadable) tt
    | inr good ↦ rw (e, good, IsUnreadable) tt
  ]
]
IsUnreadable-inner_of py text _ = tt

IsUnreadable->>= :
    {A B : Type 0} (m : Result A) (f : A → Result B)
    → IsUnreadable m
    → ((a : A) → IsUnreadable (f a))
    → IsUnreadable (m >>= f)
IsUnreadable->>= (ok a) f h k = k a
IsUnreadable->>= (err (value_error m)) f h k = tt
IsUnreadable->>= (err _) f h k = h

read_object-IsUnreadable : (py : Python) (inner : String) → IsUnreadable (read_object py inner)
unfolding read_object
read_object-IsUnreadable py inner =
    elim (Option-cases (first_json_object py.raw_decode (strip_fences inner))) [
      | inl e ↦ rw (e, IsUnreadable) tt
      | inr (o, e) ↦ rw (e, IsUnreadable) tt
    ]

pub parse_planner_output-IsUnreadable :
    (py : Python) (stdout : String) → IsUnreadable (parse_planner_output py stdout)
unfolding parse_planner_output
parse_planner_output-IsUnreadable py stdout = elim (Bool-cases (text == "")) [
  | inl e ↦ rw (e, IsUnreadable) tt
  | inr e ↦
      rw (e, IsUnreadable)
        (IsUnreadable->>= (inner_of py text (py.loads text)) (read_object py)
          (IsUnreadable-inner_of py text (py.loads text)) (read_object-IsUnreadable py))
]
  where
    text : String
    text = strip stdout
