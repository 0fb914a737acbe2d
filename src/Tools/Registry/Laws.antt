-- ===== src/Tools/Registry/Laws.antt =====
-- src/desktop_worker/tools/registry.py: what the registry finds, and what a tool that answers was.
use desktop_worker.Prelude.{◌≡◌, refl, true, none, some, [], ◌∷◌, string_eq, arith, inl, inr}
use desktop_worker.Errors.{ok, err, Result-cases}
use desktop_worker.Value.{Value, Dict, dict, truthy, null}
use desktop_worker.Dict.{lookup, get_or}
use desktop_worker.Session.{World, Outcome, done, raised, hang}
use desktop_worker.Tools.Registry.{Tool, Registry, get_value, run_tool, check_answer, succeeds}

-- Each entry of the map is under its tool's name.
abbrev pub IsNamed : Registry → Type 0
IsNamed [] = Unit
IsNamed ((name, t) ∷ tools) = (name ≡ t.name) × IsNamed tools

-- What a run that comes back says of the tool, its arguments and its answer.
pub record Answers (name args : Value) (tools : Registry) (w : World) (v : Value) : Type 0 where
  pub tool : Tool
  pub given : Dict
  pub answer : Dict
  pub found : get_value name tools ≡ ok (some tool)
  pub argument : args ≡ dict given
  pub ran : (tool.run given w).0 ≡ done v
  pub shape : v ≡ dict answer
  pub success : truthy (get_or (lookup "success" answer) null) ≡ true

check_answer-ok : (v : Value) {u : Value} → check_answer v ≡ ok u → (v ≡ u) × (succeeds v ≡ true)
check_answer-ok v h = ground arith

succeeds-dict :
    (v : Value)
    → succeeds v ≡ true
    → (d : Dict) × (v ≡ dict d) × (truthy (get_or (lookup "success" d) null) ≡ true)
succeeds-dict (dict d) h = (d, refl, h)
succeeds-dict _ h = absurd (cc)

-- A tool that is found: what its run makes of the answer.
checked :
    (name : Value) (d : Dict) (tools : Registry) (w : World) (t : Tool) (v : Value)
    (r : Outcome Value) (w' : World)
    → get_value name tools ≡ ok (some t)
    → (t.run d w).0 ≡ r
    → (let out : Outcome Value × World = elim r [
      | done v ↦ elim (check_answer v) [ ok u ↦ (done u, w') | err e ↦ (raised e, w') ]
      | raised e ↦ (raised e, w')
      | hang ↦ (hang, w')
    ] in
        out.0 ≡ done v)
    → Answers name (dict d) tools w v
checked name d tools w t v (done u) w' found ran h = elim (Result-cases (check_answer u)) [
  | inl (e, bad) ↦ absurd (cc (rw bad at h))
  | inr (u', good) ↦
      let (same, success) = check_answer-ok u good in
      let (answer, shape, truth) = succeeds-dict u success in
      let back : u' ≡ v = cc (rw good at h) in
      record {
        tool = t;
        given = d;
        answer = answer;
        found = found;
        argument = refl;
        ran = cc;
        shape = cc;
        success = truth;
      }
]
checked name d tools w t v (raised e) w' found ran h = absurd (cc)
checked name d tools w t v hang w' found ran h = absurd (cc)

-- `run` comes back with an answer only of a tool that is registered under the name, ran on the
-- dictionary of arguments that was given, and answered with a dictionary that says `success`.
pub run_tool-Answers :
    (name args : Value) (tools : Registry) (w : World) (v : Value)
    → (run_tool name args tools w).0 ≡ done v
    → Answers name args tools w v
unfolding run_tool
run_tool-Answers name (dict d) tools w v h = elim (Result-cases (get_value name tools)) [
  | inl (e, bad) ↦ absurd (cc (rw (bad, run_tool) at h))
  | inr (none, unknown) ↦ absurd (cc (rw (unknown, run_tool) at h))
  | inr (some t, found) ↦
      checked name d tools w t v (t.run d w).0 (t.run d w).1 found refl (rw (found, run_tool) at h)
]
run_tool-Answers name _ tools w v h = absurd (ground (arith, h))
