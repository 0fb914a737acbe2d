-- ===== src/Eval/Oracles.antt =====
-- src/desktop_worker/eval/oracles.py: a verdict, and the two oracles that are made of others. An
-- oracle is a function of what it looks at.
pub mod Composites
use desktop_worker.Prelude.{
  String, ◌<>◌, Bool, true, false, not, List, [], ◌∷◌, map, is_nil, if◌then◌else◌,
}
use desktop_worker.Value.{Value, Items, Dict, nil, cons, bool, str, list, dict, end, field}

pub record Verdict : Type 0 where
  pub passed : Bool
  pub reason : String
  pub detail : Dict

unfoldable pub verdict_to_dict : Verdict → Dict
verdict_to_dict v =
    field "passed" (bool v.passed)
      (field "reason" (str v.reason) (field "detail" (dict v.detail) end))

abbrev pub items : List Verdict → Items
items [] = nil
items (v ∷ vs) = cons (dict (verdict_to_dict v)) (items vs)

-- `[v for v in verdicts if v.passed == wanted]`
unfoldable pub those : Bool → List Verdict → List Verdict
those wanted [] = []
those true (v ∷ vs) = let rest = those true vs in if v.passed then v ∷ rest else rest
those false (v ∷ vs) = let rest = those false vs in if v.passed then rest else v ∷ rest

-- `"; ".join(v.reason for v in vs)`
unfoldable pub reasons : List Verdict → String
reasons [] = ""
reasons (v ∷ []) = v.reason
reasons (v ∷ vs) = v.reason <> "; " <> reasons vs

abbrev pub checks : List Verdict → Dict
checks vs = field "checks" (list (items vs)) end

-- `AllOf.check`, on the verdicts of its parts
unfoldable pub all_of : List Verdict → Verdict
unfolding those reasons
all_of vs =
    let failed = those false vs in
    record {
      passed = is_nil failed;
      reason = if is_nil failed then "all checks passed" else reasons failed;
      detail = checks vs;
    }

abbrev pub first_reason : List Verdict → String → String
first_reason [] text = text
first_reason (v ∷ vs) text = v.reason

-- `AnyOf.check`
unfoldable pub any_of : List Verdict → Verdict
unfolding those reasons
any_of vs =
    let passed = those true vs in
    record {
      passed = not (is_nil passed);
      reason = first_reason passed (reasons vs);
      detail = checks vs;
    }
