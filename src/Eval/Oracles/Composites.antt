-- ===== src/Eval/Oracles/Composites.antt =====
-- src/desktop_worker/eval/oracles.py: when a composite oracle passes.
use desktop_worker.Prelude.{◌≡◌, ◌↔◌, refl, true, false, List, [], ◌∷◌, All, is_nil, arith}
use desktop_worker.Eval.Oracles.{Verdict, those, all_of, any_of}

abbrev pub Passed : Verdict → Type 0
Passed v = v.passed ≡ true

abbrev pub Failed : Verdict → Type 0
Failed v = v.passed ≡ false

none_failed : (vs : List Verdict) → (is_nil (those false vs) ≡ true) ↔ All Passed vs
unfolding those
none_failed [] = (λ h. tt, λ h. refl)
none_failed (v ∷ vs) =
    let (there, back) = none_failed vs in
    (λ h. (ground (arith, h), there (ground (arith, h))), λ (p, ps). ground (arith, p, back ps))

none_passed : (vs : List Verdict) → (is_nil (those true vs) ≡ true) ↔ All Failed vs
unfolding those
none_passed [] = (λ h. tt, λ h. refl)
none_passed (v ∷ vs) =
    let (there, back) = none_passed vs in
    (λ h. (ground (arith, h), there (ground (arith, h))), λ (p, ps). ground (arith, p, back ps))

-- `AllOf` passes exactly when each of its parts does, and `AnyOf` fails exactly when each of its
-- parts does.
pub composites_iff :
    (vs : List Verdict)
    → (((all_of vs).passed ≡ true) ↔ All Passed vs) × (((any_of vs).passed ≡ false) ↔ All Failed vs)
unfolding all_of any_of
composites_iff vs =
    let (there, back) = none_passed vs in
    (none_failed vs, (λ h. there (ground (arith, h)), λ h. ground (arith, back h)))
