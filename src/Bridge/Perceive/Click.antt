-- ===== src/Bridge/Perceive/Click.antt =====
-- src/desktop_worker/mcp_server/bridge.py: click_element clicks what is on the screen now, or nothing.
use desktop_worker.Prelude.Text.{strip, lower}
use mathlib.Core.List.{Mem, mem-cons_self, mem-cons_of_mem}
use desktop_worker.Prelude.{
  Option, All, ℕ, zero, suc, ◌+◌, ◌*◌, ◌≤◌, String, true, false, ◌≡◌, refl, ap, subst, ◌∙◌, ◌⊎◌,
  inl, inr, none, some, List, [], ◌∷◌, Bool-cases, Option-cases, ◌==◌, string_eq, eq_iff, arith,
}
use desktop_worker.Prelude.Int.{ℤ, pos, negsuc, ◌+ℤ◌, half, minus_ℕ}
use Prim.Native.Nat.{◌/◌}
use desktop_worker.Value.{int, str, end, field}
use desktop_worker.Perception.Perceiver.{Bounds}
use desktop_worker.Schema.Actions.Checks.{is_button}
use desktop_worker.Errors.{ok}
use desktop_worker.Loop.Observation.{Element}
use desktop_worker.Schema.Actions.Parse.{Action}
use desktop_worker.Actions.Executor.Dispatch.{Executor}
use desktop_worker.Session.{World, Outcome, done, raised, hang}
use desktop_worker.Bridge.{Answer, act_parsed}
use desktop_worker.Bridge.Calls
use desktop_worker.Bridge.Calls.Runs.{call-Runs, Runs, Refuses}
use desktop_worker.Bridge.Perceive.{
  Eyes, Perceived, perceive, perceived, no_filter, filter_elements, fits_filter, select,
  find_element, center, click_at, click_element, cap, with_detail, region_of,
}

-- The click on a point.
abbrev pub click_on : String → ℤ → ℤ → Action
click_on button cx cy = record {
  type = "mouse.click";
  params = field "button" (str button) (field "x" (int cx) (field "y" (int cy) end));
}

-- `c` is half of `n`, rounded towards 0.
abbrev pub IsHalf : ℤ → ℤ → Type 0
IsHalf (pos c) (pos n) = (2 * c ≤ n) × (n ≤ 2 * c + 1)
IsHalf (pos c) (negsuc n) = (c ≡ 0) × (n ≡ 0)
IsHalf (negsuc c) (pos n) = ⊥
IsHalf (negsuc c) (negsuc n) = (2 * c + 1 ≤ n) × (n ≤ 2 * c + 2)

-- The point is the middle of the rectangle, to the pixel.
abbrev pub IsCentre : ℤ → ℤ → Bounds → Type 0
IsCentre cx cy (l, t, r, b) = IsHalf cx (l +ℤ r) × IsHalf cy (t +ℤ b)

minus_ℕ-IsHalf : (k n : ℕ) → 2 * k ≤ n + 1 → n ≤ 2 * k → IsHalf (minus_ℕ k) (negsuc n)
minus_ℕ-IsHalf zero n h k = (refl, omega arith)
minus_ℕ-IsHalf (suc c) n h k = (omega arith, omega arith)

half-IsHalf : (n : ℤ) → IsHalf (half n) n
unfolding half
half-IsHalf (pos n) = (omega arith, omega arith)
half-IsHalf (negsuc n) = minus_ℕ-IsHalf ((n + 1) / 2) n (omega arith) (omega arith)

center-IsCentre : (b : Bounds) → IsCentre (center b).0 (center b).1 b
unfolding center
center-IsCentre (l, t, r, b) = (half-IsHalf (l +ℤ r), half-IsHalf (t +ℤ b))

find_element-Mem :
    (id : String) (es : List Element) (e : Element)
    → find_element id es ≡ some e
    → Mem e es × (e.id ≡ id)
unfolding find_element
find_element-Mem id [] e h = cc
find_element-Mem id (d ∷ es) e h = elim (Bool-cases (d.id == id)) [
  | inl same ↦
      let here : d ≡ e = ground arith in
      (subst (λ c. Mem c (d ∷ es)) here mem-cons_self, ground (arith, eq_iff d.id id))
  | inr other ↦
      let (there, named) = find_element-Mem id es e (ground arith) in
      (mem-cons_of_mem d there, named)
]

find_element-gone :
    (id : String) (es : List Element)
    → find_element id es ≡ none
    → All (λ (d : Element). d.id ≡ id → ⊥) es
unfolding find_element
find_element-gone id [] h = tt
find_element-gone id (d ∷ es) h = elim (Bool-cases (d.id == id)) [
  | inl same ↦ absurd (ground arith)
  | inr other ↦ (λ e. ground (arith, eq_iff d.id id), find_element-gone id es (ground arith))
]

select_all : (es : List Element) → select (fits_filter "" "" none) es ≡ es
unfolding select fits_filter
select_all [] = refl
select_all (e ∷ es) = ap (◌∷◌ e) (select_all es)

-- Without a filter, what is perceived is what is on the screen.
abbrev all_seen : Eyes → World → Perceived
all_seen eyes w =
    let (es, report) = eyes.look w false in perceived false eyes.ocr_available es report es (pos 0)

perceive_all : (eyes : Eyes) (w : World) → perceive eyes false no_filter w ≡ ok (all_seen eyes w)
unfolding perceive filter_elements region_of strip lower
perceive_all eyes w = rw (select_all (eyes.look w false).0) refl

all_elements : (eyes : Eyes) (w : World) → (all_seen eyes w).elements ≡ (eyes.look w false).0
unfolding perceived cap
all_elements eyes w = refl

-- Why there is nothing to click: no id, no element with it on the screen now, or no such button.
abbrev pub Misses : List Element → String → String → Type 0
Misses es id button =
    (id ≡ "") ⊎ (All (λ (d : Element). d.id ≡ id → ⊥) es ⊎ (is_button (str button) ≡ false))

module _ (x : Executor) (signature : ℕ → World → String) (folder : String) where
  -- The click on the middle of `e` has been made.
  abbrev pub Clicks : World → Element → String → World → Type 0
  Clicks w e button w' =
      (cx cy : ℤ) × IsCentre cx cy e.bounds
      × (w' ≡ (act_parsed x signature (click_on button cx cy) 0 false w).1)

  detail_keeps : (e : Element) (o : Outcome Answer × World) → (with_detail e o).1 ≡ o.1
  unfolding with_detail
  detail_keeps e (done a, w) = refl
  detail_keeps e (raised x', w) = refl
  detail_keeps e (hang, w) = refl

  click_at-Clicks :
      (e : Element) (button : String) (w : World)
      → let w' = (click_at x signature folder e button w).1 in
        ((is_button (str button) ≡ false) × (w' ≡ w)) ⊎ Clicks w e button w'
  unfolding click_at Calls.fits
  click_at-Clicks e button w = elim (Bool-cases (is_button (str button))) [
    | inl fine ↦
        let (cx, cy) = center e.bounds in
        inr
          (cx, cy, center-IsCentre e.bounds, detail_keeps e called ∙ ap (λ o. o.1) (runs.0 fine w))
    | inr wrong ↦ inl (wrong, detail_keeps e called ∙ ap (λ o. o.1) (runs.1 wrong w).1)
  ]
    where
      aim : Calls.Call
      aim = Calls.click (some (center e.bounds).0) (some (center e.bounds).1) button 0 false

      called : Outcome Answer × World
      called = Calls.call x signature folder aim w

      runs :
          (Calls.fits x aim ≡ true → Runs x signature folder aim)
          × (Calls.fits x aim ≡ false → Refuses x signature folder aim)
      runs = call-Runs x signature folder aim

  -- A click on an element leaves the session as it was where the id is empty, no element that is on the
  -- screen now has it, or the button is unknown; else it is the click, as any other, with that button
  -- on the middle of the bounds (halves rounded towards 0) of an element that is on the screen now
  -- under the id.
  pub click_element-Aims :
      (eyes : Eyes) (id button : String) (w : World)
      → let w' = (click_element x signature folder eyes id button w).1 in
        let es = (eyes.look w false).0 in
        (Misses es id button × (w' ≡ w))
        ⊎ ((e : Element) × Mem e es × (e.id ≡ id) × Clicks w e button w')
  unfolding click_element
  click_element-Aims eyes id button w = elim (Bool-cases (id == "")) [
    | inl empty ↦ rw empty (inl (inl ((eq_iff id "").0 empty), refl))
    | inr named ↦ elim (Option-cases (find_element id (all_seen eyes w).elements)) [
      | inl gone ↦
          rw (named, perceive_all eyes w, gone)
            (inl (inr (inl (find_element-gone id es (here gone))), refl))
      | inr (e, found) ↦
          rw (named, perceive_all eyes w, found)
            (aimed e (find_element-Mem id es e (here found)) (click_at-Clicks e button w))
    ]
  ]
    where
      es : List Element
      es = (eyes.look w false).0

      here :
          {o : Option Element}
          → find_element id (all_seen eyes w).elements ≡ o
          → find_element id es ≡ o
      here {o} found = subst (λ ds. find_element id ds ≡ o) (all_elements eyes w) found

      aimed :
          (e : Element)
          → Mem e es × (e.id ≡ id)
          → {w' : World} → ((is_button (str button) ≡ false) × (w' ≡ w)) ⊎ Clicks w e button w'
          → (Misses es id button × (w' ≡ w))
            ⊎ ((d : Element) × Mem d es × (d.id ≡ id) × Clicks w d button w')
      aimed e seen (inl (wrong, kept)) = inl (inr (inr wrong), kept)
      aimed e (in_view, named) (inr clicked) = inr (e, in_view, named, clicked)
