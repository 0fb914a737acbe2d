-- ===== src/Scenarios/Seen.antt =====
-- Perception, the calls of the bridge that use it, and the AI planner on concrete inputs.
use mathlib.Core.List.{Mem}
use desktop_worker.Prelude.{
  ℕ, ◌≡◌, ◌⊎◌, refl, true, false, String, Option, none, some, List, [], ◌∷◌,
}
use desktop_worker.Prelude.Int.{ℤ, pos}
use desktop_worker.Prelude.Text.{lower, strip}
use desktop_worker.Errors.{runtime, ok, err}
use desktop_worker.Value.{Dict, dict, field, end, int, str}
use desktop_worker.Loop.Observation.{Element, Observation}
use desktop_worker.Session.{World}
use desktop_worker.Bridge.Perceive.{
  Eyes, Filter, Perceived, perceive, perceived, filter_elements, fits_filter, select, region_of,
  click_element, no_filter,
}
use desktop_worker.Bridge.Perceive.Account.{Accounts, asked_for, perceive-Accounts}
use desktop_worker.Bridge.Perceive.Click.{Misses, Clicks, click_element-Aims}
use desktop_worker.Planner.Answer.{Python}
use desktop_worker.Planner.Plan.{Settings, ClaudeCliPlanner, next_step, replan}
use desktop_worker.Planner.Plan.Valid.{Planned, answer_to, planner-Planned}
use desktop_worker.Planner.Plan.Budget.{Asked, planner-Counted}
use desktop_worker.Scenarios.Data.{start, plain, desk, step_of, click}

abbrev button : Element
button = record {
  id = "a:ok";
  type = "button";
  bounds = (pos 0, pos 0, pos 20, pos 10);
  source = "uia";
  text = some "OK";
  label = none;
  confidence = "0.99";
}

abbrev note : Element
note = record button { id = "a:note"; type = "text"; text = some "Sure?" }

abbrev elements : List Element
elements = note ∷ button ∷ []

abbrev eyes : Eyes
eyes = record {
  look = λ w shot. (elements, none);
  ocr_available = true;
  to_int = λ v. elim v [ int n ↦ ok n | _ ↦ err (runtime "no int") ];
}

abbrev one_button : Filter
one_button = record no_filter { control_type = "Button"; max_elements = pos 1 }

abbrev seen : Perceived
seen = perceived true true elements none (button ∷ []) (pos 1)

sees : perceive eyes true one_button start ≡ ok seen
unfolding perceive filter_elements region_of fits_filter select strip lower
sees = refl

perceive-Accounts_example :
    (box : Option (ℤ × ℤ × ℤ × ℤ)) × (region_of eyes.to_int one_button.region ≡ ok box)
    × Accounts 1 elements (asked_for one_button box elements) seen
perceive-Accounts_example = perceive-Accounts eyes true one_button start 1 seen refl sees

signed : ℕ → World → String
signed n w = "window"

click_element-Aims_example :
    let w' = (click_element plain signed "C:/work" eyes "a:ok" "left" start).1 in
    (Misses elements "a:ok" "left" × (w' ≡ start))
    ⊎ ((e : Element) × Mem e elements
        × (e.id ≡ "a:ok")
        × Clicks plain signed "C:/work" start e "left" w')
click_element-Aims_example = click_element-Aims plain signed "C:/work" eyes "a:ok" "left" start

abbrev reply : Dict
reply =
    field "action" (dict (field "type" (str "mouse.click") end))
      (field "elementId" (str "a:ok") end)

abbrev python : Python
python = record {
  loads = λ s. none;
  raw_decode = λ s. some (dict reply);
  dumps = λ v. "";
  repr = λ v. "";
  str_of = λ v. "";
}

abbrev settings : Settings (Unit {0})
settings = record {
  py = python;
  ask = λ m prompt. (ok "{", m);
  prompt = λ obs history note shot. shot;
  is_image = λ ref. true;
  crop_for_sketch = λ shot history. shot;
  note_of = λ step. "";
  vision = true;
  vision_threshold = 4;
  max_vision_steps = 6;
}

abbrev planner : ClaudeCliPlanner (Unit {0})
planner = record {
  asked = tt;
  vision_steps_used = 5;
  vision_active = false;
  last_reasoning = "";
  last_done_reason = "";
  last_infeasible = false;
  last_outcome = "done";
  last_error = "";
  logged = [];
}

abbrev shown : Observation
shown = record desk { screenshot_ref = some "shot.png"; elements = elements }

planner-Planned_example :
    Planned settings
      (answer_to settings "" shown [] planner)
      shown
      (next_step settings shown [] planner)
    × Planned settings
        (answer_to settings "" shown [] planner)
        shown
        (replan settings (step_of click) shown [] planner)
planner-Planned_example = planner-Planned settings shown [] (step_of click) planner

planner-Counted_example :
    Asked settings "" shown [] planner (next_step settings shown [] planner)
    × Asked settings
        (settings.note_of (step_of click))
        shown
        []
        planner
        (replan settings (step_of click) shown [] planner)
planner-Counted_example = planner-Counted settings shown [] (step_of click) planner
