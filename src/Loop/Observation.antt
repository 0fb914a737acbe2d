-- ===== src/Loop/Observation.antt =====
-- src/desktop_worker/schema/observations.py, as far as the loop reads it, and the signature by which
-- src/desktop_worker/loop/task_loop.py tells whether the desktop changed.
use desktop_worker.Prelude.{
  String, ◌<>◌, Option, none, some, List, [], ◌∷◌, length, take, string_eq,
}
use desktop_worker.Prelude.Int.{ℤ}
use desktop_worker.Prelude.Decimal.{decimal}
use desktop_worker.Value.{Items, Dict, nil, cons, int, float, str, list, dict, end, field}
use desktop_worker.Broker.Cli.{opt_text}

pub record Element : Type 0 where
  pub id : String
  pub type : String
  pub bounds : ℤ × ℤ × ℤ × ℤ
  pub source : String
  pub text : Option String
  pub label : Option String
  -- a float, in its printed form
  pub confidence : String

-- `Element.to_dict`
unfoldable pub element_to_dict : Element → Dict
element_to_dict e =
    let (l, t, r, b) = e.bounds in
    let bounds = list (cons (int l) (cons (int t) (cons (int r) (cons (int b) nil)))) in
    field "id" (str e.id) (
      field "type" (str e.type) (
        field "bounds" bounds (
          field "source" (str e.source) (
            field "text" (opt_text e.text)
              (field "label" (opt_text e.label) (field "confidence" (float e.confidence) end))))))

-- The active window is known by its title.
pub record Observation : Type 0 where
  pub active_window : Option String
  pub screenshot_ref : Option String
  pub elements : List Element

abbrev pub title_of : Option String → String
title_of none = ""
title_of (some title) = title

-- `[e.to_dict() for e in obs.elements]`
abbrev pub elements_to_items : List Element → Items
elements_to_items [] = nil
elements_to_items (e ∷ es) = cons (dict (element_to_dict e)) (elements_to_items es)

abbrev pub printed : Option String → String
printed none = "None"
printed (some s) = s

-- `"|".join(f"{e.type}:{e.text}" for e in …)`
unfoldable pub joined : List Element → String
joined [] = ""
joined (e ∷ []) = e.type <> ":" <> printed e.text
joined (e ∷ es) = e.type <> ":" <> printed e.text <> "|" <> joined es

-- `_obs_signature`
unfoldable pub obs_signature : Observation → String
unfolding joined
obs_signature obs =
    title_of obs.active_window
    <> "#"
    <> decimal (length obs.elements)
    <> "#"
    <> joined (take 30 obs.elements)
