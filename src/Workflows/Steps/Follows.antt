-- ===== src/Workflows/Steps/Follows.antt =====
-- src/desktop_worker/workflows: a workflow does what a script says.
use desktop_worker.Prelude.{
  Option, none, some, String, ◌<>◌, Bool, true, false, not, ◌≡◌, refl, List, [], ◌∷◌, ◌&&◌,
  if◌then◌else◌,
}
use desktop_worker.Value.{Dict}
use desktop_worker.Actions.Executor.Dispatch.{Executor}
use desktop_worker.Session.{World, Outcome, done, raised, hang}
use desktop_worker.Workflows.Steps.{Desk, Flow, ◌then◌, do_step, perform, follow, note, mark}

-- The same end: a result that is as good as the script says, or the same exception.
abbrev pub Agrees : {R : Type 0} → (R → Bool) → Outcome R → Outcome Bool → Type 0
Agrees good (done r) (done b) = good r ≡ b
Agrees good (raised e) (raised f) = e ≡ f
Agrees good hang hang = Unit
Agrees good _ _ = ⊥

module _ {R : Type 0} (good : R → Bool) where
  -- The same session, and the same end.
  pub record Alike (out : Outcome R × Desk) (spec : Outcome Bool × World) : Type 0 where
    pub world : out.1.world ≡ spec.1
    pub ends : Agrees good out.0 spec.0

  pub alike_end :
      (r : R) (b : Bool) (desk : Desk) → good r ≡ b → Alike (done r, desk) (done b, desk.world)
  alike_end r b desk h = record { world = refl; ends = h }

  module _ (x : Executor) where
    -- From every desk, the workflow leaves the session that the script leaves, and ends as it does.
    abbrev pub Follows : List (Dict × Bool) → Flow R → Type 0
    Follows script m = (desk : Desk) → Alike (m desk) (follow x script desk.world)

    -- Where there is no script, the workflow fails and leaves the session alone.
    abbrev pub FollowsIf : Option (List (Dict × Bool)) → Desk → Outcome R × Desk → Type 0
    FollowsIf none desk out = Alike out (done false, desk.world)
    FollowsIf (some script) desk out = Alike out (follow x script desk.world)

    -- Behind a step that failed.
    abbrev pub Stops : Bool → List (Dict × Bool) → Flow R → Type 0
    Stops required script m =
        (desk : Desk)
        → Alike (m desk) (if required then (done false, desk.world) else follow x script desk.world)

    after_step :
        (p : Outcome Bool × World) (label : String) (required : Bool) (script : List (Dict × Bool))
        (f : Bool → Flow R) (desk : Desk)
        → Follows script (f true)
        → Stops required script (f false)
        → let stepped : Outcome Bool × Desk = elim p.0 [
          | done b ↦ (done b, note (mark b <> label) (record desk { world = p.1 }))
          | raised e ↦ (raised e, record desk { world = p.1 })
          | hang ↦ (hang, record desk { world = p.1 })
        ] in
          let out : Outcome R × Desk = elim stepped.0 [
            | done b ↦ f b stepped.1
            | raised e ↦ (raised e, stepped.1)
            | hang ↦ (hang, stepped.1)
          ] in
          let spec : Outcome Bool × World = elim p.0 [
            | done b ↦ if required && not b then (done false, p.1) else follow x script p.1
            | raised e ↦ (raised e, p.1)
            | hang ↦ (hang, p.1)
          ] in
          Alike out spec
    after_step (done true, w) label true script f desk goes stops = goes _
    after_step (done true, w) label false script f desk goes stops = goes _
    after_step (done false, w) label true script f desk goes stops = stops _
    after_step (done false, w) label false script f desk goes stops = stops _
    after_step (raised e, w) label required script f desk goes stops = record {
      world = refl;
      ends = refl;
    }
    after_step (hang, w) label required script f desk goes stops = record {
      world = refl;
      ends = tt;
    }

    -- A step of the workflow is the first of the script.
    pub Follows-step :
        (d : Dict) (label : String) (required : Bool) (script : List (Dict × Bool))
        (f : Bool → Flow R)
        → Follows script (f true)
        → Stops required script (f false)
        → Follows ((d, required) ∷ script) (do_step x d label then f)
    unfolding do_step follow
    Follows-step d label required script f goes stops desk =
        after_step (perform x d desk.world) label required script f desk goes stops

    -- A last step, whose success is that of the workflow.
    pub Follows-last :
        (d : Dict) (label : String) (f : Bool → Flow R)
        → ((b : Bool) (desk : Desk) → Alike (f b desk) (done b, desk.world))
        → Follows ((d, true) ∷ []) (do_step x d label then f)
    unfolding follow
    Follows-last d label f h = Follows-step d label true [] f (h true) (h false)
