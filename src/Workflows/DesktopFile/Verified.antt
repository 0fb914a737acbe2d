-- ===== src/Workflows/DesktopFile/Verified.antt =====
-- src/desktop_worker/workflows/desktop_file.py: success is claimed only for a file with the content.
use desktop_worker.Prelude.{
  String, Bool, true, false, not, ◌≡◌, ◌⊎◌, refl, Option, none, some, Bool-cases, inl, inr,
  if◌then◌else◌,
}
use desktop_worker.Prelude.Int.{ℤ}
use desktop_worker.Value.{Dict}
use desktop_worker.Actions.Executor.Dispatch.{Executor}
use desktop_worker.Session.{World, Outcome, done, raised, hang}
use desktop_worker.Workflows.Steps.{Desk, Flow, ◌then◌, do_step, hotkey}
use desktop_worker.Workflows.DesktopFile.{
  CreateDesktopFileResult, Job, fail, require, attempt, found, is_verified, verify_again, retry,
  verify_content, type_content, wait_editor, open_file, name_file, pick_text_document, click_new,
  new_in_menu, show_more, find_new, create_desktop_text_file,
}

-- A result is no success, or `P` holds of the session at the end.
abbrev pub Vouches : (World → Type 0) → Outcome CreateDesktopFileResult × Desk → Type 0
Vouches P (done r, desk) = (r.success ≡ false) ⊎ P desk.world
Vouches P (raised e, desk) = Unit
Vouches P (hang, desk) = Unit

module _ (P : World → Type 0) where
  after :
      {A : Type 0} (o : Outcome A × Desk) (f : A → Flow CreateDesktopFileResult)
      → ((a : A) (desk : Desk) → Vouches P (f a desk))
      → let out : Outcome CreateDesktopFileResult × Desk = elim o.0 [
        | done a ↦ f a o.1
        | raised e ↦ (raised e, o.1)
        | hang ↦ (hang, o.1)
      ] in
        Vouches P out
  after (done a, desk) f h = h a desk
  after (raised e, desk) f h = tt
  after (hang, desk) f h = tt

module _ (x : Executor) (job : Job) where
  -- The file has the content, but for white space around it.
  abbrev pub IsVerified : World → Type 0
  IsVerified w = is_verified x job w ≡ true

  -- From every desk, a success is of a file with the content.
  abbrev Sure : Flow CreateDesktopFileResult → Type 0
  Sure m = (desk : Desk) → Vouches IsVerified (m desk)

  Sure-fail : (msg : String) → Sure (fail x job msg)
  Sure-fail msg desk = inl refl

  Sure-if :
      (ok : Bool) (msg : String) (next : Flow CreateDesktopFileResult)
      → Sure next
      → Sure (if not ok then fail x job msg else next)
  Sure-if true msg next h = h
  Sure-if false msg next h = Sure-fail msg

  Sure-require :
      (d : Dict) (label msg : String) (next : Flow CreateDesktopFileResult)
      → Sure next
      → Sure (require x job d label msg next)
  Sure-require d label msg next h desk =
      after IsVerified (do_step x d label desk) _ λ ok. Sure-if ok msg next h

  Sure-attempt :
      (d : Dict) (label : String) (next : Flow CreateDesktopFileResult)
      → Sure next
      → Sure (attempt x job d label next)
  Sure-attempt d label next h desk = after IsVerified (do_step x d label desk) _ λ ok. h

  Sure-found :
      (o : Option (ℤ × ℤ)) (msg : String) (next : ℤ × ℤ → Flow CreateDesktopFileResult)
      → ((xy : ℤ × ℤ) → Sure (next xy))
      → Sure (found x job o msg next)
  Sure-found none msg next h = Sure-fail msg
  Sure-found (some xy) msg next h = h xy

  Sure-verify_again : Sure (verify_again x job)
  Sure-verify_again desk = elim (Bool-cases (is_verified x job desk.world)) [
    | inl good ↦ rw good (inr good)
    | inr bad ↦ rw bad (inl refl)
  ]

  Sure-retry : Sure (retry x job)
  Sure-retry = Sure-attempt _ _ _ (Sure-attempt _ _ _ (Sure-attempt _ _ _ Sure-verify_again))

  Sure-verify_content : Sure (verify_content x job)
  Sure-verify_content desk = elim (Bool-cases (is_verified x job desk.world)) [
    | inl good ↦ rw good (inr good)
    | inr bad ↦ rw bad (Sure-retry _)
  ]

  Sure-type_content : Sure (type_content x job)
  Sure-type_content =
      Sure-require _ _ "typing content failed" _
        (Sure-attempt (hotkey "S") "save (Ctrl+S)" _ Sure-verify_content)

  Sure-wait_editor : Sure (wait_editor x job)
  unfolding wait_editor
  Sure-wait_editor desk = Sure-type_content _

  Sure-open_file : Sure (open_file x job)
  unfolding open_file
  Sure-open_file desk =
      Sure-found _ _ _ (λ xy. Sure-require _ _ "double-click failed" _ Sure-wait_editor) desk

  Sure-name_file : Sure (name_file x job)
  unfolding name_file
  Sure-name_file = Sure-attempt _ _ _ (Sure-attempt _ _ _ Sure-open_file)

  Sure-pick_text_document : Sure (pick_text_document x job)
  unfolding pick_text_document
  Sure-pick_text_document desk =
      Sure-found _ _ _ (λ xy. Sure-require _ _ "click Text Document failed" _ Sure-name_file) desk

  Sure-click_new : (new : Option (ℤ × ℤ)) → Sure (click_new x job new)
  unfolding click_new
  Sure-click_new new =
      Sure-found _ _ _ (λ xy. Sure-require _ _ "click New failed" _ Sure-pick_text_document)

  Sure-show_more : (more : Option (ℤ × ℤ)) → Sure (show_more x job more)
  unfolding show_more
  Sure-show_more none = Sure-click_new none
  Sure-show_more (some xy) =
      Sure-attempt _ _ _ (λ desk. Sure-click_new (new_in_menu x job desk.world) desk)

  Sure-find_new : (new : Option (ℤ × ℤ)) → Sure (find_new x job new)
  unfolding find_new
  Sure-find_new (some xy) desk = Sure-click_new (some xy) desk
  Sure-find_new none desk = Sure-show_more _ desk

  -- A success is claimed only where the file at the path has the content at the end, but for white
  -- space around it.
  pub create_desktop_text_file-IsVerified :
      (desk : Desk) → Vouches IsVerified (create_desktop_text_file x job desk)
  unfolding create_desktop_text_file
  create_desktop_text_file-IsVerified desk =
      Sure-require _ _ "right-click failed" _ (λ d. Sure-find_new (new_in_menu x job d.world) d) _
