-- ===== src/Bridge/Perceive/Account.antt =====
-- src/desktop_worker/mcp_server/bridge.py: perceive tells of every element that it leaves out.
use desktop_worker.Prelude.{
  ℕ, zero, suc, ◌+◌, ◌-◌, ◌≤◌, ◌<◌, Bool, false, ◌≡◌, refl, subst, inl, inr, Option, List, [], ◌∷◌,
  Bool-cases, length, take, ltb, arith, ◌&&◌,
}
use desktop_worker.Prelude.Int.{pos}
use desktop_worker.Prelude.Text.{lower, strip}
use desktop_worker.Errors.{ok, Result-cases}
use desktop_worker.Loop.Observation.{Element}
use desktop_worker.Perception.Rank.{Report}
use desktop_worker.Perception.Perceiver.{Bounds}
use desktop_worker.Session.{World}
use desktop_worker.Bridge.Perceive.{
  Eyes, Filter, Perceived, perceive, perceived, filter_elements, fits_filter, region_of, select,
}

length-take : (n : ℕ) (es : List Element) → n < length es → length (take n es) ≡ n
length-take zero es h = omega arith
length-take (suc n) [] h = absurd (omega arith)
length-take (suc n) (e ∷ es) h = omega (arith, length-take n es)

length-select : (p : Element → Bool) (es : List Element) → length (select p es) ≤ length es
unfolding select
length-select p [] = omega arith
length-select p (e ∷ es) = ground (arith, length-select p es)

-- The elements that are asked for, of those on the screen.
abbrev pub asked_for : Filter → Option Bounds → List Element → List Element
asked_for f box es =
    select (fits_filter (lower (strip f.control_type)) (lower (strip f.text_contains)) box) es

-- What an answer tells, for a limit of `n` elements, where 0 is none.
pub record Accounts (n : ℕ) (es kept : List Element) (seen : Perceived) : Type 0 where
  pub adds_up : seen.shown + seen.capped_by_request + seen.filtered_out ≡ length es
  pub counted : seen.shown ≡ length seen.elements
  pub within : 0 < n → seen.shown ≤ n
  pub some_left_out : seen.capped_by_request ≡ length kept - seen.shown
  pub whole : seen.truncated ≡ false → (seen.elements ≡ kept) × (seen.report.truncated ≡ false)

perceived-Accounts :
    (shot ocr : Bool) (es kept : List Element) (report : Option Report) (n : ℕ)
    → length kept ≤ length es
    → Accounts n es kept (perceived shot ocr es report kept (pos n))
unfolding perceived
perceived-Accounts shot ocr es kept report n le =
    elim (Bool-cases (ltb 0 n && ltb n (length kept))) [
      | inl e ↦ rw e (record {
        adds_up = ground (arith, length-take n kept);
        counted = refl;
        within = λ pos_n. ground (arith, length-take n kept);
        some_left_out = ground (arith, length-take n kept);
        whole = λ h. absurd (ground arith);
      })
      | inr e ↦ rw e (record {
        adds_up = omega arith;
        counted = refl;
        within = λ pos_n. ground arith;
        some_left_out = omega arith;
        whole = λ h. (refl, ground arith);
      })
    ]

-- What perceive answers to a limit of `n` elements (0 for none) accounts for every element on the
-- screen: it is shown, left out by the limit, or left out by the criteria.
pub perceive-Accounts :
    (eyes : Eyes) (shot : Bool) (f : Filter) (w : World) (n : ℕ) (seen : Perceived)
    → f.max_elements ≡ pos n
    → perceive eyes shot f w ≡ ok seen
    → (box : Option Bounds) × (region_of eyes.to_int f.region ≡ ok box)
      × Accounts n (eyes.look w shot).0 (asked_for f box (eyes.look w shot).0) seen
unfolding perceive filter_elements
perceive-Accounts eyes shot f w n seen limit h =
    elim (Result-cases (region_of eyes.to_int f.region)) [
      | inl (e, failed) ↦ absurd (ground arith)
      | inr (box, found) ↦ (
        box,
        found,
        subst (Accounts n es (kept box)) (answer box found) (
            perceived-Accounts shot eyes.ocr_available es (kept box) (eyes.look w shot).1 n
              (length-select _ es)),
      )
    ]
  where
    es : List Element
    es = (eyes.look w shot).0

    kept : Option Bounds → List Element
    kept box = asked_for f box es

    answer :
        (box : Option Bounds)
        → region_of eyes.to_int f.region ≡ ok box
        → perceived shot eyes.ocr_available es (eyes.look w shot).1 (kept box) (pos n) ≡ seen
    answer box found = ground arith
