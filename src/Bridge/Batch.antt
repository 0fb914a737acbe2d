-- ===== src/Bridge/Batch.antt =====
-- src/desktop_worker/mcp_server/bridge.py: what the answer of `act_many` counts.
use desktop_worker.Prelude.{
  ℕ, suc, ◌+◌, ◌≡◌, refl, subst, ap, sym, ◌∙◌, Bool, true, false, not, ◌&&◌, Option, none, some,
  List, [], ◌∷◌, length, arith, if◌then◌else◌,
}
use desktop_worker.Value.{Value, Items, nil, cons, list, dict, count_items}
use desktop_worker.Actions.Executor.Dispatch.{Executor}
use desktop_worker.Session.{World, Outcome, done, raised, hang}
use desktop_worker.Bridge.{
  Answer, Batched, batch, act_once, settle, act_many, many_answer, ManyAnswer, count_ok, later,
  failure_at,
}
use desktop_worker.Bridge.Ran.{ran, Leaves, batch-Leaves}

-- A batch of `n` actions from the index `i` on that stops at its first failure.
record Stops (i n : ℕ) (b : Batched) : Type 0 where
  pub all : b.1 ≡ none → (count_ok b.0 ≡ n) × (length b.0 ≡ n)
  pub first : (j : ℕ) → b.1 ≡ some j → (i + count_ok b.0 ≡ j) × (i + length b.0 ≡ j + 1)

abbrev StopsIn : ℕ → ℕ → Outcome Batched → Type 0
StopsIn i n (done b) = Stops i n b
StopsIn i n _ = Unit

record Lands (i n : ℕ) (out : Outcome Batched × World) : Type 0 where
  pub at : StopsIn i n out.0

first_fails :
    (i n : ℕ) (a : Answer) (w : World) → a.ok ≡ false → Lands i (suc n) (done (a ∷ [], some i), w)
unfolding count_ok
first_fails i n a w bad = record {
  at = record { all = λ h. absurd (cc); first = λ j h. (grind (arith, bad, h), grind (arith, h)) };
}

extended :
    (i n : ℕ) (a : Answer) (results : List Answer) (failed_at : Option ℕ)
    → a.ok ≡ true
    → Stops (i + 1) n (results, failed_at)
    → Stops i (suc n) (a ∷ results, later failed_at (failure_at i a))
unfolding count_ok
extended i n a results none good s = record {
  all = λ h. grind (arith, good, s.all refl);
  first = λ j h. absurd (ground (arith, good, h));
}
extended i n a results (some k) good s = record {
  all = λ h. absurd (cc);
  first = λ j h. grind (arith, good, s.first j h);
}

module _ (i n : ℕ) (a : Answer) where
  after_good :
      (s : Outcome Answer) (t : Outcome Batched) (w' w'' : World)
      → a.ok ≡ true
      → StopsIn (i + 1) n t
      → Lands i (suc n) (elim s [
        | raised e ↦ (raised e, w')
        | hang ↦ (hang, w')
        | done b ↦ elim t [
          | raised e ↦ (raised e, w'')
          | hang ↦ (hang, w'')
          | done (results, failed_at) ↦ (done (a ∷ results, later failed_at (failure_at i a)), w'')
        ]
      ])
  after_good (raised e) t w' w'' good h = record { at = tt }
  after_good hang t w' w'' good h = record { at = tt }
  after_good (done b) (raised e) w' w'' good h = record { at = tt }
  after_good (done b) hang w' w'' good h = record { at = tt }
  after_good (done b) (done (results, failed_at)) w' w'' good h = record {
    at = extended i n a results failed_at good h;
  }

  stop_or_go :
      (b : Bool) (w : World) (go : Outcome Batched × World)
      → a.ok ≡ b
      → (a.ok ≡ true → Lands i (suc n) go)
      → Lands i (suc n) (if not b && true then (done (a ∷ [], some i), w) else go)
  stop_or_go true w go e h = h e
  stop_or_go false w go e h = first_fails i n a w e

Lands-outcome :
    {A : Type 0} (i n : ℕ) (r : Outcome A) (w : World) (f : A → Outcome Batched × World)
    → ((a : A) → Lands i n (f a))
    → Lands i n (elim r [ raised e ↦ (raised e, w) | hang ↦ (hang, w) | done a ↦ f a ])
Lands-outcome i n (done a) w f h = h a
Lands-outcome i n (raised e) w f h = record { at = tt }
Lands-outcome i n hang w f h = record { at = tt }

Lands-batch :
    (x : Executor) (settle_ms i : ℕ) (vs : Items) (w : World)
    → Lands i (count_items vs) (batch x true settle_ms i vs w)
unfolding batch count_ok
Lands-batch x settle_ms i nil w = record {
  at = record { all = λ h. (refl, refl); first = λ j h. absurd (cc) };
}
Lands-batch x settle_ms i (cons (dict d) rest) w =
    Lands-outcome i (suc (count_items rest)) (act_once x (dict d) w).0 _ _ λ a.
      stop_or_go i (count_items rest) a a.ok _ _ refl λ good.
        after_good i (count_items rest) a (settle x settle_ms a _).0 _ _ _ good
          (Lands-batch x settle_ms (i + 1) rest _).at
Lands-batch x settle_ms i (cons _ rest) w = first_fails i (count_items rest) _ w refl

-- What the answer of `act_many` says of a list of actions that stops at its first failure.
pub record Tells (requested : ℕ) (m : ManyAnswer) : Type 0 where
  pub asked : m.requested ≡ requested
  -- a batch is good exactly when no action failed, and then every action is done
  pub good : m.ok ≡ true → (m.completed ≡ requested) × (length m.results ≡ requested)
  -- a batch that failed did the actions before the failure, and nothing behind it
  pub bad :
      m.ok ≡ false
      → (j : ℕ) × (m.failed_at ≡ some j) × (m.completed ≡ j) × (length m.results ≡ j + 1)

many_answer-Tells : (n : ℕ) (b : Batched) → Stops 0 n b → Tells n (many_answer n b)
unfolding many_answer
many_answer-Tells n (results, none) s = record {
  asked = refl;
  good = λ h. s.all refl;
  bad = λ h. absurd (cc);
}
many_answer-Tells n (results, some j) s =
    let (before, through) = s.first j refl in
    record {
      asked = refl;
      good = λ h. absurd (cc);
      bad = λ h. (j, refl, omega (arith, before), omega (arith, through));
    }

abbrev TellsIn : ℕ → Outcome ManyAnswer → Type 0
TellsIn n (done m) = Tells n m
TellsIn n _ = Unit

told :
    (n : ℕ) (r : Outcome Batched) (w : World)
    → StopsIn 0 n r
    → let out : Outcome ManyAnswer × World = elim r [
      | done b ↦ (done (many_answer n b), w)
      | raised e ↦ (raised e, w)
      | hang ↦ (hang, w)
    ] in
      TellsIn n out.0
told n (done b) w s = many_answer-Tells n b s
told n (raised e) w s = tt
told n hang w s = tt

abbrev LeavesMany : (ℕ → World) → Outcome ManyAnswer × World → Type 0
LeavesMany f (done m, w) = w ≡ f (length m.results)
LeavesMany f _ = Unit

many_answer-results : (n : ℕ) (b : Batched) → (many_answer n b).results ≡ b.0
unfolding many_answer
many_answer-results n (results, none) = refl
many_answer-results n (results, some i) = refl

left_by :
    (x : Executor) (settle_ms : ℕ) (vs : Items) (w : World) (n : ℕ) (t : Outcome Batched × World)
    → Leaves x settle_ms (λ k. ran x settle_ms k vs w) t
    → LeavesMany
        (λ k. ran x settle_ms k vs w)
        (elim t.0 [
          | done b ↦ (done (many_answer n b), t.1)
          | raised e ↦ (raised e, t.1)
          | hang ↦ (hang, t.1)
        ])
left_by x settle_ms vs w n (done b, w') h =
    h ∙ ap (λ rs. ran x settle_ms (length rs) vs w) (sym (many_answer-results n b))
left_by x settle_ms vs w n (raised e, w') h = tt
left_by x settle_ms vs w n (hang, w') h = tt

-- The answer of `act_many` that stops at a failure, for a list that is not empty: a good one did
-- every action, and a bad one names the index of the failure and did exactly the actions before it.
-- In both cases the session is the one behind the actions that have a result, each run once where
-- the one before it ended, with the wait behind each good one; so nothing ran behind a failure.
pub act_many-Tells :
    (x : Executor) (settle_ms : ℕ) (v : Value) (rest : Items) (w : World) (m : ManyAnswer)
    → (act_many x (list (cons v rest)) true settle_ms w).0 ≡ done m
    → Tells (count_items (cons v rest)) m
      × ((act_many x (list (cons v rest)) true settle_ms w).1
          ≡ ran x settle_ms (length m.results) (cons v rest) w)
unfolding act_many
act_many-Tells x settle_ms v rest w m h = (
  subst (TellsIn (count_items (cons v rest))) h
      (told (count_items (cons v rest)) _ _ (Lands-batch x settle_ms 0 (cons v rest) w).at),
  subst (λ o. LeavesMany (λ k. ran x settle_ms k (cons v rest) w) (o, out.1)) h
      (left_by x settle_ms (cons v rest) w (count_items (cons v rest))
        (batch x true settle_ms 0 (cons v rest) w) (batch-Leaves x settle_ms 0 (cons v rest) w)),
)
  where
    out : Outcome ManyAnswer × World
    out = act_many x (list (cons v rest)) true settle_ms w
