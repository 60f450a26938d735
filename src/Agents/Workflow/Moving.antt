-- ===== src/Agents/Workflow/Moving.antt =====
-- The group of each key after the priority branch.
use arbeiterfarm.Base.{
  ℕ, suc, ◌≤◌, ◌<◌, ◌≡◌, refl, false, some, List, [], ◌∷◌, ◌++◌, arith, ◌==◌, if◌then◌else◌,
}
use arbeiterfarm.Base.Text.{Text, lit}
use arbeiterfarm.Agents.Signals.{AgentSignal}
use arbeiterfarm.Agents.Workflow.{
  WorkflowStep, Groups, push_step, without_agent, keep_group, find_step, find_later, remove_from,
  hastened_step, apply_priority,
}
use arbeiterfarm.Agents.Workflow.Plan.{IsPlan, remove_from-IsPlan}
use arbeiterfarm.Agents.Workflow.Counting.{group_at}

-- No group has a key below the lowest one.
group_at-below : (low n : ℕ) (gs : Groups) → IsPlan low gs → n < low → group_at n gs ≡ []
group_at-below low n [] p h = refl
group_at-below low n ((g, steps) ∷ gs) p h = ground (arith, p.0, group_at-below (suc g) n gs p.2)

group_at-keep_group :
    (g n : ℕ) (steps : List WorkflowStep) (gs : Groups)
    → IsPlan (suc g) gs
    → group_at n (keep_group g steps gs) ≡ (if g == n then steps else group_at n gs)
group_at-keep_group g n [] gs p = ground (arith, group_at-below (suc g) n gs p)
group_at-keep_group g n (s ∷ steps) gs p = refl

group_at-remove_from :
    (low n : ℕ) (t : Text) (from : ℕ) (gs : Groups)
    → IsPlan low gs
    → group_at n (remove_from t from gs)
      ≡ (if n == from then without_agent t (group_at n gs) else group_at n gs)
unfolding remove_from
group_at-remove_from low n t from [] p = ground arith
group_at-remove_from low n t from ((g, steps) ∷ gs) p = ground (
  arith,
  group_at-keep_group g n (without_agent t steps) gs p.2,
  group_at-remove_from (suc g) n t from gs p.2,
)

group_at-push_step :
    (low n next : ℕ) (step : WorkflowStep) (gs : Groups)
    → IsPlan low gs
    → group_at n (push_step next step gs)
      ≡ (if n == next then group_at n gs ++ step ∷ [] else group_at n gs)
unfolding push_step
group_at-push_step low n next step [] p = ground arith
group_at-push_step low n next step ((g, steps) ∷ gs) p =
    ground (arith, group_at-below (suc g) n gs p.2, group_at-push_step (suc g) n next step gs p.2)

-- The search finds the first step of its target in a group other than the next one.
find_later-group :
    (low : ℕ) (t : Text) (next from : ℕ) (step : WorkflowStep) (gs : Groups)
    → IsPlan low gs
    → find_later t next gs ≡ some (from, step)
    → (low ≤ from) × ((from == next) ≡ false) × (find_step t (group_at from gs) ≡ some step)
unfolding find_later
find_later-group low t next from step [] p h = absurd (ground arith)
find_later-group low t next from step ((g, steps) ∷ gs) p h =
    ground (arith, p.0, find_later-group (suc g) t next from step gs p.2)

-- In a plan without empty groups, when the priority branch finds a step of its target, it is the
-- first one of the target in the group `from`, which is not the next group. It stands at the end of
-- the next group afterwards, with the reason behind its prompt; from the group `from` every step of
-- the target is gone; and every other group is what it was.
pub group_at-priority :
    (low next from : ℕ) (s : AgentSignal) (step : WorkflowStep) (gs : Groups)
    → IsPlan low gs
    → find_later s.target_agent next gs ≡ some (from, step)
    → let moved : WorkflowStep = record step {
      group = next;
      prompt = step.prompt ++ (lit " [PRIORITY: " ++ (s.reason ++ lit "]"));
    } in
      ((from == next) ≡ false)
      × (find_step s.target_agent (group_at from gs) ≡ some step)
      × ((n : ℕ)
          → group_at n (apply_priority next s gs).0 ≡ (
              if n == next
              then group_at n gs ++ moved ∷ []
              else if n == from
              then without_agent s.target_agent (group_at n gs)
              else group_at n gs))
unfolding hastened_step apply_priority
group_at-priority low next from s step gs p e =
    let (le, other, found) = find_later-group low s.target_agent next from step gs p e in
    (
      other,
      found,
      λ n.
          rw (e, apply_priority)
            (ground (
              arith,
              other,
              group_at-push_step low n next (hastened_step next s step)
                  (remove_from s.target_agent from gs)
                  (remove_from-IsPlan low s.target_agent from gs p),
              group_at-remove_from low n s.target_agent from gs p,
            )),
    )
