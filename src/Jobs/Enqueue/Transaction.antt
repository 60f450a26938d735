-- ===== src/Jobs/Enqueue/Transaction.antt =====
-- What a transaction that commits has done.
use arbeiterfarm.Base.{
  ℕ, ◌<◌, ◌≡◌, sym, ap, subst, ◌∙◌, ◌⊎◌, inl, inr, Bool, true, false, Option, none, some, List, [],
  ◌∷◌, ◌++◌, arith, ◌==◌, ==_iff, Bool-cases, if_of_true, if_of_false, some_injective, any,
  any-append, try_then-inr, inr_injective, guard-passed,
}
use arbeiterfarm.Base.Text.{lit, text_eq_refl}
use arbeiterfarm.Jobs.ToolRuns.{NewRun, new_row, enqueue}
use arbeiterfarm.Jobs.Quotas.{UserQuotaRow, get_quota, count_active_runs, over_quota}
use arbeiterfarm.Jobs.Lifecycle.Weights.{under_quota}
use arbeiterfarm.Jobs.Enqueue.{
  Link, Database, Statement, record_tool_run, same_link, link_artifact, admit_user, admit,
  link_inputs, transact, begin, lock, count_runs, read_quota, record_usage, insert_run, commit,
  link, db_error, quota_exceeded,
}

-- The room that a user had.
abbrev pub HadRoom : Option ℕ → Database → Type 0
HadRoom actor db =
    (user : ℕ) (q : UserQuotaRow)
    → actor ≡ some user
    → get_quota user db.quotas ≡ some q
    → count_active_runs user db.tool_runs < q.max_concurrent_runs

-- The quota of the user is checked, and no runs are changed by it.
admit-inr :
    (refuses : Statement → Bool) (actor : Option ℕ) (db left : Database)
    → admit refuses actor db ≡ inr left
    → (left.tool_runs ≡ db.tool_runs) × (left.links ≡ db.links) × HadRoom actor db
unfolding admit admit_user
admit-inr refuses none db left h = (
  ap (λ d. d.tool_runs) (sym (inr_injective db left h)),
  ap (λ d. d.links) (sym (inr_injective db left h)),
  λ user q e g. absurd (ground (arith, e)),
)
admit-inr refuses (some user) db left h =
    let (_, h1) = guard-passed (refuses lock) (db_error lock) _ left h in
    let (_, h2) = guard-passed (refuses count_runs) (db_error count_runs) _ left h1 in
    let (_, h3) = guard-passed (refuses read_quota) (db_error read_quota) _ left h2 in
    let (under, h4) =
      guard-passed (over_quota (count_active_runs user db.tool_runs) (get_quota user db.quotas))
        (quota_exceeded _) _ left h3 in
    let (_, h5) = guard-passed (refuses record_usage) (db_error insert_run) _ left h4 in
    let done = inr_injective (record db { usage = record_tool_run user db.usage }) left h5 in
    (
      ap (λ d. d.tool_runs) (sym done),
      ap (λ d. d.links) (sym done),
      λ owner q e g.
          under_quota (count_active_runs owner db.tool_runs) q (get_quota owner db.quotas) g (
            subst
              (λ u. over_quota (count_active_runs u db.tool_runs) (get_quota u db.quotas) ≡ false)
              (some_injective user owner e) under),
    )

-- An artifact is linked to a run.
abbrev pub IsLinked : ℕ → List Link → ℕ → Type 0
IsLinked run links artifact = any (same_link run artifact (lit "input")) links ≡ true

link_artifact_self :
    (run artifact : ℕ) (links : List Link)
    → IsLinked run (link_artifact run artifact (lit "input") links) artifact
unfolding link_artifact
link_artifact_self run artifact links =
    elim (Bool-cases (any (same_link run artifact (lit "input")) links)) [
      | inl e ↦ subst (λ x. IsLinked run x artifact) (sym (if_of_true _ links _ e)) e
      | inr e ↦
          subst (λ x. IsLinked run x artifact) (sym (if_of_false _ links _ e))
            (any-append (same_link run artifact (lit "input")) links _
              ∙ ground (arith, text_eq_refl (lit "input")))
    ]

link_artifact-keeps :
    (run artifact other : ℕ) (links : List Link)
    → IsLinked run links other
    → IsLinked run (link_artifact run artifact (lit "input") links) other
unfolding link_artifact
link_artifact-keeps run artifact other links h =
    elim (Bool-cases (any (same_link run artifact (lit "input")) links)) [
      | inl e ↦ subst (λ x. IsLinked run x other) (sym (if_of_true _ links _ e)) h
      | inr e ↦
          subst (λ x. IsLinked run x other) (sym (if_of_false _ links _ e))
            (any-append (same_link run other (lit "input")) links _ ∙ ground (arith, h))
    ]

link_inputs-IsLinked :
    (refuses : Statement → Bool) (run : ℕ) (ids : List ℕ) (links left : List Link)
    → link_inputs refuses run ids links ≡ inr left
    → (id : ℕ) → any (λ i. i == id) ids ≡ true ⊎ IsLinked run links id
    → IsLinked run left id
unfolding link_inputs
link_inputs-IsLinked refuses run [] links left h id (inl m) = absurd (ground (arith, m))
link_inputs-IsLinked refuses run [] links left h id (inr l) =
    subst (λ x. IsLinked run x id) (inr_injective links left h) l
link_inputs-IsLinked refuses run (aid ∷ rest) links left h id m =
    let (_, k) = guard-passed (refuses (link aid)) (db_error (link aid)) _ left h in
    link_inputs-IsLinked refuses run rest (link_artifact run aid (lit "input") links) left k id
      (elim m [
        | inr l ↦ inr (link_artifact-keeps run aid id links l)
        | inl l ↦ elim (Bool-cases (aid == id)) [
          | inl e ↦ inr (
              subst (λ n. IsLinked run (link_artifact run aid (lit "input") links) n)
                ((==_iff aid id).0 e) (link_artifact_self run aid links))
          | inr e ↦ inl (ground (arith, l, e))
        ]
      ])

-- A transaction that commits has inserted one run, queued, for a user who had room for it, and
-- linked every artifact to it.
pub transact-inr :
    (refuses : Statement → Bool) (id now : ℕ) (run : NewRun) (ids : List ℕ) (db left : Database)
    → transact refuses id now run ids db ≡ inr left
    → (left.tool_runs ≡ db.tool_runs ++ new_row id now run ∷ [])
      × ((artifact : ℕ) → any (λ i. i == artifact) ids ≡ true → IsLinked id left.links artifact)
      × HadRoom run.actor_user_id db
unfolding transact enqueue
transact-inr refuses id now run ids db left h =
    let (_, h1) = guard-passed (refuses begin) (db_error begin) _ left h in
    let (admitted, a, h2) = try_then-inr (admit refuses run.actor_user_id db) _ left h1 in
    let (_, h3) = guard-passed (refuses insert_run) (db_error insert_run) _ left h2 in
    let (links, l, h4) = try_then-inr (link_inputs refuses id ids admitted.links) _ left h3 in
    let (_, h5) = guard-passed (refuses commit) (db_error commit) _ left h4 in
    let done =
      inr_injective
        (record admitted {
          tool_runs = admitted.tool_runs ++ new_row id now run ∷ [];
          links = links;
        })
        left h5 in
    let (same, _, room) = admit-inr refuses run.actor_user_id db admitted a in
    (
      ap (λ d. d.tool_runs) (sym done) ∙ ap (λ t. t ++ new_row id now run ∷ []) same,
      λ artifact m.
          subst (λ x. IsLinked id x artifact) (ap (λ d. d.links) done)
            (link_inputs-IsLinked refuses id ids admitted.links links l artifact (inl m)),
      room,
    )
