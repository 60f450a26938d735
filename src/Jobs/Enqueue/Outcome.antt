-- ===== src/Jobs/Enqueue/Outcome.antt =====
-- The two ends of a call, and what an accepted input can name.
use arbeiterfarm.Base.{
  ℕ, ◌≤◌, ◌≡◌, sym, ap, subst, ◌∙◌, ◌⊎◌, inl, inr, Bool, true, Option, some, List, [], ◌∷◌, ◌++◌,
  arith, ◌==◌, some_injective, length, any, All, try_then-inr, inr_injective,
}
use arbeiterfarm.Base.Text.{Text, mem_text}
use arbeiterfarm.Base.Json.{Json}
use arbeiterfarm.Core.Resolver.{resolve_schema_paths, extract_artifact_ids}
use arbeiterfarm.Core.Resolver.Paths.{Refers, IsPlain}
use arbeiterfarm.Core.Resolver.Completeness.{value_at, named_in, extract_artifact_ids_complete}
use arbeiterfarm.Jobs.ToolRuns.{new_row}
use arbeiterfarm.Jobs.Enqueue.{
  ToolSpec, ToolRequest, Database, Statement, EnqueueError, check_request, new_run, settle,
  enqueue_request,
}
use arbeiterfarm.Jobs.Enqueue.Transaction.{HadRoom, IsLinked, transact-inr}
use arbeiterfarm.Jobs.Enqueue.Accepted.{IsOwn, IsAllowed, check_request-inr}

settle-inr :
    (id i : ℕ) (db left : Database) (o : EnqueueError ⊎ Database)
    → settle id db o ≡ (inr i, left)
    → (i ≡ id) × (o ≡ inr left)
settle-inr id i db left (inl e) h = absurd (ground (arith, ap (λ x. x.0) h))
settle-inr id i db left (inr d) h =
    (inr_injective i id (sym (ap (λ x. x.0) h)), ap (λ x. inr (x.1)) h)

settle-inl :
    (id : ℕ) (e : EnqueueError) (db left : Database) (o : EnqueueError ⊎ Database)
    → settle id db o ≡ (inl e, left)
    → left ≡ db
settle-inl id e db left (inl f) h = sym (ap (λ x. x.1) h)
settle-inl id e db left (inr d) h = absurd (ground (arith, ap (λ x. x.0) h))

module _ (get_latest : Text → Option ToolSpec) (to_string : Json → Text)
    (parse_str : Text → Option ℕ) (refuses : Statement → Bool) (id now : ℕ) (request : ToolRequest)
    (subject : Option Text) (db left : Database) where
  -- A call that succeeds has found the tool, an input within the limits of size and depth and
  -- artifacts of the request's project only; its user had room for a run; and it has inserted one
  -- run, queued and not attempted, to which all of these artifacts are linked.
  pub enqueue_request-inr :
      (i : ℕ)
      → enqueue_request get_latest to_string parse_str refuses id now request subject db
        ≡ (inr i, left)
      → (spec : ToolSpec) × (ids : List ℕ) × IsAllowed get_latest to_string parse_str db request
          spec ids
        × HadRoom request.actor_user_id db
        × (left.tool_runs ≡ db.tool_runs ++ new_row i now (new_run spec request subject) ∷ [])
        × ((artifact : ℕ) → any (λ a. a == artifact) ids ≡ true → IsLinked i left.links artifact)
  unfolding enqueue_request
  enqueue_request-inr i h =
      let (same, o) = settle-inr id i db left _ h in
      let ((spec, ids), c, t) =
        try_then-inr (check_request get_latest to_string parse_str refuses request db) _ left o in
      let (rows, linked, room) =
        transact-inr refuses id now (new_run spec request subject) ids db left t in
      (
        spec,
        ids,
        check_request-inr get_latest to_string parse_str refuses request db spec ids c,
        room,
        subst
            (λ n.
              left.tool_runs ≡ db.tool_runs ++ new_row n now (new_run spec request subject) ∷ [])
            (sym same) rows,
        λ artifact m. subst (λ n. IsLinked n left.links artifact) (sym same) (linked artifact m),
      )

  -- A call that fails, at whatever statement, leaves the database as it was.
  pub enqueue_request-inl :
      (e : EnqueueError)
      → enqueue_request get_latest to_string parse_str refuses id now request subject db
        ≡ (inl e, left)
      → left ≡ db
  unfolding enqueue_request
  enqueue_request-inl e h = settle-inl id e db left _ h

  -- Where the schema of the tool refers to an artifact behind a chain of at most sixteen properties,
  -- none of them empty or with a slash, an accepted input names there only artifacts of the
  -- project of the request: each text is the uuid of one.
  pub enqueue_request-IsOwn :
      (i : ℕ) (spec : ToolSpec) (keys : List Text) (value : Json) (s : Text)
      → enqueue_request get_latest to_string parse_str refuses id now request subject db
        ≡ (inr i, left)
      → get_latest request.tool_name ≡ some spec
      → Refers spec.input_schema keys
      → length keys ≤ 16
      → All IsPlain keys
      → value_at keys request.input_json ≡ some value
      → mem_text s (named_in value) ≡ true
      → (artifact : ℕ) × (parse_str s ≡ some artifact) × IsOwn db request.project_id artifact
  enqueue_request-IsOwn i spec keys value s h g r l p v m =
      let (found, ids, (got, _, _, e, own), _, _, _) = enqueue_request-inr i h in
      let same = some_injective found spec (sym got ∙ g) in
      let (artifact, x, y) =
        extract_artifact_ids_complete parse_str spec.input_schema request.input_json value keys s
          ids r l p v m
          (subst
            (λ t.
              extract_artifact_ids parse_str request.input_json
                (resolve_schema_paths t.input_schema)
              ≡ inr ids)
            same e) in
      (artifact, x, own artifact y)
