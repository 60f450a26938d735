-- ===== src/Jobs/Worker/Examples.antt =====
-- A worker over one queued run.
use arbeiterfarm.Base.{
  ℕ, ◌≡◌, refl, inl, inr, Bool, true, false, Option, none, some, List, [], ◌∷◌, map,
}
use arbeiterfarm.Base.Text.{lit, text_eq}
use arbeiterfarm.Base.Json.{null}
use arbeiterfarm.Jobs.ToolRuns.{
  Status, update, NewRun, new_row, oldest_queued, claimed, claim, complete, heartbeat, running,
  completed,
}
use arbeiterfarm.Jobs.Lifecycle.{lease_duration_secs}
use arbeiterfarm.Jobs.Enqueue.{link_artifact}
use arbeiterfarm.Jobs.Worker.{
  Tools, Store, audit, link_outputs, scoped_complete, store_result, execute_claimed, check_run,
  try_execute_one, no_tool, finished,
}
use arbeiterfarm.Jobs.Worker.Ends.{IsOutcome, try_execute_one-IsOutcome}

abbrev a_run : NewRun
a_run = record {
  project_id = 1;
  tool_name = lit "file.info";
  tool_version = 1;
  input_json = null;
  thread_id = none;
  parent_message_id = none;
  actor_subject = none;
  actor_user_id = some 7;
}

abbrev one_queued : Store
one_queued = record { tool_runs = new_row 1 0 a_run ∷ []; links = []; audit_log = [] }

-- A worker that knows the tool or not, whose tool answers a text and one artifact.
abbrev worker : Bool → Tools
worker known = record {
  has_spec = λ name version. known;
  has_executor = λ name version. true;
  build_context = λ run. true;
  execute = λ run. finished (record {
    output = record { output_json = null; output_kind = lit "text"; stdout = none; stderr = none };
    produced_artifacts = 3 ∷ [];
  });
  refuses = λ s. false;
  locked = λ id. false;
  meanwhile = heartbeat 30 1 lease_duration_secs;
}

abbrev standing : Store → List (Status × Option ℕ)
standing s = map (λ r. (r.status, r.lease_expires)) s.tool_runs

one_round :
    ((try_execute_one (worker true) 10 40 one_queued).0 ≡ inr true)
    × (standing (try_execute_one (worker true) 10 40 one_queued).1 ≡ (completed, some 150) ∷ [])
    × ((try_execute_one (worker true) 10 40 one_queued).1.links
        ≡ record { tool_run_id = 1; artifact_id = 3; role = lit "output" } ∷ [])
    × ((try_execute_one (worker false) 10 40 one_queued).0 ≡ inl (no_tool (lit "file.info")))
    × (standing (try_execute_one (worker false) 10 40 one_queued).1 ≡ (running, some 130) ∷ [])
unfolding try_execute_one check_run execute_claimed store_result scoped_complete link_outputs
    link_artifact audit claim claimed oldest_queued update complete heartbeat new_row text_eq
one_round = (refl, refl, refl, refl, refl)

try_execute_one-IsOutcome_example :
    IsOutcome (worker true) 10 one_queued (try_execute_one (worker true) 10 40 one_queued)
try_execute_one-IsOutcome_example =
    try_execute_one-IsOutcome (worker true) 10 40 one_queued (λ s. refl)
