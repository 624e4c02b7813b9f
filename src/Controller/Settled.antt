-- ===== src/Controller/Settled.antt =====
-- How the goroutine of a task (internal/controller/diagnosistask_controller.go) leaves its task, in
-- a cluster that answers about it.
use kubeminds.Prelude.{◌≡◌, ◌⊎◌, ◌++◌, Option, some, List}
use kubeminds.Prelude.Bytes.{Str, lit}
use kubeminds.Prelude.Errors.{err, ok}
use kubeminds.Crd.{DiagnosisTask, DiagnosisTaskStatus, completed, waiting_approval, failed}
use kubeminds.Agent.Types.{KnowledgeFinding, waiting_for_approval, Tool}
use kubeminds.Agent.SkillManager.{SkillManager}
use kubeminds.Agent.Engine.{Outcome, concluded, aborted, BaseAgent}
use kubeminds.Controller.Reconcile.{Api, GetReply, found}
use kubeminds.Controller.Variants.{Variant}
use kubeminds.Agent.Loop.{run}
use kubeminds.Controller.Job.{goal_of, Deps, JobEnd, job_failed, finished, error_text}

-- The status says how a run ended.
abbrev pub Shows : (Str → Str) → Outcome → DiagnosisTaskStatus → Type 0
Shows quote (concluded r) s =
    (s.phase ≡ completed)
    × (s.report ≡ some (record { root_cause = r.root_cause; suggestion = r.suggestion }))
Shows quote (aborted (waiting_for_approval name)) s =
    (s.phase ≡ waiting_approval) × (s.message ≡ lit "Tool " ++ (name ++ lit " requires approval."))
Shows quote (aborted e) s =
    (s.phase ≡ failed)
    × (s.report
        ≡ some
            (record { root_cause = lit "Agent execution failed"; suggestion = error_text quote e }))

-- The task of the key is there.
abbrev pub IsThere : {W : Type 0} → (W → Option DiagnosisTask) → W → Type 0
IsThere there w = (u : DiagnosisTask) × (there w ≡ some u)

abbrev task_or : DiagnosisTask → GetReply → DiagnosisTask
task_or t (found u) = u
task_or t _ = t

module _ {W E : Type 0} (api : Api W) (deps : Deps W E) (key : Str) (sm : SkillManager)
    (t : DiagnosisTask) where
  -- The outcome of a run, with the goal and the approval of the task, of its agent: it has the tools,
  -- the model, the limit and the checkpoint callback of the goroutine and the skill that is matched.
  pub record RanTo (tools : List (Tool W)) (o : Outcome) : Type 0 where
    pub agent : BaseAgent W
    pub is_own : Variant api deps key sm t tools agent
    pub start : W
    pub is_outcome : (run deps.runtime agent t.spec.approved (goal_of t.spec.target) start).0 ≡ o

  -- How a goroutine that starts in a world ends: if the tools cannot be listed, with nothing written;
  -- else with the outcome of the run of its agent, which the task shows.
  abbrev pub Settles : (W → Option DiagnosisTask) → W → JobEnd × W → Type 0
  Settles there w end =
      ((e : Str) × ((deps.list_tools w).0 ≡ err e)
        × (end ≡ (job_failed (lit "failed to list tools: " ++ e), (deps.list_tools w).1)))
      ⊎ ((tools : List (Tool W)) × (o : Outcome) × (f : Option KnowledgeFinding)
          × (u : DiagnosisTask) × ((deps.list_tools w).0 ≡ ok tools)
          × RanTo tools o
          × (end.0 ≡ finished o f)
          × (there end.1 ≡ some u)
          × Shows deps.quote o u.status)
