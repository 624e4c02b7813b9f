-- ===== src/Examples/Reconciling.antt =====
-- A call of the reconciler on a pending task
-- (internal/controller/diagnosistask_controller.go). The cluster is the phase of its one task.
use kubeminds.Prelude.{◌≡◌, ◌≢◌, refl, false, [], none}
use kubeminds.Prelude.Bytes.{lit, str_eq}
use kubeminds.Prelude.Int.{pos}
use kubeminds.Prelude.Errors.{ok}
use kubeminds.Crd.{DiagnosisTask, DiagnosisPhase, pending, running, completed}
use kubeminds.Controller.Reconcile.{Api, found, Reconciler, starts, with_phase, reconcile}
use kubeminds.Controller.Agents.{IsLawful, reconcile-IsLawful}
use kubeminds.Controller.Phases.{Edge, first_seen, begins, resumes, Keeps, reconcile-keeps}

abbrev pub task : DiagnosisPhase → DiagnosisTask
task p = record {
  name = lit "t";
  namespace = lit "default";
  is_deleting = false;
  spec = record {
    target = record { namespace = lit "default"; name = lit "web"; kind = lit "Pod" };
    policy = record { max_steps = pos 5 };
    alert_context = none;
    approved = false;
  };
  status = record {
    phase = p;
    report = none;
    history = [];
    checkpoint = [];
    matched_skill = [];
    message = [];
  };
}

abbrev pub api : Api DiagnosisPhase
api = record {
  get = λ key p. (found (task p), p);
  update_status = λ t p. (none, t.status.phase);
  load_skill_manager = λ p. (ok (record { skills = [] }), p);
}

abbrev pub idle : Reconciler
idle = record { skill_manager = none; active_agents = [] }

abbrev Unfinished : DiagnosisPhase → Type 0
Unfinished p = p ≢ completed

Edge-Unfinished : (t : DiagnosisTask) (p : DiagnosisPhase) → Edge t p → Unfinished p
Edge-Unfinished t _ (first_seen _) = λ e. cc
Edge-Unfinished t _ (begins _) = λ e. cc
Edge-Unfinished t _ (resumes _ _) = λ e. cc

api-Keeps : Keeps api (lit "default/t") Unfinished
unfolding with_phase
api-Keeps = record {
  keeps_load = λ w p. p;
  keeps_get = λ w p. p;
  keeps_update = λ w t q p read alive e. Edge-Unfinished t q e;
}

reconcile-keeps_example : Unfinished (reconcile api (lit "default/t") idle pending).world
reconcile-keeps_example =
    reconcile-keeps api (lit "default/t") Unfinished api-Keeps idle pending (λ e. cc)

-- The call starts the agent, and the task runs.
pending_starts :
    let end = reconcile api (lit "default/t") idle pending in
    (end.world ≡ running) × (end.effect ≡ starts (task running))
unfolding reconcile str_eq
pending_starts = (refl, refl)

reconcile-IsLawful_example :
    IsLawful (lit "default/t") idle (reconcile api (lit "default/t") idle pending)
reconcile-IsLawful_example = reconcile-IsLawful api (lit "default/t") idle pending
