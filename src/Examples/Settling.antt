-- ===== src/Examples/Settling.antt =====
-- A goroutine of the controller in a cluster of one task (internal/controller/diagnosistask_controller.go).
use kubeminds.Prelude.{ℕ, [], Option, none, some}
use kubeminds.Prelude.Bytes.{lit}
use kubeminds.Prelude.Errors.{ok}
use kubeminds.Crd.{DiagnosisTask}
use kubeminds.Agent.Types.{assistant}
use kubeminds.Agent.SkillManager.{SkillManager}
use kubeminds.Controller.Reconcile.{Api, GetReply, found, not_found}
use kubeminds.Controller.Job.{Deps}

-- The cluster is its one task.
abbrev there : DiagnosisTask → Option DiagnosisTask
there u = some u

abbrev read : Option DiagnosisTask → GetReply
read none = not_found
read (some u) = found u

abbrev restatus : DiagnosisTask → Option DiagnosisTask → Option DiagnosisTask
restatus v none = none
restatus v (some u) = some (record u { status = v.status })

abbrev api : Api DiagnosisTask
api = record {
  get = λ key u. (found u, u);
  update_status = λ v u. (none, record u { status = v.status });
  load_skill_manager = λ u. (ok (record { skills = [] }), u);
}

abbrev deps : Deps DiagnosisTask ℕ
deps = record {
  list_tools = λ u. (ok [], u);
  llm = λ ms ts u. (
    ok (record {
      type = assistant;
      content = lit "Root Cause: x";
      tool_calls = [];
      tool_call_id = [];
    }),
    u,
  );
  runtime = record {
    done = λ u. (none, u);
    now = λ u. (lit "2026-01-01T00:00:00Z", u);
    fold = λ r. r;
  };
  l2_store = none;
  knowledge = none;
  rfc3339 = λ n. [];
  quote = λ s. s;
}

abbrev no_skills : SkillManager
no_skills = record { skills = [] }
