-- ===== src/Examples/Piping.antt =====
-- An alert of a crashing pod on its way to an agent (internal/alert and internal/controller), in a
-- cluster with any number of tasks.
use mathlib.Core.List.{Memᴰ}
use mathlib.Core.List.Memᴰ
use kubeminds.Prelude.{List, ℕ, ◌+◌, ◌&&◌, [], ◌∷◌, ◌++◌, Option, none, some}
use kubeminds.Prelude.Tests.{if◌then◌else◌}
use kubeminds.Prelude.Bytes.{Str, lit, str_eq}
use kubeminds.Prelude.Errors.{Fallible, ok, err}
use kubeminds.Crd.{DiagnosisTask}
use kubeminds.Alert.Creator.{CreateReply, created, already_exists, Cluster}
use kubeminds.Controller.Reconcile.{Api, GetReply, found, not_found}
use kubeminds.Controller.Job.{Deps}
use kubeminds.Agent.SkillManager.{SkillManager}
use kubeminds.Agent.Types.{assistant, Tool, read_only}

record World : Type 0 where
  clock : ℕ
  tasks : Str → Option DiagnosisTask

abbrev key : Str → Str → Str
key namespace name = namespace ++ (lit "/" ++ name)

abbrev there : Str → World → Option DiagnosisTask
there k w = w.tasks k

abbrev put : DiagnosisTask → World → Option DiagnosisTask → CreateReply × World
put t w (some _) = (already_exists, w)
put t w none = (
  created,
  record w { tasks = λ k. if str_eq (key t.namespace t.name) k then some t else w.tasks k },
)

abbrev cluster : Cluster World
cluster = record {
  create = λ t w. put t w (w.tasks (key t.namespace t.name));
  unix_milli = λ w. (w.clock, record w { clock = w.clock + 1 });
  fold = λ r. r;
}

abbrev restatus : DiagnosisTask → Option DiagnosisTask → Option DiagnosisTask
restatus u none = none
restatus u (some t) =
    if str_eq u.name t.name && str_eq u.namespace t.namespace
    then some (record t { status = u.status })
    else some t

abbrev read : Option DiagnosisTask → GetReply
read none = not_found
read (some t) = found t

abbrev api : Api World
api = record {
  get = λ k w. (read (w.tasks k), w);
  update_status = λ u w. (none, record w { tasks = λ k. restatus u (w.tasks k) });
  load_skill_manager = λ w. (ok (record { skills = [] }), w);
}

-- The alert came at 10, the window is 100, and the sweep is at 111.
abbrev before : World
before = record { clock = 1700000000000; tasks = λ k. none }

abbrev look : Tool World
look = record {
  name = lit "look";
  description = lit "Looks.";
  schema = lit "{}";
  safety_level = read_only;
  execute = λ args w. (ok (lit "seen"), record w { clock = w.clock + 1 });
}

-- A goroutine with one tool, whose model answers with a root cause.
abbrev deps : Deps World ℕ
deps = record {
  list_tools = λ w. (ok (look ∷ []), w);
  llm = λ ms ts w. (
    ok (record {
      type = assistant;
      content = lit "Root Cause: x";
      tool_calls = [];
      tool_call_id = [];
    }),
    w,
  );
  runtime = record {
    done = λ w. (none, w);
    now = λ w. (lit "2026-01-01T00:00:00Z", record w { clock = w.clock + 1 });
    fold = λ r. r;
  };
  l2_store = none;
  knowledge = none;
  rfc3339 = λ n. [];
  quote = λ s. s;
}

abbrev no_skills : SkillManager
no_skills = record { skills = [] }

abbrev listed_in : Fallible (List (Tool World)) → List (Tool World)
listed_in (ok ts) = ts
listed_in (err e) = []
