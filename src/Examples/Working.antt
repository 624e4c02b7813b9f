-- ===== src/Examples/Working.antt =====
-- A goroutine of the controller over the lab
-- (internal/controller/diagnosistask_controller.go).
use mathlib.Core.Path.{subst}
use kubeminds.Prelude.{ℕ, ◌≡◌, refl, sym, ap, false, List, [], none}
use kubeminds.Prelude.Bytes.{Str, lit}
use kubeminds.Prelude.Errors.{Fallible, ok, err}
use kubeminds.Crd.{running}
use kubeminds.Agent.Types.{Tool}
use kubeminds.Agent.Skill.{base_skill}
use kubeminds.Agent.SkillManager.{SkillManager, match_skill}
use kubeminds.Agent.Engine.{available_tools}
use kubeminds.Agent.Safety.{May}
use kubeminds.Controller.Reconcile.{Api, found}
use kubeminds.Controller.Job.{Deps, job}
use kubeminds.Controller.Jobs.{Keeps, job-keeps}
use kubeminds.Examples.Lab.{Lab, fresh, tools, llm, runtime}
use kubeminds.Examples.Agents.{Untouched, allowed-Untouched}
use kubeminds.Examples.Reconciling.{task}

abbrev api : Api Lab
api = record {
  get = λ key w. (found (task running), w);
  update_status = λ t w. (none, w);
  load_skill_manager = λ w. (ok (record { skills = [] }), w);
}

abbrev deps : Deps Lab ℕ
deps = record {
  list_tools = λ w. (ok tools, w);
  llm = llm;
  runtime = runtime;
  l2_store = none;
  knowledge = none;
  rfc3339 = λ n. [];
  quote = λ s. s;
}

abbrev no_skills : SkillManager
no_skills = record { skills = [] }

abbrev listed_in : Fallible (List (Tool Lab)) → List (Tool Lab)
listed_in (ok ts) = ts
listed_in (err e) = []

listed-Untouched :
    (ts : List (Tool Lab)) (t : Tool Lab) (args : Str) (w : Lab)
    → tools ≡ ts
    → May (available_tools (match_skill (task running) no_skills).allowed_tools ts) false t
    → Untouched w
    → Untouched (t.execute args w).1
unfolding match_skill available_tools base_skill
listed-Untouched ts t args w e may p =
    allowed-Untouched t args w (subst (λ l. May l false t) (sym e) may) p

deps-Keeps : Keeps api deps (lit "default/t") no_skills (task running) Untouched
deps-Keeps = record {
  outside = record {
    keeps_list = λ w p. p;
    keeps_recent = λ recent e. cc;
    keeps_embed = λ k e. cc;
    keeps_search = λ k e. cc;
    keeps_done = λ w p. p;
    keeps_now = λ w p. p;
    keeps_chat = λ ms ts w h p. p;
    keeps_execute =
        λ start ts e t args w may p. listed-Untouched ts t args w (ap listed_in e) may p;
  };
  keeps_get = λ w p. p;
  keeps_update = λ w u s p e h. p;
}

job-keeps_example : Untouched (job api deps (lit "default/t") no_skills (task running) fresh).1
job-keeps_example =
    job-keeps api deps (lit "default/t") no_skills (task running) Untouched deps-Keeps fresh refl
