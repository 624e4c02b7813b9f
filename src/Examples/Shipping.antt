-- ===== src/Examples/Shipping.antt =====
-- The shipped tools (internal/tools) over a cluster that counts its pods.
use kubeminds.Prelude.{ℕ, ◌+◌, ◌-◌, ◌≡◌, refl, false, List, [], ◌∷◌, none}
use kubeminds.Prelude.Bytes.{Str, lit}
use kubeminds.Prelude.Int.{pos}
use kubeminds.Prelude.Errors.{ok, err}
use kubeminds.Agent.Skill.{base_skill}
use kubeminds.Agent.Engine.{Runtime, BaseAgent}
use kubeminds.Agent.Loop.{notify, run}
use kubeminds.Tools.Client.{Kube}
use kubeminds.Tools.Router.{ToolProvider, list_tools, internal_provider, empty_provider}
use kubeminds.Tools.Unapproved.{ReadsKeep, Surroundings, unapproved-keeps}
use kubeminds.Examples.Lab.{asks}

abbrev pub kube : Kube ℕ Str Str
kube = record {
  get = λ kind namespace name w. (ok name, w);
  list_events = λ namespace selector w. (ok [], w);
  open_logs = λ namespace name tail w. (ok name, w);
  read_stream = λ s w. (ok s, w);
  delete_pod = λ namespace name w. (none, w - 1);
  patch_deployment = λ namespace name patch w. (none, w + 1);
  update_scale = λ namespace name n w. (none, w + 1);
  pod_args = λ s. ok (record { namespace = lit "prod"; name = s });
  node_args = λ s. ok (record { namespace = []; name = s });
  service_args = λ s. ok (record { namespace = lit "prod"; name = s });
  pvc_args = λ s. ok (record { namespace = lit "prod"; name = s });
  pv_args = λ s. ok (record { namespace = []; name = s });
  delete_pod_args = λ s. ok (record { namespace = lit "prod"; name = s });
  patch_deployment_args = λ s. err s;
  scale_stateful_set_args = λ s. err s;
  marshal_clean = λ o. ok o;
}

abbrev clock : Runtime ℕ
clock = record { done = λ w. (none, w); now = λ w. ([], w); fold = λ r. r }

abbrev deleter : BaseAgent ℕ
deleter = record {
  llm = λ ms ts w. (ok (asks (lit "delete_pod")), w);
  tools = list_tools kube;
  memory = [];
  max_steps = pos 4;
  on_step_complete = none;
  skill = base_skill;
}

abbrev Whole : ℕ → Type 0
Whole w = w ≡ 3

kube-ReadsKeep : ReadsKeep kube Whole
kube-ReadsKeep = record {
  keeps_get = λ kind namespace name w p. p;
  keeps_list_events = λ namespace selector w p. p;
  keeps_open_logs = λ namespace name tail w p. p;
  keeps_read_stream = λ s w p. p;
}

deleter-Surroundings : Surroundings clock deleter Whole
unfolding notify
deleter-Surroundings = record {
  keeps_done = λ w p. p;
  keeps_now = λ w p. p;
  keeps_chat = λ ms w p. p;
  keeps_notify = λ f entry w p. p;
}

unapproved-keeps_example : Whole (run clock deleter false (lit "heal") 3).1.world
unapproved-keeps_example =
    unapproved-keeps kube clock deleter Whole (λ t m. m) kube-ReadsKeep deleter-Surroundings
      (lit "heal") 3 refl

-- The providers of the program, and one that fails.
abbrev providers : List (ToolProvider ℕ)
providers = (λ w. (err (lit "no server"), w)) ∷ internal_provider kube ∷ empty_provider ∷ []
