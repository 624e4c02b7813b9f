-- ===== src/Examples/Lab.antt =====
-- An agent with three tools, over a cluster that counts the questions to the model and the
-- deletions.
use kubeminds.Prelude.{ℕ, zero, suc, ◌+◌, List, [], ◌∷◌, none}
use kubeminds.Prelude.Bytes.{Str, lit}
use kubeminds.Prelude.Int.{pos}
use kubeminds.Prelude.Errors.{Fallible, ok}
use kubeminds.Agent.Types.{Message, MessageType, SafetyLevel, Tool, LlmProvider}
use kubeminds.Agent.Skill.{base_skill}
use kubeminds.Agent.Engine.{Runtime, BaseAgent}

pub record Lab : Type 0 where
  pub chats : ℕ
  pub deletions : ℕ

abbrev pub fresh : Lab
fresh = record { chats = 0; deletions = 0 }

abbrev pub deletes : Str → Lab → Fallible Str × Lab
deletes args w = (ok [], record w { deletions = w.deletions + 1 })

abbrev pub get_pods : Tool Lab
get_pods = record {
  name = lit "get_pods";
  description = [];
  schema = [];
  safety_level = SafetyLevel.read_only;
  execute = λ args w. (ok (lit "one pod"), w);
}

abbrev pub delete_pod : Tool Lab
delete_pod = record {
  name = lit "delete_pod";
  description = [];
  schema = [];
  safety_level = SafetyLevel.high_risk;
  execute = deletes;
}

abbrev pub drop_node : Tool Lab
drop_node = record {
  name = lit "drop_node";
  description = [];
  schema = [];
  safety_level = SafetyLevel.forbidden;
  execute = deletes;
}

abbrev pub tools : List (Tool Lab)
tools = get_pods ∷ delete_pod ∷ drop_node ∷ []

abbrev pub asks : Str → Message
asks name = record {
  type = MessageType.assistant;
  content = [];
  tool_calls =
      record { id = lit "1"; function = record { name = name; arguments = lit "{}" } } ∷ [];
  tool_call_id = [];
}

-- The model looks at the pods, then tries to drop the node, and then to delete the pod.
abbrev script : ℕ → Message
script zero = asks (lit "get_pods")
script (suc zero) = asks (lit "drop_node")
script (suc (suc n)) = asks (lit "delete_pod")

abbrev pub llm : LlmProvider Lab
llm ms ts w = (ok (script w.chats), record w { chats = w.chats + 1 })

abbrev pub runtime : Runtime Lab
runtime = record {
  done = λ w. (none, w);
  now = λ w. (lit "2026-01-01T00:00:00Z", w);
  fold = λ r. r;
}

abbrev pub doctor : BaseAgent Lab
doctor = record {
  llm = llm;
  tools = tools;
  memory = [];
  max_steps = pos 5;
  on_step_complete = none;
  skill = base_skill;
}
