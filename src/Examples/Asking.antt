-- ===== src/Examples/Asking.antt =====
-- A server of the OpenAI protocol that is down twice before it answers (internal/llm/openai.go), and
-- a router over three providers (internal/llm/router.go and factory.go).
use mathlib.Core.List.Memᴰ
use kubeminds.Prelude.Int.{pos}
use kubeminds.Agent.Skill.{base_skill}
use kubeminds.Agent.Engine.{Runtime, BaseAgent}
use kubeminds.Agent.Loop.{run, notify}
use kubeminds.Agent.Limits.{Quiet}
use kubeminds.Llm.Costs.{asking, run_costs}
use kubeminds.Prelude.{false, ℕ, zero, suc, ◌+◌, ◌≤◌, ◌≡◌, refl, ap, List, [], ◌∷◌, none, arith}
use kubeminds.Prelude.Bytes.{Str, lit, contains, str_eq}
use kubeminds.Prelude.Errors.{Fallible, ok, err}
use kubeminds.Agent.Types.{assistant, user, Message, LlmProvider}
use kubeminds.Llm.OpenAi.{Choice, Client, chat}
use kubeminds.Prelude.Maps.{IsMap, lookup}
use kubeminds.Llm.Router.{Builders, ProviderConfig, LlmConfig, LlmRouter, new_router_from_config}
use kubeminds.Llm.Serving.{IsDefault, new_router_from_config-IsDefault}
use kubeminds.Llm.Retries.{Measures}
use kubeminds.Llm.Answered.{IsReply, chat-IsReply}

-- The requests so far, and the time waited.
abbrev Server : Type 0
Server = ℕ × ℕ

abbrev answer : ℕ → Fallible (List Choice)
answer zero = err (lit "status 503")
answer (suc zero) = err (lit "status 503")
answer (suc (suc n)) = ok (record { content = lit "Root Cause: x"; tool_calls = [] } ∷ [])

abbrev client : Client Server
client = record {
  create_chat_completion = λ req w. (answer w.0, (w.0 + 1, w.1));
  wait = λ d w. (none, (w.0, w.1 + d));
  raw_json = λ s. ok s;
}

client-Measures : Measures client (λ w. w.0) (λ w. w.1)
client-Measures = record {
  requests_request = λ req w. refl;
  requests_wait = λ d w. refl;
  waited_request = λ req w. refl;
  waited_wait = λ d w. omega arith;
}

abbrev question : List Message
question = record { type = user; content = lit "why?"; tool_calls = []; tool_call_id = [] } ∷ []

abbrev asker : BaseAgent (ℕ × ℕ)
asker = record {
  llm = chat client (lit "m");
  tools = [];
  memory = [];
  max_steps = pos 5;
  on_step_complete = none;
  skill = base_skill;
}

abbrev quick : Runtime (ℕ × ℕ)
quick = record { done = λ w. (none, w); now = λ w. (lit "now", w); fold = λ r. r }

-- Without tools, and with no callback, a run does nothing else that counts.
asker-Quiet :
    (measure : ℕ × ℕ → ℕ) (cost : ℕ)
    → Quiet quick (asking client (lit "m") asker) false measure cost
unfolding notify
asker-Quiet measure cost = record {
  count_done = λ w. refl;
  count_now = λ w. refl;
  count_notify = λ f entry w. refl;
  count_execute = λ t args w m. absurd (Memᴰ.not-nil m);
}

run_costs_example :
    let w' = (run quick (asking client (lit "m") asker) false (lit "why?") (0, 0)).1.world in
    (w'.0 ≤ 15) × (w'.1 ≤ 15000)
run_costs_example =
    run_costs client (λ w. w.0) (λ w. w.1) client-Measures quick asker (lit "m") false
      (asker-Quiet (λ w. w.0) 3) (asker-Quiet (λ w. w.1) 3000) (lit "why?") (0, 0)

abbrev reply : Message
reply = record {
  type = assistant;
  content = lit "Root Cause: x";
  tool_calls = [];
  tool_call_id = [];
}

-- The third request is answered, after waits of 1 s and 2 s.
third_answers : chat client (lit "m") question [] (0, 0) ≡ (ok reply, (3, 3000))
unfolding chat contains
third_answers = refl

chat-IsReply_example : IsReply client (lit "m") question [] reply
chat-IsReply_example =
    chat-IsReply client (lit "m") question [] (0, 0) reply (ap (λ p. p.0) third_answers)

-- Each provider answers with its own name.
abbrev named : Str → LlmProvider Server
named text ms ts w =
    (ok (record { type = assistant; content = text; tool_calls = []; tool_call_id = [] }), w)

abbrev builders : Builders Server
builders = record {
  openai = λ cfg. named (lit "openai");
  gemini = λ cfg. named (lit "gemini");
  anthropic = λ cfg. named (lit "anthropic");
  quote = λ s. s;
}

abbrev no_key : ProviderConfig
no_key = record { api_key = []; model = []; base_url = [] }

abbrev config : LlmConfig
config = record {
  default_provider = lit "gemini";
  providers = (lit "openai", no_key) ∷ (lit "gemini", no_key) ∷ [];
}

abbrev router : LlmRouter Server
router = record {
  providers = (lit "openai", named (lit "openai")) ∷ (lit "gemini", named (lit "gemini")) ∷ [];
  default_provider = lit "gemini";
}

config-IsMap : IsMap config.providers
unfolding lookup lit str_eq
config-IsMap = (refl, (refl, tt))

config_builds : new_router_from_config builders config ≡ ok router
unfolding new_router_from_config str_eq
config_builds = refl

new_router_from_config-IsDefault_example : IsDefault builders config router
new_router_from_config-IsDefault_example =
    new_router_from_config-IsDefault builders config router config-IsMap config_builds
