-- ===== src/Llm/Costs.antt =====
-- What a run of an agent (internal/agent/engine.go) costs at the model server of
-- internal/llm/openai.go.
use kubeminds.Prelude.{ℕ, ◌+◌, ◌*◌, ◌≤◌, Bool}
use kubeminds.Prelude.Int.{rounds}
use kubeminds.Prelude.Bytes.{Str}
use kubeminds.Agent.Engine.{Runtime, BaseAgent}
use kubeminds.Agent.Loop.{run}
use kubeminds.Agent.Limits.{Quiet, run_limits}
use kubeminds.Llm.OpenAi.{Client, chat}
use kubeminds.Llm.Retries.{Measures, chat_limits}

-- The agent asks the provider of OpenAI.
abbrev pub asking : {W : Type 0} → Client W → Str → BaseAgent W → BaseAgent W
asking c model a = record a { llm = chat c model }

-- A run of an agent with this provider makes at most three requests for each of its steps, and waits
-- at most three seconds for each between requests, whatever the server answers and however the run
-- ends. The measures count a request once and a wait by at most its length, and nothing else.
pub run_costs :
    {W : Type 0} (c : Client W) (requests waited : W → ℕ)
    → Measures c requests waited
    → (rt : Runtime W) (a : BaseAgent W) (model : Str) (approved : Bool)
    → Quiet rt (asking c model a) approved requests 3
    → Quiet rt (asking c model a) approved waited 3000
    → (goal : Str) (w : W)
    → let w' = (run rt (asking c model a) approved goal w).1.world in
      (requests w' ≤ requests w + rounds a.max_steps * 3)
      × (waited w' ≤ waited w + rounds a.max_steps * 3000)
run_costs c requests waited m rt a model approved q r goal w =
    let b = asking c model a in
    let n =
      run_limits rt b approved requests 3
        (record {
          quiet = q;
          count_chat = λ ms v. (chat_limits c requests waited m model ms b.tools v).0;
        })
        goal w in
    let t =
      run_limits rt b approved waited 3000
        (record {
          quiet = r;
          count_chat = λ ms v. (chat_limits c requests waited m model ms b.tools v).1;
        })
        goal w in
    (n.0, t.0)
