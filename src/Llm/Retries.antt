-- ===== src/Llm/Retries.antt =====
-- The retry loop of internal/llm/openai.go: its bounds, and where a reply comes from.
use kubeminds.Prelude.{ℕ, ◌+◌, ◌≤◌, ◌≡◌, List, arith}
use kubeminds.Prelude.Bytes.{Str}
use kubeminds.Prelude.Errors.{Fallible, ok, err}
use kubeminds.Agent.Types.{Message, Tool}
use kubeminds.Llm.Backoff.{delay_of}
use kubeminds.Llm.Attempts.{budget, Counts, attempts-Within}
use kubeminds.Llm.OpenAi.{
  api_error, request_of, ToolDefinition, ChatRequest, Client, to_tools, send, chat,
}

module _ {W : Type 0} (c : Client W) (requests waited : W → ℕ) where
  -- What the two measures count: the requests, and the time of the waits, which the context can
  -- only cut short.
  pub record Measures : Type 0 where
    pub requests_request :
        (req : ChatRequest) (w : W) → requests (c.create_chat_completion req w).1 ≡ requests w + 1
    pub requests_wait : (d : ℕ) (w : W) → requests (c.wait d w).1 ≡ requests w
    pub waited_request :
        (req : ChatRequest) (w : W) → waited (c.create_chat_completion req w).1 ≡ waited w
    pub waited_wait : (d : ℕ) (w : W) → waited (c.wait d w).1 ≤ waited w + d

  module _ (m : Measures) where
    measured :
        (req : ChatRequest)
        → Counts (c.create_chat_completion req) c.wait (api_error c) requests waited
    measured req = record {
      requests_request = m.requests_request req;
      requests_wait = m.requests_wait;
      waited_request = m.waited_request req;
      waited_wait = m.waited_wait;
    }

    send-Within :
        (model : Str) (ms : List Message) (ds : Fallible (List ToolDefinition)) (w : W)
        → (requests (send c model ms ds w).1 ≤ requests w + 3)
          × (waited (send c model ms ds w).1 ≤ waited w + 3000)
    unfolding send budget delay_of
    send-Within model ms (err e) w = (omega arith, omega arith)
    send-Within model ms (ok ds) w =
        let req = request_of model ms ds in
        attempts-Within (c.create_chat_completion req) c.wait (api_error c) requests waited
          (measured req) 2 0 w

-- One question to the model makes at most three requests and waits at most three seconds between
-- them, whatever the server answers. The measures count a request once and a wait by at most its
-- length, and nothing else.
pub chat_limits :
    {W : Type 0} (c : Client W) (requests waited : W → ℕ)
    → Measures c requests waited
    → (model : Str) (messages : List Message) (tools : List (Tool W)) (w : W)
    → let w' = (chat c model messages tools w).1 in
      (requests w' ≤ requests w + 3) × (waited w' ≤ waited w + 3000)
unfolding chat
chat_limits c requests waited m model messages tools w =
    send-Within c requests waited m model messages (to_tools c tools) w
