-- ===== src/Agent/Types.antt =====
-- internal/agent/types.go. `W` is the state of everything outside the agent: the cluster, the
-- language model, the clock. An interface is a record of its methods over `W`.
use kubeminds.Prelude.{◌-◌, ◌*◌, List}
use kubeminds.Prelude.Bytes.{Str}
use kubeminds.Prelude.Int.{ℤ, negsuc}
use kubeminds.Prelude.Errors.{Fallible}

pub data MessageType : Type 0 where
  user assistant tool system : MessageType

pub record FunctionCall : Type 0 where
  pub name : Str
  pub arguments : Str

pub record ToolCall : Type 0 where
  pub id : Str
  pub function : FunctionCall

pub record Message : Type 0 where
  pub type : MessageType
  pub content : Str
  pub tool_calls : List ToolCall
  pub tool_call_id : Str

-- `other` is a level that no constant names.
pub data SafetyLevel : Type 0 where
  read_only low_risk high_risk forbidden : SafetyLevel
  other : Str → SafetyLevel

pub record Tool (W : Type 0) : Type 0 where
  pub name : Str
  pub description : Str
  pub schema : Str
  pub safety_level : SafetyLevel
  pub execute : Str → W → Fallible Str × W

-- `LLMProvider`, of the one method `Chat`
abbrev pub LlmProvider : Type 0 → Type 0
LlmProvider W = List Message → List (Tool W) → W → Fallible Message × W

pub record Result : Type 0 where
  pub root_cause : Str
  pub suggestion : Str

-- The errors that `Run` returns: of the context, of the model, `ErrWaitingForApproval`, and those
-- of loop detection and of the step limit.
pub data AgentError : Type 0 where
  cancelled : Str → AgentError
  chat_failed : Str → AgentError
  waiting_for_approval : Str → AgentError
  loop_detected : Str → AgentError
  exceeded_steps : ℤ → AgentError

-- `time.Time{}`, the first instant of the year 1
abbrev pub zero_time : ℤ
zero_time = negsuc (62135596800 * 1000000000 - 1)

-- An alert event of the L2 store; times are nanoseconds since 1970.
pub record AlertEvent : Type 0 where
  pub alert_name : Str
  pub namespace : Str
  pub pod : Str
  pub count : ℤ
  pub first_seen : ℤ
  pub last_seen : ℤ

-- A diagnosis of the L3 knowledge base.
pub record KnowledgeFinding : Type 0 where
  pub id : Str
  pub alert_name : Str
  pub namespace : Str
  pub root_cause : Str
  pub suggestion : Str
  pub created_at : ℤ
