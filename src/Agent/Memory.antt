-- ===== src/Agent/Memory.antt =====
-- internal/agent/memory.go: the conversation, oldest message first. The mutex makes each method
-- one step; `GetHistory` hands out a copy, which a list is.
use kubeminds.Prelude.{List, [], ◌∷◌, ◌++◌}
use kubeminds.Prelude.Bytes.{Str}
use kubeminds.Agent.Types.{Message, MessageType, ToolCall}

abbrev pub L1Memory : Type 0
L1Memory = List Message

abbrev pub new_l1_memory : L1Memory
new_l1_memory = []

unfoldable pub add_user_message : Str → L1Memory → L1Memory
add_user_message content m =
    m
    ++ record { type = MessageType.user; content = content; tool_calls = []; tool_call_id = [] }
      ∷ []

unfoldable pub add_assistant_message : Str → L1Memory → L1Memory
add_assistant_message content m =
    m
    ++ record {
      type = MessageType.assistant;
      content = content;
      tool_calls = [];
      tool_call_id = [];
    }
      ∷ []

unfoldable pub add_tool_output : Str → Str → L1Memory → L1Memory
add_tool_output id content m =
    m
    ++ record { type = MessageType.tool; content = content; tool_calls = []; tool_call_id = id }
      ∷ []

unfoldable pub add_assistant_tool_call : List ToolCall → L1Memory → L1Memory
add_assistant_tool_call calls m =
    m
    ++ record { type = MessageType.assistant; content = []; tool_calls = calls; tool_call_id = [] }
      ∷ []

abbrev pub get_history : L1Memory → List Message
get_history m = m
