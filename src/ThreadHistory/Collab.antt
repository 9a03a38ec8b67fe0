-- ===== src/ThreadHistory/Collab.antt =====
-- src-tauri/src/core/thread_history.rs: the items made from the events of agents that work together.
use mosaic_desktop.Prelude.{
  Bool, true, false, Option, none, some, List, [], ◌∷◌, map, any, String, if◌then◌else◌,
}
use mosaic_desktop.Protocol.Utf8.{sort, utf8}
use mosaic_desktop.Protocol.TurnItems.{
  TurnItem, ToolCallStatus, CollabAgentTool, CollabAgentStatus, CollabAgentState,
}
use mosaic_desktop.Protocol.Events.{
  AgentStatus, CollabAgentSpawnEndEvent, CollabAgentInteractionEndEvent, CollabEndEvent,
  CollabWaitingEndEvent,
}

unfoldable pub to_collab_agent_state : AgentStatus → CollabAgentState
to_collab_agent_state AgentStatus.pending_init = record {
  status = CollabAgentStatus.pending_init;
  message = none;
}
to_collab_agent_state AgentStatus.running = record {
  status = CollabAgentStatus.running;
  message = none;
}
to_collab_agent_state (AgentStatus.completed msg) = record {
  status = CollabAgentStatus.completed;
  message = msg;
}
to_collab_agent_state (AgentStatus.errored msg) = record {
  status = CollabAgentStatus.errored;
  message = some msg;
}
to_collab_agent_state AgentStatus.shutdown = record {
  status = CollabAgentStatus.shutdown;
  message = none;
}
to_collab_agent_state AgentStatus.not_found = record {
  status = CollabAgentStatus.not_found;
  message = none;
}

unfoldable pub is_failed : AgentStatus → Bool
is_failed AgentStatus.pending_init = false
is_failed AgentStatus.running = false
is_failed (AgentStatus.completed msg) = false
is_failed (AgentStatus.errored msg) = true
is_failed AgentStatus.shutdown = false
is_failed AgentStatus.not_found = true

abbrev tool_status : Bool → ToolCallStatus
tool_status failed = if failed then ToolCallStatus.failed else ToolCallStatus.completed

abbrev pub receivers : Option String → List String
receivers none = []
receivers (some id) = id ∷ []

unfoldable pub collab_spawn_item : CollabAgentSpawnEndEvent → TurnItem
collab_spawn_item p = TurnItem.collab_tool_call (record {
  id = p.call_id;
  tool = CollabAgentTool.spawn_agent;
  status = tool_status (is_failed p.status);
  sender_thread_id = p.sender_thread_id;
  receiver_thread_ids = receivers p.new_thread_id;
  prompt = some p.prompt;
  agents_states = map (λ id. (id, to_collab_agent_state p.status)) (receivers p.new_thread_id);
})

unfoldable pub collab_interaction_item : CollabAgentInteractionEndEvent → TurnItem
collab_interaction_item p = TurnItem.collab_tool_call (record {
  id = p.call_id;
  tool = CollabAgentTool.send_input;
  status = tool_status (is_failed p.status);
  sender_thread_id = p.sender_thread_id;
  receiver_thread_ids = p.receiver_thread_id ∷ [];
  prompt = some p.prompt;
  agents_states = (p.receiver_thread_id, to_collab_agent_state p.status) ∷ [];
})

unfoldable pub collab_waiting_item : CollabWaitingEndEvent → TurnItem
collab_waiting_item p = TurnItem.collab_tool_call (record {
  id = p.call_id;
  tool = CollabAgentTool.wait;
  status = tool_status (any (λ entry. is_failed entry.1) p.statuses);
  sender_thread_id = p.sender_thread_id;
  receiver_thread_ids = sort utf8 (map (λ entry. entry.0) p.statuses);
  prompt = none;
  agents_states = map (λ entry. (entry.0, to_collab_agent_state entry.1)) p.statuses;
})

-- Of `handle_collab_close_end` and `handle_collab_resume_end`, which differ in the tool.
unfoldable pub collab_end_item : CollabAgentTool → CollabEndEvent → TurnItem
collab_end_item tool p = TurnItem.collab_tool_call (record {
  id = p.call_id;
  tool = tool;
  status = tool_status (is_failed p.status);
  sender_thread_id = p.sender_thread_id;
  receiver_thread_ids = p.receiver_thread_id ∷ [];
  prompt = none;
  agents_states = (p.receiver_thread_id, to_collab_agent_state p.status) ∷ [];
})
