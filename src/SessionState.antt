-- ===== src/SessionState.antt =====
-- src-tauri/src/core/state: the state of a session (session.rs) and of a turn (turn.rs). Sets and
-- maps of the standard library are functions of their keys.
pub mod Selection
pub mod Turn
use mosaic_desktop.Prelude.{
  ℕ, Bool, true, false, ◌||◌, not, Option, none, some, List, [], ◌∷◌, ◌++◌, String, str_eq, any,
  if◌then◌else◌,
}
use mosaic_desktop.Prelude.Int.{ℤ}
use mosaic_desktop.Protocol.Items.{ResponseInputItem}
use mosaic_desktop.Protocol.Utf8.{is_empty}
use mosaic_desktop.ContextManager.History
use mosaic_desktop.ContextManager.History.{ContextManager, replace}

-- `HashSet<String>` and `HashMap<String, V>`
abbrev pub StringSet : Type 0
StringSet = String → Bool

abbrev pub StringMap {ℓ} : Type ℓ → Type ℓ
StringMap V = String → Option V

abbrev pub insert_set : StringSet → String → StringSet
insert_set s x = λ y. str_eq x y || s y

abbrev pub extend : StringSet → List String → StringSet
extend s [] = s
extend s (x ∷ xs) = extend (insert_set s x) xs

abbrev pub insert_map {ℓ} : {V : Type ℓ} → StringMap V → String → V → StringMap V
insert_map m k v = λ y. if str_eq k y then some v else m y

abbrev pub remove_map {ℓ} : {V : Type ℓ} → StringMap V → String → StringMap V
remove_map m k = λ y. if str_eq k y then none else m y

abbrev insert_all : StringMap String → List (String × String) → StringMap String
insert_all m [] = m
insert_all m ((k, v) ∷ rest) = insert_all (insert_map m k v) rest

pub record SessionState : Type 0 where
  pub history : ContextManager
  pub reasoning_included : Bool
  pub env : StringMap String
  pub prompted : StringSet
  pub active_mcp_tool_selection : Option (List String)
  pub active_connector_selection : StringSet

abbrev pub new : SessionState
new = record {
  history = History.new;
  reasoning_included = false;
  env = λ k. none;
  prompted = λ k. false;
  active_mcp_tool_selection = none;
  active_connector_selection = λ k. false;
}

unfoldable pub set_server_reasoning_included : SessionState → Bool → SessionState
set_server_reasoning_included st included = record st { reasoning_included = included }

unfoldable pub record_items : SessionState → List ResponseInputItem → SessionState
record_items st items = record st { history = History.record_items st.history items }

unfoldable pub update_token_usage : SessionState → ℤ → SessionState
update_token_usage st total_tokens = record st {
  history = History.update_token_usage st.history total_tokens;
}

unfoldable pub replace_history : SessionState → List ResponseInputItem → SessionState
replace_history st items = record st { history = replace st.history items }

unfoldable pub record_mcp_dependency_prompted : SessionState → List String → SessionState
record_mcp_dependency_prompted st names = record st { prompted = extend st.prompted names }

unfoldable pub set_dependency_env : SessionState → List (String × String) → SessionState
set_dependency_env st values = record st { env = insert_all st.env values }

abbrev pub or_nil : Option (List String) → List String
or_nil none = []
or_nil (some names) = names

-- The loop over the names, with the set of those that were seen.
unfoldable pub push_unseen : List String → StringSet → List String → List String
push_unseen merged seen [] = merged
push_unseen merged seen (name ∷ names) =
    push_unseen (if seen name then merged else merged ++ name ∷ []) (insert_set seen name) names

abbrev pub empty_set : StringSet
empty_set = λ y. false

unfoldable pub merge_mcp_tool_selection : SessionState → List String → SessionState × List String
merge_mcp_tool_selection st names =
    let old = or_nil st.active_mcp_tool_selection in
    let merged = push_unseen old (extend empty_set old) names in
    if is_empty names
    then (st, old)
    else (record st { active_mcp_tool_selection = some merged }, merged)

abbrev some_names : List String → Option (List String)
some_names [] = none
some_names (name ∷ names) = some (name ∷ names)

unfoldable pub set_mcp_tool_selection : SessionState → List String → SessionState
set_mcp_tool_selection st names = record st {
  active_mcp_tool_selection =
      if is_empty names then none else some_names (push_unseen [] empty_set names);
}

unfoldable pub clear_mcp_tool_selection : SessionState → SessionState
clear_mcp_tool_selection st = record st { active_mcp_tool_selection = none }

unfoldable pub merge_connector_selection : SessionState → List String → SessionState × StringSet
merge_connector_selection st ids =
    let merged = extend st.active_connector_selection ids in
    (record st { active_connector_selection = merged }, merged)

unfoldable pub clear_connector_selection : SessionState → SessionState
clear_connector_selection st = record st { active_connector_selection = λ k. false }
