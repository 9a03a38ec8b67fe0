-- ===== src/ExecPolicy.antt =====
-- src-tauri/src/execpolicy: which shell commands may run. `Rule` is prefix_rule.rs, `Policy` the
-- policy of mod.rs, `Network` its network rules with network_rule.rs. The proofs are in the modules
-- below these.
pub mod Rule
pub mod RuleMap
pub mod Network
pub mod Policy
mod Tests
