-- ===== src/Agent.antt =====
-- agent.go: the agent loop.
pub mod TextStream
pub mod TextLaws
pub mod Events
pub mod ToolEvents
pub mod Run
pub mod Messages
pub mod Stream
pub mod Context
pub mod Tools
pub mod Final
pub mod Turn
pub mod Heeded
pub mod Machine
pub mod Rules
pub mod BudgetRules
pub mod Tally
pub mod StreamRules
pub mod ContextRules
pub mod TurnRules
pub mod Refinement
pub mod Ending
pub mod Spending
pub mod Protocol
pub mod History
pub mod Asking
pub mod Tests
