-- ===== src/Project.antt =====
-- src/project: the configuration and the rows of a project, its strategy, and the state machine of
-- its phases. serde_json is a parameter, `Json`.
pub mod Json
pub mod Rows
pub mod Strategy
pub mod Phases
pub mod Store
pub mod Tick
