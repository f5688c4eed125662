-- ===== src/Model.antt =====
-- internal/model/model.go: run states, names and the layout of the state directory.
pub mod State
pub mod Names
pub mod Layout
pub mod Graph
pub mod Routes
pub use State.{
  RunState, queued, staging, running, committing, succeeded, failed, lost, aborted, unavailable,
  aggregating, other,
}
