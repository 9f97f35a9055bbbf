-- ===== src/Web.antt =====
-- crates/web/src/domain: the value objects of tasks and executions.
pub mod Status
