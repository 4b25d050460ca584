-- ===== src/Tasks.antt =====
-- app/domain/task.py, app/tasks and the task repository: lead tasks and their versions.
pub mod Models
pub mod Store
pub mod Repository
