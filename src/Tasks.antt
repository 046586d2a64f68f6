-- ===== src/Tasks.antt =====
-- internal/adapter/repo/task.go, TaskRepo: the statements on the tables main_tasks and sub_tasks.
-- A table is the list of its rows in the order of their ids. Instants are numbers of nanoseconds.
pub mod Rows
pub mod Main
pub mod Sub
