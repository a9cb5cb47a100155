-- ===== src/TaskServer.antt =====
-- helper-tool.py of the Taskserver module, nixos/modules/services/misc/taskserver: a module for each
-- of its parts.
pub mod Host
pub mod Export
pub mod Files
pub mod Keys
pub mod Organisation
pub mod Reconcile
pub mod Manager
pub mod Cli
