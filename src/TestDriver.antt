-- ===== src/TestDriver.antt =====
-- The NixOS test driver, nixos/lib/test-driver/test_driver: a module for each of its files, and
-- `retry` of machine.py in one of its own.
pub mod Errors
pub mod Retry
pub mod Polling
pub mod Machine
pub mod Qmp
pub mod Logger
pub mod Driver
