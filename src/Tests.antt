-- ===== src/Tests.antt =====
-- Applications of the theorems at concrete inputs, by the part of the repository.
mod TaskServer
mod Cli
mod TestDriver
mod Driver
mod Logger
mod Bootloader
mod BootEntries
mod Documentation
