-- ===== src/TestDriver/Machine.antt =====
-- `class Machine` of nixos/lib/test-driver/test_driver/machine.py: the machine's life, the shell in the
-- guest, and the calls that wait for something.
pub mod Keys
pub mod StartScript
pub mod Shell
pub mod Life
pub mod Commands
pub mod Script
pub mod Units
pub mod Devices
