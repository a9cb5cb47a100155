-- ===== src/SystemdBoot.antt =====
-- systemd-boot-builder.py, nixos/modules/system/boot/loader/systemd-boot: the boot entries that it
-- reads and writes, and which generations and files it keeps.
pub mod Text
pub mod SortKey
pub mod EntryFile
pub mod EntryName
pub mod Install
pub mod Generations
