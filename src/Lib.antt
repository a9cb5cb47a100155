-- ===== src/Lib.antt =====
-- The program: the Python tools of NixOS. Paths are from the root of the repository.
--
-- The test driver (nixos/lib/test-driver/test_driver) boots virtual machines and runs a script
-- against them. TestDriver/Retry is `retry` of machine.py. TestDriver/Machine is its class
-- `Machine`: Machine/Shell has the object with `start`, `connect`, `execute` and the monitor,
-- Machine/Keys the keyboard with `CHAR_TO_KEY`, Machine/Life the end of a machine's life,
-- Machine/Commands and Machine/Units the calls that run commands and ask systemd, on `execute` and
-- `retry`, Machine/Devices the screen, the terminals, the console and the network, and
-- Machine/Script sequences of calls; Machine/StartScript is `StartCommand` with `NixStartScript`.
-- TestDriver/Polling is `PollingCondition` of polling_condition.py, whose `maybe_raise` the driver
-- hands to the machines as a callback. TestDriver/Qmp is `QMPSession` of qmp.py. TestDriver/Logger
-- is logger.py: the record `Logger` is `AbstractLogger` with its `CompositeLogger`, Logger/Junit,
-- Logger/Xml and Logger/Terminal its other implementations, and Logger/Script what a test script
-- does with any of them. TestDriver/Driver is the class `Driver` of driver.py, which goes over the
-- machines and writes to a logger; Driver/Names, Driver/Symbols, Driver/Subtest, Driver/Polls and
-- Driver/Create are `pythonize_name`, `test_symbols`, `subtest`, the polling conditions and
-- `create_machine`.
--
-- The Taskserver's tool (nixos/modules/services/misc/taskserver/helper-tool.py) manages
-- organisations, users, groups and their certificates. TaskServer/Host is the machine that it runs
-- on, TaskServer/Export and Files its helpers, TaskServer/Keys `generate_key` and `revoke_key`,
-- TaskServer/Organisation the class with its lazy users and groups, TaskServer/Reconcile
-- `add_or_delete`, TaskServer/Manager the class `Manager` with `process_json`, which calls all the
-- others, and TaskServer/Cli the other commands of the tool. Manager fills the interface
-- `Collection` of Reconcile/Reached.
--
-- The boot loader's tool (nixos/modules/system/boot/loader/systemd-boot/systemd-boot-builder.py) is
-- SystemdBoot: its sort keys, its entry files with their names, the generations that it keeps, and
-- in SystemdBoot/Install the entries that `install_bootloader` writes. OptionsDoc is
-- nixos/lib/make-options-doc/mergeJSON.py, which merges two files of options. Composefs is
-- nixos/modules/system/etc/build-composefs-dump.py, which lists the files of an image.
--
-- How code corresponds to definitions: functions and methods keep their names. A Python call is an
-- `Action` (Base): it takes the state and returns a value or an exception with the new state, so
-- that what was written before a raise stays written. Objects are records of their fields; a lazy
-- property is an option. What the tools ask of the system (files, commands, QEMU, the guest, a
-- clock) is a record of functions over an unknown state: `Outside` for machines, `Host` for the
-- Taskserver, `Disk` for composefs, `Tools` for a polling condition, `Site` for the boot loader. A
-- machine of a driver is given the world for each call and hands it back, so that all machines and
-- the logger share one. Dicts are association lists in insertion order. In the calls of a machine
-- `with nested(...)` is kept by its first log entry; the driver enters and leaves the logger's
-- contexts. A file that is renamed into place is written at once. `Composefs` takes paths as
-- pathlib has them, without a repeated slash or one at the end. Texts are native strings, or lists
-- of code points where lines are taken apart.
--
-- Loops and fuel: loops over lists are recursions on them. `retry` counts its rounds down, as the
-- source does. `connect` goes through the chunks that the guest will send, and `QMPSession` makes
-- at most as many reads as there are lines to come; when they are used up the source waits for
-- ever, and the model gives the error `hangs`. The steps of `start` and the wait for QEMU's process
-- may also raise or never return.
--
-- Not modelled: the VLans, the arguments of the test driver, the tools that recognise text, the
-- interactive shell and console, and the copies over the shared directory; the JSON of boot
-- specifications, the extra files and the calls of bootctl in `install_bootloader`; the repart
-- definitions, the session tool of the display managers, and helpers of single tests, which are
-- mostly input and output.
pub mod Base
pub mod TestDriver
pub mod TaskServer
pub mod SystemdBoot
pub mod OptionsDoc
pub mod Composefs
pub mod Tests
