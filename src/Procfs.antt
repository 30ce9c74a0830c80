-- ===== src/Procfs.antt =====
-- source/kernel/procfs.c: the files below /proc by which the module is managed and its rings are
-- read. Mngt has the handlers that all management files share, Entries the five files.
pub mod Mngt
pub mod Entries
pub mod Lines
pub mod WriteLine
pub mod DeviceFiles
pub mod ListText
pub mod SizeFile
pub mod Examples
