-- ===== src/CommandLine.antt =====
-- pkg/main.go and pkg/util.go: the flags and the configuration become settings, and the settings the action
-- that is run. Logging to files is left out.
pub mod InputTime
pub mod Settings
pub mod Prepare
pub mod Dispatch
pub mod PidFile
pub mod Signals
