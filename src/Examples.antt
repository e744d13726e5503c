-- ===== src/Examples.antt =====
-- The theorems at concrete inputs, and runs of the definitions.
mod Data
mod SafetyRuns
mod TableRuns
mod ProtocolRuns
mod RestoreRuns
mod DeviceRuns
mod MessageRuns
mod ClientRuns
mod SysfsRuns
mod HelperRuns
mod WorkerRuns
