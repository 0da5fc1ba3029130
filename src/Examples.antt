-- ===== src/Examples.antt =====
-- The theorems at concrete inputs.
mod Anomalies
mod Calls
mod Controls
mod Retries
mod Runs
mod Services
mod Stages
mod Stops
mod Usages
mod Waits
