-- ===== src/Runner.antt =====
-- runner/run.py: the benchmark runner, one child for each part of the file.
mod Tests
pub mod Cores
pub mod Specs
pub mod Servers
pub mod Proc
pub mod Ready
pub mod Sampler
pub mod Report
pub mod Matrix
pub mod Processes
pub mod Loadgen
pub mod Setup
