-- ===== src/Runner.antt =====
-- src/ns3_runner/afsim-ns3-runner.cc: the program that reads scenarios from its input, has ns-3
-- simulate them and writes the results.
mod Scenario
pub mod Valid
mod Parse
mod Path
mod Network
pub mod Results
pub mod Numbers
mod Main
mod Examples
unfoldable pub use Scenario.*
unfoldable pub use Parse.*
unfoldable pub use Path.*
unfoldable pub use Network.*
unfoldable pub use Main.*
