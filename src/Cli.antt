-- ===== src/Cli.antt =====
-- cli/lumenflow-cli/src/main.rs: the configuration of the command line client.
pub mod Config
pub mod Invocation
pub mod Csv
pub mod CsvRows
pub mod Validation
pub mod Precedence
pub mod Submission
pub mod Table
pub mod Alignment
pub mod Commands
pub mod Reports
pub mod Redaction
pub mod Main
pub mod Submitted
