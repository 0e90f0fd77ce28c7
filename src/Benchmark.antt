-- ===== src/Benchmark.antt =====
-- The benchmark's corpora: src/app/benchmark/domain.
pub mod Csv
pub mod JobPoll
pub mod Mapping
pub mod Corpus
pub mod HubImport
pub mod Tests
