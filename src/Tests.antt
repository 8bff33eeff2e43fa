-- ===== src/Tests.antt =====
-- Concrete runs of the models, and the theorems applied to them.
pub mod Data
mod AuditTests
mod RowsTests
mod DestinationTests
mod CdcTests
mod CompanionTests
mod FormatTests
mod SchemaTests
mod PipelineTests
mod LedgerTests
mod ClientTests
mod QueueTests
mod RegistryTests
mod CompactorTests
mod ConfigTests
mod AuthoringTests
mod InferrerTests
