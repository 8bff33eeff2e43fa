-- ===== src/Lib.antt =====
-- filedge loads Files from a Watched Directory into a Destination and keeps their states in an
-- audit table. The library models its core, a module for each part:
--   Audit        filedge/db.py and filedge/audit_records.py: the table etl_file_audit as a list of
--                rows (Record), its SQL (Sql), each operation as a function from table to table
--                (Store), requeueing, lineage and status (Requeue). Consistency, Lock, States,
--                Lifecycle and Eligibility hold the proofs; Lifecycle is the state machine of a
--                File as a step relation on tables, with marks in any state of the row, since
--                mark_committed and mark_failed test none.
--   Rows         filedge/transform.py, filedge/column_types.py and filedge/validator.py.
--   Quarantine   filedge/quarantine/processor.py, filedge/quarantine/sink.py and
--                filedge/quarantine/redrop.py; a generator is the sequence of what its consumer
--                sees (Stream).
--   Destination  SqlConnector.write_rows of filedge/connectors/sql_base.py, on a connection with
--                what the transaction sees and what is durable.
--   Cdc          filedge/cdc.py and SqlConnector.write_cdc_rows.
--   Load         filedge/field_crypto.py and filedge/loader.py; the connector is a record with the
--                laws that a load relies on, and Sql is the one of filedge/connectors/sql_base.py.
--   Pipeline     filedge/source_manifest.py, filedge/file_registration.py and filedge/pipeline.py.
--                Commits, Ledger and Booked compare the audit table with the destination; Kept
--                and Forever are about whole Runs one after another.
--   FixedWidth   filedge/fixed_width.py, on lines as lists of characters, which is what the code
--                slices.
--   Schema       filedge/schema.py.
--   Companion    filedge/companion/: the staged File, its sidecar, and the promotion of both under
--                the Fetch Lock, as the sequence of the visible states; a write or a move may
--                raise, as a parameter says (Disk).
--   Fetch        filedge/fetch/orchestrator.py, filedge/fetch/cursor_state.py and
--                filedge/fetch/source_client.py: a computation over the state of the world.
--   Materialize  filedge/materialize/consumer.py, decoder.py and orchestrator.py: the Micro-batches
--                of a queue, from any sequence of polls.
--   Registry     filedge/pipeline_registry.py, filedge/pipeline_resolution.py, filedge/reference.py.
--   Config       config_from_dict of filedge/config.py, on values of the documented types.
--   Inferrer     infer_schema of filedge/inferrer.py, with its tests in filedge/column_types.py.
--   Compactor    filedge/compactor.py, without crashes between a rename and its mark.
--   Authoring    filedge/authoring_draft.py, filedge/authoring_validation.py and
--                filedge/authoring_workflow.py; Session is its operations as a step relation, and
--                Roundtrip a config that is opened as a draft and made a config again.
--   Tests        concrete runs of the models.
--   Base         what the modules share: Boolean tests, dicts with text keys, JSON, results.
-- A Run (Pipeline/Run) resets and reclaims rows of the audit table, registers the Files of the
-- directory, and for each candidate claims the row, loads the File through the connector and marks
-- the outcome. Each operation of db.py takes the value of _now() as an argument; the model's tick
-- stands for the time between two readings of the clock.
--
-- Parameters: Python's values with their conversions (Rows/Python), their equality and order
-- (Cdc/Values), json.loads and json.dumps, white space, the ciphers and key lookup, the engine's
-- acceptance of a batch of rows, the HTTP transport, the broker, the paths of a staged File, which
-- writes and moves of Files raise, listing, hashing and reading Files, and regular expressions. The
-- laws that a theorem needs of them are arguments.
--
-- Bounds: numbers are unbounded, as in Python. The loop of get_hash_states over chunks of 500 is
-- on fuel; it is called with the number of hashes, and each round drops at least one. The loop of
-- compact over its batches is on fuel too, the number of files, and the loops over pages of an API,
-- whose end is the API's. The loops of the queue consumer go
-- over the answers of poll, one round each.
--
-- Left out: progress events, logging and tracing, the command line, the terminal interface for
-- authoring, writing and opening a pipeline folder, the connectors other than the shared SQL
-- writing path, the other parsers, reading YAML, table creation and health checks, which are input
-- and output or clients of other systems. The configuration files of the companions, the broker's
-- client and the change data paths of the Databricks and BigQuery connectors are still to come. A
-- commit of the audit database is taken to follow each operation at once.
pub mod Base
pub mod Audit
pub mod Rows
pub mod Quarantine
pub mod Destination
pub mod Cdc
pub mod Load
pub mod FixedWidth
pub mod Schema
pub mod Companion
pub mod Fetch
pub mod Materialize
pub mod Registry
pub mod Compactor
pub mod Config
pub mod Inferrer
pub mod Authoring
pub mod Pipeline
pub mod Tests
