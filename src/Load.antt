-- ===== src/Load.antt =====
-- Loading one File: filedge/loader.py, filedge/field_crypto.py and the Connector interface of
-- filedge/connectors/__init__.py.
pub mod Crypto
pub mod Connector
pub mod Config
pub mod LoadFile
pub mod Yields
pub mod Exact
pub mod Sql
