-- ===== src/Ingest.antt =====
-- internal/ingest/ingest.go: `Compiler`, over dumps that are parsed. Strings are lists of bytes,
-- maps are association lists, and a table is the list of its rows. The rows of `symbols` are
-- numbered from 1, as SQLite numbers those of an empty table.
pub mod Paths
mod Records
mod Symbols
mod Prune
mod Edges
mod Tables
mod Known
mod Numbered
mod Referenced
pub mod Kept
pub mod Distinct
mod Tests
