-- ===== src/Lib.antt =====
-- herbarium indexes a C project that GCC has built: `herbarium collect` reads the dumps and the
-- binaries into one SQLite file, and `herbarium serve` answers an agent's questions about it. This
-- library models the parts of it that compute, and proves what makes them correct.
--
-- The parts and their files:
--   Base       what the other files share: tests, lists, maps as association lists, sorting, Go
--              strings as lists of bytes, and the names passed on from the libraries.
--   GccDump    internal/gccdump/types.go, the records of the parsed dumps, and `mergeSymbol` of
--              internal/gccdump/cgraph.go.
--              GccDump/CgraphDump is the rest of cgraph.go, the parser of the dump, line by line.
--              GccDump/CallgraphInfo is internal/gccdump/ci.go, in the same way.
--              GccDump/IcfFolds is internal/gccdump/icf.go, in the same way.
--              GccDump/InlineSummaries is internal/gccdump/inline.go, in the same way.
--              GccDump/OptRecord is internal/gccdump/optrecord.go, from the decoded JSON on.
--   Usr        internal/usr/usr.go: the symbol names (USRs), `itoa`, and `Clone`.
--   NinjaDeps  internal/ninjadeps/ninjadeps.go: the reader of the binary log .ninja_deps. `round`
--              is the body of the loop of `Read`, `records` the loop, `read_log` the function.
--              NinjaDeps/Format is the format that ninja writes, independent of the reader.
--   Ingest     internal/ingest/ingest.go and paths.go: `Compiler`, which resolves the local ids of
--              each translation unit to USRs (`aggregate_symbols`), drops what nothing refers to
--              (`prune_unreferenced`), numbers the symbols (`insert_symbols`) and writes the call
--              edges (`insert_edges`). It uses GccDump and Usr.
--   Link       internal/ingest/link.go and internal/linkplane/nm.go: which object won a
--              symbol (`pick_winning_object`), which lost, and which row of the index a name or an
--              address of a binary is. It uses Usr.
--              Link/Nm is the output of nm, and the scan of the objects for the names they define.
--   MapFile    internal/linkplane/mapfile.go: the state machine that reads the linker's map file.
--              Each expression of the source is a function here, with the expression above it.
--   Objdump    internal/linkplane/objdump.go: the direct calls in a disassembly, in the same way.
--   ExternalGlob internal/ingest/externalglob.go: the patterns of --include-external.
--   Blobstore  internal/blobstore/blobstore.go: the writer of the source blobs. `Tables` holds the
--              four tables that it fills.
--   Packing    internal/ingest/sources.go: `Sources`, which puts the files of the build into the blob
--              store. Packing/Marked has its two passes over what meson and ninja report, Packing the
--              writing. It uses Ingest/Paths, ExternalGlob, NinjaDeps and Blobstore.
--   SourceView internal/mcp/location.go: the lines of a content, snippets of them, and the content
--              behind a path, read from the tables of Blobstore. SourceView/Stored has the abstract
--              store that the writer and the reader refine.
--   SourceFiles internal/mcp/source_tools.go: the tool list_source_files, over the rows of its
--              queries, with the files of a target and the targets of a file.
--   SourceSearch internal/mcp/source_tools.go: `search_in_blob` is the search in one file, and
--              SourceSearch/Response the handler of the tool search_source around it. It reads lines
--              and snippets by SourceView.
--   Inlining   internal/mcp/callgraph_runtime_tools.go: the tools describe_inlining and explain_call,
--              on the rows that SQL gives.
--   CallTarget internal/dwarfingest/calltarget.go: the register of a call target expression, and the
--              parameter that is passed in it.
--   Reload     internal/mcp/reload_tool.go: the swap of the served index.
--   CallGraph  internal/mcp/callgraph_source_tools.go: `enumeratePaths`, the search behind the tool
--              list_call_paths, on the call edges that `Compiler` wrote. `Dfs` is the state that the
--              closure `dfs` shares with its caller, and `scan` its loop.
--
-- State and effects. A function that changes variables of its caller takes them and returns them.
-- A Go map is an association list, whose write replaces the entry of its key. Strings are lists
-- of bytes. The functions of Go's path/filepath are a record (Ingest.Paths.FilePath) that the
-- model takes as a parameter, as are SHA-256 and zstd (Blobstore.Codec) and the disk
-- (Reload.Disk, Packing.Marked.Host); SQLite is modelled by the rows that are inserted, numbered from 1 as in an empty
-- table, and its errors are not modelled.
--
-- Bounds and fuel. `dfs` has as fuel one more than the edges that `maxDepth` allows, and each
-- nested call has one edge less to go. `records` has as fuel one more than the bytes of the file,
-- and each round reads at least four. `decode` has as fuel the length of its expression.
-- `write_digits` recurses on the room that is left in the buffer, and `none` is the panic of an
-- index below it. `literal_loop` has as fuel the length of its line and the ceiling of the scan, and
-- one more: a match takes at least one byte of the line, and the matches of an empty pattern reach
-- the ceiling. The 32-bit words of the log keep their wrap-around (`% 2 ^ 32`); the row ids and the
-- line numbers are unbounded.
--
-- Not modelled: the SQL of the other tools and the tables they join, the DWARF reader, the running of
-- nm and objdump, and the command line. They are I/O, or calls of libraries outside this repository,
-- or they are left for later.
pub mod Base
pub mod Blobstore
pub mod CallGraph
pub mod CallTarget
pub mod ExternalGlob
pub mod GccDump
pub mod Ingest
pub mod Inlining
pub mod Link
pub mod MapFile
pub mod NinjaDeps
pub mod Objdump
pub mod Packing
pub mod Reload
pub mod SourceFiles
pub mod SourceSearch
pub mod SourceView
pub mod Usr
