-- ===== src/Lib.antt =====
-- LibrovaInpxWeb, a server that reads INPX book catalogs: its text routines, its catalog parser,
-- the names and keys that it derives, and the parts of it that keep a state, a file or a secret.
--
-- Paths are from the repository's root. A `std::string` is the list of its bytes, `List ℕ`, and a
-- position in it is an index or the rest from there. A machine integer keeps its wrap-around where
-- it can wrap: the 32-bit buffer of base 64, and the memory of a scan, in 64 bits. `std::nullopt`
-- is `none`, and an exception is `throw` of an `Outcome`.
--
-- The parts, and where they are modelled:
-- * Unicode, for libs/Foundation/UnicodeConversion.cpp. `Utf8.try_decode` is
--   `TryDecodeUtf8CodePoint` and `Utf8.encode` is `AppendUtf8CodePoint`; `Walk` has the loop over
--   code points that `IsValidUtf8`, the normalisation and the legacy scoring share; `CaseFold` and
--   `Normalize` are `CaseFoldCodePoint` and `TryNormalizeUtf8WhitespaceAndCaseFold`; `Trim` is
--   `TryTrimTrailingIncompleteUtf8`; `Legacy` has the Cyrillic code pages and UTF-16.
-- * Filename, for libs/Foundation/FilenamePolicy.cpp, which trims with `Unicode.Trim`.
-- * Metadata, for libs/Domain/MetadataNormalization.cpp: `Key` is `NormalizeText`, over
--   `Unicode.Normalize`, and `Isbn` is `NormalizeIsbn` with its checksums.
-- * Cursor, for the base 64 of libs/Server/BookListCursor.cpp.
-- * Inpx, for libs/Inpx/InpxParser.cpp, libs/Inpx/InpxRecord.hpp and
--   libs/Foundation/StringUtils.cpp. `Archive` is `ReadSegments`, which gives segments from the
--   entries of an archive, and `ReadArchiveNameSamples`; `Segment` is `DecodeInpPayloadToUtf8`,
--   `ParseSegment`, `Parse` and `ParseAll`; `Record` is `ParseRecordLine` and `ParseAuthor`;
--   `Number` is `TryParseInteger`; `Text` has the searches, copies and splits that work in chunks.
-- * Scan, for the scans of the catalog. `Coordinator` is libs/Server/ServerScanCoordinator.cpp, a
--   client of the application host: the host is the record `Host`, each call of which may throw,
--   and the calls made on it are kept in the state. The others are of libs/App/InpxScanJobService.cpp: `Budget` has the
--   `Resolve...` functions for memory and workers, with libs/ScanSupport/ScanConcurrency.hpp;
--   `Jobs` has `CInpxScanJobService`, whose sections under a mutex are the events of a list;
--   `Plan` has the planning of `RunScan`, where `Plan.Archives` are its lambdas
--   `readArchiveState`, `readArchiveManifest` and `validateArchivePayloads`, and
--   `Plan.Segments.plan_all` goes from the callback of `ReadSegments` to the plans of removed
--   segments; `Plan.Totals.plan_progress` sets the counters of the snapshot behind it;
--   `Flight.execute` is the loop over `executionPlanIndices`, with the payloads in flight;
--   `Guards` is `ValidateArchiveGuards`, and `Complete` puts the planning and the execution
--   together.
-- * Catalog, for what a scan writes. `Locations.finish` is `CInpxCatalogStreamWriter::Finish` of
--   libs/App/InpxScanJobService.cpp on the rows of its tables, and `Covers` has the references of
--   cover files in libs/Database/CatalogStatisticsMaintenance.cpp, with what `WriteParsedRecord`
--   and `ValidateCoverCacheBudget` do with covers. The size of the cover cache is an integer
--   without bound there, where SQLite has 64 bits.
-- * Store, for libs/App/FileReplacement.cpp: `Replacement.replace` is
--   `ReplaceDestinationWithPreparedFile`, and each call on the file system has a fault of its own.
--   `Paths` is libs/Storage/PathSafety.cpp, with `IsSafeRelativePath` of
--   libs/Foundation/FileSystemUtils.cpp, where a `FileSystem` stands for `std::filesystem`.
-- * Executor, for libs/Server/BackendExecutor.cpp and libs/Server/BackendExecutor.hpp: the calls
--   of `Submit`, the sections of the worker and the stop come as a list of events.
-- * Server, for libs/Server/HttpServer.cpp: `Headers.content_disposition` is
--   `BuildContentDisposition`, and `Headers.decode_segment` is `DecodeStaticPathSegment`.
-- * Converter, for libs/Converter/ConverterCommandBuilder.cpp: `Command.build` is `Build`, and
--   `Command.expand_template` is `ExpandTemplate`.
-- * Auth, for libs/Server/AuthMiddleware.cpp.
-- * Common has the shared tests, lists, results, strings and integers, and Tests runs the theorems
--   at concrete inputs.
--
-- Loops run on fuel where the source moves an index: a loop over a string has the string's length,
-- or one more, and each round moves the index by one at least. A loop that waits for payloads has
-- as many rounds as there are payloads in flight, and each round takes one. The theorems on the
-- whole loops are without fuel, so what it is set to is enough.
--
-- Parameters: iconv, which a `Converter` stands for with `ConvertText`, the loop that feeds it;
-- libzip, which an `Entry` stands for; the application host; the archives on the disk, which are a
-- `Disk` for the planning and `Payloads` for the execution, with libs/App/InpxArchiveAccess.cpp;
-- the cover files, which a `Cache` stands for, with the safe paths of libs/Storage/PathSafety.cpp.
-- SQLite is not called: a table is the list of its rows, and each statement is a function on it.
-- Which task is ready first, in which order the sections of threads run, and whether a payload
-- parses are parameters too, so the theorems hold for any.
--
-- Left out of what is modelled: logging, the measurement of stages, hooks, and the checkpoints of
-- a stop inside the planning and the execution, behind which the scan ends without a result of its
-- own. The checkpoint callback of the parser is empty, and a replaced file has another path than
-- the prepared one. In `Scan.Plan` the two tests on a line's record and on its warning are made
-- behind the parse of the segment, so which of two errors of one segment is thrown may differ. In
-- `Scan.Flight` the tasks that are dropped behind an error are not drained.
--
-- Not modelled: the reading and the rest of the writing of the database, the rest of the HTTP
-- server, the FB2 parser, covers and the runs of the converter, which are calls of libraries or of
-- the system for the most part.
pub mod Catalog
pub mod Common
pub mod Unicode
pub mod Filename
pub mod Metadata
pub mod Cursor
pub mod Scan
pub mod Inpx
pub mod Store
pub mod Server
pub mod Converter
pub mod Executor
pub mod Auth
mod Tests
