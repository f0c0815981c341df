-- ===== src/Lib.antt =====
-- vca, a search over the words of a user's documents.
--
-- The program. A daemon walks the directories of the user's configuration, takes the words out of
-- every file by a tokenizer for its kind, and keeps them in a database; clients ask it, over HTTP,
-- for the files that hold some words. A desktop client keeps its state in a model of nodes with
-- undo and redo. The library core/vca holds what they share: texts, paths, the configuration and
-- the database.
--
-- The files. A text is the list of its code points or bytes; numbers are natural ones.
--   CaseMappings: core/vca/case_mappings.cpp, entry by entry, and `to_lower_case` and
--     `to_upper_case` of core/vca/string.cpp.
--   Text: the rest of the words in core/vca/string.cpp, from `special_chars` to `tokenize`. Boost
--     is the interface Text/Boost, its functions and what is documented of them; Text/Reference
--     meets it.
--   Utf8: `narrow_to_wide` and `wide_to_narrow` over the codec of the standard library.
--   Xml: `xml_unescape`, `XMLParser` and `xml_tag_content` of core/vca/string.cpp.
--   Tokenizers: daemon/src/txt_tokenizer.cpp, tex_tokenizer.cpp and xml_tokenizer.cpp, which read
--     a file by `read_text` of core/vca/filesystem.cpp and hand its text to `tokenize`.
--     Tokenizers/Zipxml is daemon/src/zipxml_tokenizer.cpp over Zip, and Tokenizers/Pdf
--     daemon/src/pdf_tokenizer.cpp: the interpreter of the operators of a page (Interpreter) and the
--     joining of hyphenated words (Hyphens), over what the PDF library reads.
--   Zip: `ZipInflater` of core/vca/zip_inflater.cpp.
--   Paths: `Path::is_parent_of` and the comparison of paths in core/vca/filesystem.cpp and .h, and
--     `Fingerprint` there (Fingerprint, Sampling, Parts).
--   Config: `UserConfig` of core/vca/config.cpp: `normalize_root_dirs` (RootDirs), reading, filling
--     and writing the file and what a change of it leads to (User, Read, Written).
--   Watch: daemon/src/file_watcher.cpp and daemon/src/file_scanner.cpp: `user_config_changed`, which
--     both have alike (Sync), and what a change of a file and a scan push (Events).
--   Daemon: the configuration with the watcher and the scanner as its observers, which share the
--     database, over a run of the daemon: daemon/src/daemon.cpp makes the database, the watcher and
--     the scanner (Session), and a change of the file is read and told to both (World), but a
--     deletion or a move of it to neither (Session).
--   Pool: `Async` of core/vca/async.cpp and `ThreadPool` of desktop/src/qtc/ThreadPool.cpp, as steps
--     of threads in any order, which sleep and are roused (Worker, Drain, Exits), and `CommandQueue`
--     of desktop/src/qtc/CommandQueue.cpp (Commands).
--   Http: daemon/src/http_server.cpp, `FileContents::fromSearch` of core/vca/userdb.cpp and the
--     loop of command/src/command.cpp.
--   Desktop: `SearchHandler` and `StatusHandler` of desktop/src/engine.
--   UserDb: core/vca/userdb.h and core/vca/sqlite_userdb.cpp. `FileContents` and its order
--     (Contents, Order), `SearchCache` (Cache, MapTree, Eviction), `SearchResult` and the map of
--     results (Results), the
--     calls of `SqliteUserDb` (Store, Search) over the interface Sql of the statements they run.
--   FileProcessor: daemon/src/file_processor.cpp, which joins the words of a file's name with those
--     that its tokenizer finds; a tokenizer is any function of the path that may throw.
--   Qtc: `Model` and `NodeBase` of desktop/src/qtc, over any type of values.
--   Tests: runs at concrete inputs.
--
-- State is passed on: an operation that changes an object takes it and gives it back. An error
-- that is thrown is `none`, or an outcome of its own. A set or a map is the list of its elements; for
-- the map of `SearchCache`, whose `operator<` is no order on all keys, MapTree has the search in its
-- tree and says when the list shows the same.
--
-- Fuel: the loop of `xml_tag_content` runs on fuel, one more than there are bytes, which is enough
-- because each round moves the parser on. The choice of a port takes any fuel of a hundred rounds
-- or more, and the joining of the words of a PDF one more round than there are words; running out of
-- fuel is an outcome of its own. All other loops are structural recursion.
--
-- Bounds: indices of texts are far below the largest `int`, since at most 81920 bytes of a file
-- are read, so they do not wrap around. The positions in a file that a fingerprint reads are taken
-- modulo 2 ^ 64.
--
-- Not modelled: logging; what the SQL statements do, the contents of archives and PDF files, JSON,
-- and the disk, which are parameters; the prefix of paths on Windows; the requests themselves and
-- Qt; the command queue of the daemon and its main program; `AppConfig`; the copies of the bytes of
-- a fingerprint; the empty path, which the standard library does not make absolute. Undefined
-- behaviour is a value of its own where the code can run into it.

pub mod Prelude
pub mod CaseMappings
pub mod Text
pub mod Utf8
pub mod Xml
pub mod Zip
pub mod Tokenizers
pub mod Http
pub mod Paths
pub mod Config
pub mod Daemon
pub mod Desktop
pub mod UserDb
pub mod FileProcessor
pub mod Watch
pub mod Pool
pub mod Qtc
pub mod Tests
