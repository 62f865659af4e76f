-- ===== src/Lib.antt =====
-- Verification library of phpatcher, a PHP extension that patches source files in memory, and of the
-- tools that write its patches.
--
-- A patch (a phpatcher-ed bundle) has a section for each file: ed commands, whose input lines may be
-- references to runs of lines of other files, each with a length or hash guard. The extension parses
-- the bundle into an index by path, and its hooks hand the patched text to the engine in place of the
-- file. Byte strings are lists of numbers; the numbers are the native ones.
--
-- patch.hpp and patch.cpp:
--   Text (split_lines, join_lines, rtrim, trim_blanks, skip_blanks), with Text/Lines and Text/Trim;
--   Number (read_uint, parse_decimal_full), with Number/Decimal and Number/Print (std::to_string);
--   RefHash (ref_hash, ref_hash_hex, ref_hash_parse), with RefHash/Hex;
--   Ed (EdRef, EdPiece, EdCommand, FilePatch);
--   Directive (parse_ed_command, parse_quoted, parse_guard_tokens, parse_r_directive);
--   Apply (build_input, validate_command_order, apply_ed_script): Apply/Splices is the sequential and
--   the simultaneous application of splices, Apply/Plan what a command stands for in the original
--   file, Apply/Simultaneous relates the script to it;
--   Order and Search (std::sort, std::unique, std::lower_bound), with Search/Sorting and Search/Bisect;
--   PatchSet (finalize, recanonicalize, find, has_basename), with PatchSet/Lookup,
--   PatchSet/Duplicates and PatchSet/Basenames;
--   Bundle (PatchSet::parse, parse_ed_bundle): the loop over the lines is a step on a record of the
--   variables of the function.
-- phpatcher.cpp:
--   Resolver (phpatcher_make_resolver, phpatcher_split_lines), with Resolver/Guards;
--   Extension (the INI settings, the globals, what the engine gives the hooks);
--   Produce (phpatcher_get_patched, phpatcher_precompute, phpatcher_fail_stub), with Produce/Fresh
--   and Produce/Warm;
--   Hooks (phpatcher_resolve, phpatcher_compile_file, phpatcher_resolve_path,
--   phpatcher_stream_open), with Hooks/Policy and Hooks/Created;
--   Lifecycle (phpatcher_base_dir, PHP_MINIT_FUNCTION, PHP_MSHUTDOWN_FUNCTION), with
--   Lifecycle/Startup and Lifecycle/Caches;
--   Dict is the std::unordered_map of both.
-- tools/changes.cpp:
--   Generator (quote_ed, make_guard, emit_ref, emit_change, emit_newfile, the loop of main), with
--   Generator/Quote, Paddings, References and Resolution for references, and Commands, Blocks,
--   Changes, Sections, Texts and Bundles for the text of a bundle.
--   Collector (DiffPayload, hunk_cb, line_cb, diff_buffers): libgit2 is the sequence of its calls;
--   Collector/Contents is the content of an added line with its end, Collector/Diff says which calls
--   describe an edit, Collector/Placed and Collector/Edits what a change and a list of changes do,
--   Collector/Patch takes a diff through the generator, the parser, the index and the script, and
--   Collector/Corpora does so with a corpus.
--   Generator/Added (normalize_block_keys, emit_added_corpus): the added lines as references to a
--   corpus, with Generator/Added/Reading (what the patcher puts in for the lines that are written),
--   Walk (the loop over the block), Ranges, Rewrapped (the loop over a run of a normalized index),
--   Blocks, and Lines and BlockLines (no line that is written ends the block);
--   Generator/Emitter (emit_change, emit_newfile, the loop of main) is the text of a bundle whatever
--   writes the added lines, with Emitter/Written (lines in place of the added ones), Texts and Scripts.
-- tools/matcher.cpp:
--   Matcher (the loops of main), with Matcher/Written (against emit_added_corpus), Counted (the counts)
--   and Summary.
-- tools/matcher_core.hpp:
--   Factorize (factorize), with Factorize/Extend (how far a candidate grows), Rounds and Covered (one
--   anchor), Accepted and Sorted (all of them).
-- tools/indexer.cpp:
--   IndexFile (write_index), with the reader of tools/changes.cpp (Index::load, Index::find);
--   IndexFile/Layout, Keys and RoundTrip read back what is written, Postings the packed postings, Cut
--   the files that break off;
--   Indexer (split_csv, the scan of a file, normalize_worker, process_normalized_parallel): the
--   threads are a schedule that says who takes the next file; Indexer/Files is the scan of a file,
--   Indexer/Walk (with Walk/Selected) the walk over the directories,
--   Indexer/Serial the byte index of the files, with Serial/Located, Lines and Occurrences (what a
--   posting names) and Stored (the file that is written and read), and
--   Workers, Merging and Counts the parallel build.
-- tools/normalizer.hpp:
--   Normalizer (read_all, read_view, write_all, run_each, run): the answers of read() and write() are
--   lists; Normalizer/Streams is reading as from one string of bytes, Protocol and Responses what is
--   made of a response. Words has the bytes of its words and those of the index file.
-- Base has what all of them share, Tests the theorems at concrete inputs.
--
-- Conventions. A result with an error message is a Result, a parser that returns false an Option.
-- Line numbers are never negative, since read_uint reads no sign; `bytes = -1` is `none`. Positions
-- in a text are the text behind them. std::sort may order equal elements in any way and is a stable
-- insertion sort here; finalize accepts no equal paths. Loops are structural; those on fuel are
-- `bisect`, which gets the length of the list, `print_digits`, which gets the number itself plus one,
-- `read_loop`, which gets the number of bytes that are asked for, and `run_loop`, `emit_loop`,
-- `match_run_loop` and `match_loop`, which get the lines of the run and of the block, and `ref_loop`,
-- which gets one more than the lines of the range; the theorems on them show that this is enough. The
-- disk is a function from paths to contents that stays as it is during a call; the mutexes and atomics
-- of phpatcher.cpp do not show, since the model makes one access after another. The words of an index
-- file are in little-endian order, the machine's own in the code.
--
-- Not modelled: the operating system behind read_file and canonicalize (parameters: the fields
-- `disk`, `realpath` and `canonicalize` of Engine), the engine's own handlers that the hooks wrap,
-- phpatcher_stats and the module info, which only print; libgit2, the command lines of the tools and
-- the counts of the walk of the indexer; the pipes and the process of the normalizer and
-- normalize.php itself (parameters: the lines that it answers with). The index, the corpus
-- and the references of the matcher are those of tools/changes.cpp over again. A file id
-- beyond the table of the index, on which `files_.at` throws and the tool ends, is outside the corpus.
-- `fs::relative`, which follows symbolic links, is a parameter of the walk.
mod Base
pub mod Text
pub mod Number
pub mod Words
pub mod Normalizer
pub mod IndexFile
pub mod Factorize
pub mod Indexer
pub mod Matcher
pub mod RefHash
pub mod Ed
pub mod Directive
pub mod Apply
pub mod Order
pub mod Search
pub mod PatchSet
pub mod Bundle
pub mod Dict
pub mod Resolver
pub mod Extension
pub mod Produce
pub mod Hooks
pub mod Lifecycle
pub mod Generator
pub mod Collector
mod Tests
