-- ===== src/Indexer/Serial.antt =====
-- tools/indexer.cpp, lines 440 to 508: the files of a byte index, one after another.
pub mod Located
pub mod Lines
pub mod Occurrences
pub mod Stored
use phpatcher.Base.{ℕ, false, List, [], ◌∷◌, none, some}
use phpatcher.IndexFile.RoundTrip.{indexed}
use phpatcher.Indexer.{FileScan, scan_bytes, NormFile}

-- A file of the walk: no posting has named it yet.
unfoldable pub begin_file : FileScan → FileScan
begin_file st = record st { file_id = 0; have_id = false; lineno = 0 }

-- The loop over the files that match; one that cannot be read is left out.
unfoldable pub scan_files : ℕ → List NormFile → FileScan → FileScan
unfolding begin_file
scan_files min_len [] st = st
scan_files min_len (f ∷ files) st =
    scan_files min_len files
      (elim f.content [ none ↦ st | some s ↦ scan_bytes min_len f.rel [] s (begin_file st) ])

-- The empty index, and the counts of `main`.
abbrev pub no_scan : FileScan
no_scan = record {
  index = record { files = []; lines = [] };
  file_id = 0;
  have_id = false;
  lineno = 0;
  total = 0;
  nonempty = 0;
  indexed = 0;
}
