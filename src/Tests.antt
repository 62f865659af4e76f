-- ===== src/Tests.antt =====
-- The headline theorems at concrete inputs, one module for each part.
mod Texts
mod Bundles
mod Diffs
mod Lifetimes
mod Patched
mod Includes
mod Scripts
mod Indexes
mod Extensions
mod Corpora
mod Added
mod Matched
mod Scanned
