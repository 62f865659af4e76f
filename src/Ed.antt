-- ===== src/Ed.antt =====
-- The data of a phpatcher-ed patch: patch.hpp, lines 76 to 151.
use phpatcher.Base.{Bytes, ℕ, Bool, false, List, [], Option, none}
use phpatcher.RefHash.{RefHash}

-- How a resolved line is put in: unchanged, or trimmed between two paddings.
pub data Transform : Type 0 where
  exact trim_pad : Transform

-- `begin`, `end` and `bytes` are int64_t. They are read by `read_uint` and `parse_decimal_full`, so
-- they are never negative, but for `bytes = -1`, "no length guard", which is `none` here.
pub record EdRef : Type 0 where
  pub path : Bytes
  pub begin : ℕ
  pub end : ℕ
  pub bytes : Option ℕ
  pub has_hash : Bool
  pub hash : RefHash
  pub transform : Transform
  pub lpad : Bytes
  pub rpad : Bytes

-- `EdRef{}`.
abbrev pub empty_ref : EdRef
empty_ref = record {
  path = [];
  begin = 0;
  end = 0;
  bytes = none;
  has_hash = false;
  hash = record { a = 0; b = 0 };
  transform = exact;
  lpad = [];
  rpad = [];
}

pub data EdPiece : Type 0 where
  literal : Bytes → EdPiece
  reference : EdRef → EdPiece

pub data Kind : Type 0 where
  delete change append insert : Kind

pub record EdCommand : Type 0 where
  pub kind : Kind
  pub start : ℕ
  pub end : ℕ
  pub input : List EdPiece

-- `EdCommand()`.
abbrev pub empty_command : EdCommand
empty_command = record { kind = delete; start = 0; end = 0; input = [] }

pub record FilePatch : Type 0 where
  pub commands : List EdCommand
  pub creates : Bool

-- `FilePatch()`.
abbrev pub empty_patch : FilePatch
empty_patch = record { commands = []; creates = false }
