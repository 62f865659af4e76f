-- ===== src/IndexFile/Postings.antt =====
-- Packed postings.
use phpatcher.Base.{ℕ, ◌+◌, ◌*◌, ◌^◌, ◌≡◌, arith}
use phpatcher.IndexFile.{pack, posting_file, posting_line}
use phpatcher.Words.{IsU32}
use phpatcher.Words.Bits.{bit_or_high, bit_and-low_word}

-- The two halves of a packed posting.
pub posting-pack :
    (file_id lineno : ℕ)
    → IsU32 file_id
    → IsU32 lineno
    → (posting_file (pack file_id lineno) ≡ file_id) × (posting_line (pack file_id lineno) ≡ lineno)
unfolding pack posting_file posting_line
posting-pack file_id lineno hf hl =
    rw (bit_or_high 32 lineno file_id hl)
      (omega arith, rw (bit_and-low_word (file_id * 2 ^ 32 + lineno)) (omega arith))

pub posting_file-IsU32 : (p : ℕ) → IsU32 (posting_file p)
unfolding posting_file
posting_file-IsU32 p = omega arith

pub posting_line-IsU32 : (p : ℕ) → IsU32 (posting_line p)
unfolding posting_line
posting_line-IsU32 p = omega arith
