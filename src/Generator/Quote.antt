-- ===== src/Generator/Quote.antt =====
-- `quote_ed` of tools/changes.cpp against `parse_quoted` of patch.cpp.
use phpatcher.Base.{
  Bytes, ℕ, [], ◌∷◌, ◌++◌, cons-ne-nil, append-nil, append_assoc, ◌≢◌, some, ◌≡◌, refl, ap, ◌∙◌,
  arith,
}
use phpatcher.Directive.{unescape, quoted, parse_quoted}
use phpatcher.Generator.{escape_ed, quote_body, quote_ed}

-- An escape stands for its byte.
quoted_escape :
    (c : ℕ) (out t : Bytes) → t ≢ [] → quoted out (escape_ed c ++ t) ≡ quoted (out ++ c ∷ []) t
unfolding escape_ed
quoted_escape c out [] some_left = absurd (some_left refl)
quoted_escape c out (e ∷ t) some_left = unfold quoted unescape in ground arith

append-ne-nil : (xs : Bytes) (y : ℕ) (ys : Bytes) → xs ++ y ∷ ys ≢ []
append-ne-nil [] y ys = cons-ne-nil y ys
append-ne-nil (x ∷ xs) y ys = cons-ne-nil x (xs ++ y ∷ ys)

quoted-quote_body :
    (s out rest : Bytes) → quoted out (quote_body s ++ b'"' ∷ rest) ≡ some (out ++ s, rest)
unfolding quote_body
quoted-quote_body [] out [] = unfold quoted in rw append-nil refl
quoted-quote_body [] out (e ∷ rest) = unfold quoted in rw append-nil refl
quoted-quote_body (c ∷ s) out rest =
    ap (quoted out) (append_assoc (escape_ed c) (quote_body s) (b'"' ∷ rest))
    ∙ quoted_escape c out (quote_body s ++ b'"' ∷ rest) (append-ne-nil (quote_body s) b'"' rest)
    ∙ quoted-quote_body s (out ++ c ∷ []) rest
    ∙ ap (λ (x : Bytes). some (x, rest)) (append_assoc out (c ∷ []) s)

-- A quoted string is read back, whatever stands behind it.
pub parse_quoted-quote_ed : (s rest : Bytes) → parse_quoted (quote_ed s ++ rest) ≡ some (s, rest)
unfolding parse_quoted quote_ed
parse_quoted-quote_ed s rest =
    ap (quoted []) (append_assoc (quote_body s) (b'"' ∷ []) rest) ∙ quoted-quote_body s [] rest
