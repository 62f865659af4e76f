-- ===== src/Generator/References.antt =====
-- `emit_ref` of tools/changes.cpp against `parse_r_directive` of patch.cpp.
use phpatcher.Base.{
  ltb, ◌==◌, Bytes, codes, All, All-append, ℕ, zero, suc, ◌/◌, ◌%◌, ◌^◌, ◌≤◌, Bool, true, false,
  ◌||◌, [], ◌∷◌, ◌++◌, append-nil, append_assoc, ◌≢◌, Option, none, some, ◌≡◌, refl, ap, ◌∙◌, arith,
}
use phpatcher.Directive.{
  guard_token, guard_tokens, parse_guard_tokens, parse_path, parse_pads, parse_r_directive,
}
use phpatcher.Ed.{trim_pad, EdRef, empty_ref}
use phpatcher.Generator.{quote_ed, guard_text, pads_text, ref_line}
use phpatcher.Generator.Quote.{parse_quoted-quote_ed}
use phpatcher.Number.{int64_max, read_uint}
use phpatcher.Number.Decimal.{IsDigit, read_limit}
use phpatcher.Number.Print.{
  to_string, to_string-digits, read_uint-to_string, parse_decimal_full-to_string,
}
use phpatcher.RefHash.{RefHash, ref_hash, hex_digit, lane_hex, ref_hash_hex}
use phpatcher.RefHash.Hex.{ref_hash_parse-ref_hash}
use phpatcher.Text.{is_digit, drop_while, is_space, skip_blanks, after_prefix}
use phpatcher.Text.Trim.{HeadFails, after_prefix-append}

abbrev NotSpace : ℕ → Type 0
NotSpace c = (c == b' ') ≡ false

IsDigit-NotSpace : (ds : Bytes) → All IsDigit ds → All NotSpace ds
IsDigit-NotSpace [] _ = tt
IsDigit-NotSpace (d ∷ ds) (h, hs) = (ground arith, IsDigit-NotSpace ds hs)

hex_digit-NotSpace : (v : ℕ) → NotSpace (hex_digit v)
unfolding hex_digit
hex_digit-NotSpace v = ground arith

lane_hex-NotSpace : (k x : ℕ) → All NotSpace (lane_hex k x)
unfolding lane_hex hex_digit
lane_hex-NotSpace zero x = tt
lane_hex-NotSpace (suc k) x = (hex_digit-NotSpace (x / 16 ^ k % 16), lane_hex-NotSpace k x)

-- Blanks end in front of a digit.
skip_blanks-digits :
    (ds rest : Bytes) → ds ≢ [] → All IsDigit ds → skip_blanks (ds ++ rest) ≡ ds ++ rest
unfolding skip_blanks is_space drop_while
skip_blanks-digits [] rest some_left _ = absurd (some_left refl)
skip_blanks-digits (d ∷ ds) rest _ (h, _) = ground arith

skip_blanks-to_string :
    (n : ℕ) (rest : Bytes) → skip_blanks (b' ' ∷ (to_string n ++ rest)) ≡ to_string n ++ rest
skip_blanks-to_string n rest =
    let (some_left, digits) = to_string-digits n in
    unfold skip_blanks is_space drop_while in skip_blanks-digits (to_string n) rest some_left digits

-- A guard of one token.
guard_tokens-one :
    (s tok : Bytes) (g : Bool × EdRef)
    → All NotSpace s
    → guard_tokens tok s g ≡ guard_token (tok ++ s) g
unfolding guard_tokens
guard_tokens-one [] tok g _ = rw append-nil refl
guard_tokens-one (c ∷ s) tok g (h, hs) = rw h (
    guard_tokens-one s (tok ++ c ∷ []) g hs
    ∙ ap (λ (t : Bytes). guard_token t g) (append_assoc tok (c ∷ []) s))

-- The reference that a line stands for.
abbrev pub guarded : Bool → Bytes × ℕ → EdRef → EdRef
guarded true (bytes, len) ref = record ref { hash = ref_hash bytes; has_hash = true }
guarded false (bytes, len) ref = record ref { bytes = some len }

abbrev pub with_pads : Option (Bytes × Bytes) → EdRef → EdRef
with_pads none ref = ref
with_pads (some (lpad, rpad)) ref = record ref { lpad = lpad; rpad = rpad; transform = trim_pad }

guard_token-length :
    (len : ℕ) (ref : EdRef)
    → len ≤ int64_max
    → guard_token (codes "s:" ++ to_string len) (false, ref)
      ≡ some (true, record ref { bytes = some len })
unfolding guard_token after_prefix
guard_token-length len ref fits = rw (parse_decimal_full-to_string len fits) refl

guard_token-hash :
    (s : Bytes) (ref : EdRef)
    → guard_token (codes "h:" ++ ref_hash_hex (ref_hash s)) (false, ref)
      ≡ some (true, record ref { hash = ref_hash s; has_hash = true })
unfolding guard_token after_prefix
guard_token-hash s ref = rw (ref_hash_parse-ref_hash s) refl

ref_hash_hex-NotSpace : (h : RefHash) → All NotSpace (ref_hash_hex h)
unfolding ref_hash_hex
ref_hash_hex-NotSpace h =
    All-append NotSpace (lane_hex 16 h.a) (lane_hex 16 h.b) (lane_hex-NotSpace 16 h.a)
      (lane_hex-NotSpace 16 h.b)

guard_text-NotSpace : (hash : Bool) (r : Bytes × ℕ) → All NotSpace (guard_text hash r)
unfolding guard_text
guard_text-NotSpace true (bytes, len) = (refl, (refl, ref_hash_hex-NotSpace (ref_hash bytes)))
guard_text-NotSpace false (bytes, len) =
    (refl, (refl, IsDigit-NotSpace (to_string len) (to_string-digits len).1))

parse_guard_tokens-guard_text :
    (hash : Bool) (r : Bytes × ℕ) (ref : EdRef)
    → r.1 ≤ int64_max
    → parse_guard_tokens (guard_text hash r) ref ≡ some (guarded hash r ref)
unfolding parse_guard_tokens
parse_guard_tokens-guard_text true (bytes, len) ref fits =
    rw
      (guard_tokens-one (guard_text true (bytes, len)) [] (false, ref)
        (guard_text-NotSpace true (bytes, len)))
      (unfold guard_text in rw (guard_token-hash bytes ref) refl)
parse_guard_tokens-guard_text false (bytes, len) ref fits =
    rw
      (guard_tokens-one (guard_text false (bytes, len)) [] (false, ref)
        (guard_text-NotSpace false (bytes, len)))
      (unfold guard_text in rw (guard_token-length len ref fits) refl)

-- A number between two blanks.
read_number :
    (n : ℕ) (rest : Bytes)
    → n ≤ read_limit
    → HeadFails is_digit rest
    → read_uint (skip_blanks (b' ' ∷ (to_string n ++ rest))) ≡ some (n, rest)
read_number n rest fits stops =
    rw (skip_blanks-to_string n rest) (read_uint-to_string n rest fits stops)

pads_text-HeadFails :
    (pads : Option (Bytes × Bytes)) (guard : Bytes)
    → HeadFails is_digit (pads_text pads ++ (codes " # " ++ guard))
unfolding pads_text is_digit
pads_text-HeadFails none guard = refl
pads_text-HeadFails (some (lpad, rpad)) guard = refl

-- Two quoted strings.
parse_pads-quote_ed :
    (lpad rpad rest : Bytes) (ref : EdRef)
    → parse_pads ref (quote_ed lpad ++ b' ' ∷ (quote_ed rpad ++ b' ' ∷ b'#' ∷ rest))
      ≡ some (with_pads (some (lpad, rpad)) ref, b'#' ∷ rest)
unfolding parse_pads quote_ed skip_blanks drop_while is_space
parse_pads-quote_ed lpad rpad rest ref =
    rw
      (
        parse_quoted-quote_ed lpad (b' ' ∷ (quote_ed rpad ++ b' ' ∷ b'#' ∷ rest)),
        parse_quoted-quote_ed rpad (b' ' ∷ b'#' ∷ rest),
      )
      refl

-- Behind the two line numbers: the paddings, if there are any, and the mark of the guard.
pads-rest :
    (pads : Option (Bytes × Bytes)) (ref : EdRef) (guard : Bytes)
    → parse_pads ref (skip_blanks (pads_text pads ++ (codes " # " ++ guard)))
      ≡ some (with_pads pads ref, codes "# " ++ guard)
pads-rest none ref guard = unfold pads_text parse_pads skip_blanks drop_while is_space in refl
pads-rest (some (lpad, rpad)) ref guard =
    let tail = codes " # " ++ guard in
    let shape : pads_text (some (lpad, rpad)) ++ tail
        ≡ b' ' ∷ (quote_ed lpad ++ b' ' ∷ (quote_ed rpad ++ tail)) =
      unfold pads_text in
      ap (◌∷◌ b' ') (append_assoc (quote_ed lpad) (b' ' ∷ quote_ed rpad) tail) in
    rw shape (
      unfold skip_blanks drop_while is_space quote_ed in
      parse_pads-quote_ed lpad rpad (b' ' ∷ guard) ref)

abbrev pub range_ref : Bytes → ℕ → ℕ → EdRef
range_ref path begin end = record empty_ref { path = path; begin = begin; end = end }

-- The line of a reference is read back as that reference, whatever bytes the path and the paddings
-- have.
pub parse_r_directive-ref_line :
    (path : Bytes) (begin end : ℕ) (pads : Option (Bytes × Bytes)) (hash : Bool) (r : Bytes × ℕ)
    → 1 ≤ begin
    → begin ≤ end
    → end ≤ read_limit
    → r.1 ≤ int64_max
    → parse_r_directive (ref_line path begin end pads (guard_text hash r))
      ≡ some (guarded hash r (with_pads pads (range_ref path begin end)))
unfolding parse_r_directive
parse_r_directive-ref_line path begin end pads hash r first ordered bound fits =
    let guard = guard_text hash r in
    let behind = pads_text pads ++ (codes " # " ++ guard) in
    let second = b' ' ∷ (to_string end ++ behind) in
    let numbers = b' ' ∷ (to_string begin ++ second) in
    let ordered_test : ltb begin 1 || ltb end begin ≡ false = ground arith in
    let start : after_prefix (codes "r ") (ref_line path begin end pads guard)
        ≡ some (quote_ed path ++ numbers) =
      unfold after_prefix ref_line in refl in
    let name : parse_path (skip_blanks (quote_ed path ++ numbers)) ≡ some (path, numbers) =
      unfold parse_path skip_blanks drop_while is_space quote_ed in
      parse_quoted-quote_ed path numbers in
    rw
      (
        start,
        name,
        read_number begin second (omega arith) (unfold is_digit in refl),
        read_number end behind bound (pads_text-HeadFails pads guard),
        ordered_test,
        pads-rest pads (range_ref path begin end) guard,
        after_prefix-append (codes "# ") guard,
      )
      (parse_guard_tokens-guard_text hash r (with_pads pads (range_ref path begin end)) fits)
