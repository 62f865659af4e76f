-- ===== src/Directive.antt =====
-- patch.cpp, lines 132 to 298: the header of an ed command, the quoted strings, the guard and the
-- `r` directive of a corpus reference. An out parameter is part of the result; what a failing call
-- has written to it is never read.
use phpatcher.Base.Options.{◌>>=◌}
use phpatcher.Base.{
  ltb, ◌==◌, if◌then◌else◌, Bytes, codes, is_empty, ℕ, Bool, true, false, not, ◌||◌, [], ◌∷◌, ◌++◌,
  Option, none, some,
}
use phpatcher.Ed.{
  trim_pad, EdRef, empty_ref, EdPiece, literal, reference, delete, change, append, insert,
  EdCommand,
}
use phpatcher.Number.{read_uint, parse_decimal_full}
use phpatcher.RefHash.{ref_hash_parse}
use phpatcher.Text.{rtrim, is_space, skip_blanks, after_prefix}

-- The switch on the command letter; the flag is `needs_input`.
unfoldable pub command_of : ℕ → ℕ → ℕ → Option (EdCommand × Bool)
command_of op first second =
    if op == b'd'
    then some (record { kind = delete; start = first; end = second; input = [] }, false)
    else if op == b'c'
    then some (record { kind = change; start = first; end = second; input = [] }, true)
    else if op == b'a'
    then some (record { kind = append; start = first; end = first; input = [] }, true)
    else if op == b'i'
    then some (record { kind = insert; start = first; end = first; input = [] }, true)
    else none

-- Behind the first number: `,` and a second number, or the first number again.
unfoldable pub second_address : ℕ → Bytes → Option (ℕ × Bytes)
second_address first [] = some (first, [])
second_address first (c ∷ s) = if c == b',' then read_uint s else some (first, c ∷ s)

-- The letter and what follows it.
unfoldable pub command_letter : ℕ → ℕ → Bytes → Option (EdCommand × Bool)
command_letter first second [] = none
command_letter first second (op ∷ s) =
    if not (is_empty (rtrim s)) then none else command_of op first second

unfoldable pub parse_ed_command : Bytes → Option (EdCommand × Bool)
unfolding second_address command_letter command_of
parse_ed_command line = do
  (first, s) ← read_uint line
  (second, t) ← second_address first s
  command_letter first second t

unfoldable pub unescape : ℕ → Option ℕ
unescape e =
    if e == b'\\'
    then some b'\\'
    else if e == b'"'
    then some b'"'
    else if e == b't'
    then some b'\t'
    else if e == b'r'
    then some b'\r'
    else if e == b'n'
    then some b'\n'
    else none

-- The loop behind the opening quote: the string, and the text behind the closing quote.
unfoldable pub quoted : Bytes → Bytes → Option (Bytes × Bytes)
unfolding unescape
quoted out [] = none
quoted out (c ∷ []) = if c == b'"' then some (out, []) else none
quoted out (c ∷ e ∷ s) =
    let escape = unescape e >>= λ d. quoted (out ++ d ∷ []) s in
    let plain = quoted (out ++ c ∷ []) (e ∷ s) in
    if c == b'"' then some (out, e ∷ s) else if c == b'\\' then escape else plain

unfoldable pub parse_quoted : Bytes → Option (Bytes × Bytes)
unfolding quoted
parse_quoted [] = none
parse_quoted (c ∷ s) = if not (c == b'"') then none else quoted [] s

-- One token of the guard; the flag is `have_guard`.
unfoldable pub guard_token : Bytes → Bool × EdRef → Option (Bool × EdRef)
guard_token tok (have, ref) = elim (after_prefix (codes "s:") tok) [
  | some len ↦ parse_decimal_full len >>= λ n. some (true, record ref { bytes = some n })
  | none ↦ elim (after_prefix (codes "h:") tok) [
    | some hex ↦ ref_hash_parse hex >>= λ h. some (true, record ref { hash = h; has_hash = true })
    | none ↦ if not (is_empty tok) then none else some (have, ref)
  ]
]

-- The loop over the tokens; `tok` holds the bytes of the current one. The last token may be empty,
-- where the loop ends one round earlier: an empty token changes nothing.
unfoldable pub guard_tokens : Bytes → Bytes → Bool × EdRef → Option (Bool × EdRef)
unfolding guard_token
guard_tokens tok [] g = guard_token tok g
guard_tokens tok (c ∷ s) g =
    let next = guard_token tok g >>= λ h. guard_tokens [] s h in
    let more = guard_tokens (tok ++ c ∷ []) s g in if c == b' ' then next else more

unfoldable pub parse_guard_tokens : Bytes → EdRef → Option EdRef
unfolding guard_tokens
parse_guard_tokens meta ref = do
  (have, r) ← guard_tokens [] meta (false, ref)
  if have then some r else none

-- A path without quotes: the bytes before the next blank.
bare_path : Bytes → Bytes → Bytes × Bytes
bare_path path [] = (path, [])
bare_path path (c ∷ s) = if is_space c then (path, c ∷ s) else bare_path (path ++ c ∷ []) s

unfoldable pub parse_path : Bytes → Option (Bytes × Bytes)
unfolding bare_path
parse_path [] = none
parse_path (c ∷ s) =
    let bare = bare_path [] (c ∷ s) in
    if c == b'"' then parse_quoted (c ∷ s) else if is_empty bare.0 then none else some bare

-- The two paddings, if a quote comes next.
unfoldable pub parse_pads : EdRef → Bytes → Option (EdRef × Bytes)
parse_pads ref [] = some (ref, [])
parse_pads ref (c ∷ s) = elim (c == b'"') [
  | false ↦ some (ref, c ∷ s)
  | true ↦ do
    (lpad, t) ← parse_quoted (c ∷ s)
    (rpad, u) ← parse_quoted (skip_blanks t)
    some (record ref { lpad = lpad; rpad = rpad; transform = trim_pad }, skip_blanks u)
]

unfoldable pub parse_r_directive : Bytes → Option EdRef
unfolding parse_path parse_pads
parse_r_directive line = do
  s ← after_prefix (codes "r ") line
  (path, t) ← parse_path (skip_blanks s)
  (begin, u) ← read_uint (skip_blanks t)
  (end, v) ← read_uint (skip_blanks u)
  (ref, w) ←
      if ltb begin 1 || ltb end begin
      then none
      else parse_pads (record empty_ref { path = path; begin = begin; end = end }) (skip_blanks v)
  meta ← after_prefix (codes "# ") w
  parse_guard_tokens meta ref

-- A line that is no complete directive is kept as it stands.
unfoldable pub parse_ed_input_piece : Bytes → EdPiece
parse_ed_input_piece line = elim (parse_r_directive line) [
  | some ref ↦ reference ref
  | none ↦ literal line
]
