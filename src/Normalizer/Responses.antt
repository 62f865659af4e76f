-- ===== src/Normalizer/Responses.antt =====
-- Responses as the protocol describes them: u32 nlines, then for each line u8 flag, u32 klen and the
-- key.
use phpatcher.Base.Results.{bind-eq-ok}
use phpatcher.Base.{
  leb, Bytes, length, take, drop, length-append, take-length, drop-length, take-append_le,
  drop-append_le, All, Result, ok, err, Result-cases, ℕ, zero, suc, ◌+◌, ◌≤◌, true, List, [], ◌∷◌,
  ◌++◌, append-nil, append_assoc, ◌≢◌, inl, inr, some, ◌≡◌, refl, sym, ap, subst, ◌∙◌, arith,
}
use phpatcher.Normalizer.{
  Client, write_all, Fatal, read_failed, truncated_response, truncated_key, u32_at, NormLine,
  byte_at, request, run_each, run_normalizer,
}
use phpatcher.Normalizer.Protocol.{
  next_bytes, parse_lines, parse_response, Agrees, run_each-parse_response,
}
use phpatcher.Normalizer.Streams.{stream, IsReady}
use phpatcher.Words.{IsU32, put_u32le}
use phpatcher.Words.Bits.{put_u32le_bytes, get_u32le_bytes}

abbrev pub encode_lines : List NormLine → Bytes
encode_lines [] = []
encode_lines (l ∷ lines) = l.flag ∷ (put_u32le (length l.key) ++ (l.key ++ encode_lines lines))

abbrev pub encode_response : List NormLine → Bytes
encode_response lines = put_u32le (length lines) ++ encode_lines lines

-- The lengths are those of 32-bit words.
abbrev pub FitsWire : List NormLine → Type 0
FitsWire lines = IsU32 (length lines) × All (λ l. IsU32 (length l.key)) lines

next_bytes-word :
    (e : Fatal) (v : ℕ) (rest : Bytes)
    → next_bytes e 4 (put_u32le v ++ rest) ≡ ok (put_u32le v, rest)
unfolding next_bytes
next_bytes-word e v rest = rw (put_u32le_bytes v) (ground arith)

next_bytes-meta :
    (e : Fatal) (flag v : ℕ) (rest : Bytes)
    → next_bytes e 5 (flag ∷ (put_u32le v ++ rest)) ≡ ok (flag ∷ put_u32le v, rest)
unfolding next_bytes
next_bytes-meta e flag v rest = rw (put_u32le_bytes v) (ground arith)

u32_at-put_u32le : (v : ℕ) → IsU32 v → u32_at (put_u32le v) ≡ v
unfolding u32_at
u32_at-put_u32le v fits = rw (put_u32le_bytes v) (get_u32le_bytes v fits)

next_bytes-append : (e : Fatal) (xs ys : Bytes) → next_bytes e (length xs) (xs ++ ys) ≡ ok (xs, ys)
unfolding next_bytes
next_bytes-append e xs ys =
    let test : leb (length xs) (length (xs ++ ys)) ≡ true = ground (arith, length-append xs ys) in
    rw (test, take-length xs ys, drop-length xs ys) refl

module _ {S : Type 0} (on_line : ℕ → ℕ → Bytes → S → S) where
  -- The calls that a response stands for.
  abbrev pub deliver : ℕ → List NormLine → S → S
  deliver i [] s = s
  deliver i (l ∷ lines) s = deliver (i + 1) lines (on_line i l.flag l.key s)

  parse_lines-encode_lines :
      (lines : List NormLine) (i : ℕ) (s : S) (rest : Bytes)
      → All (λ l. IsU32 (length l.key)) lines
      → parse_lines on_line (length lines) i s (encode_lines lines ++ rest)
        ≡ ok (deliver i lines s, rest)
  unfolding parse_lines byte_at
  parse_lines-encode_lines [] i s rest _ = refl
  parse_lines-encode_lines (l ∷ lines) i s rest (fits, more) =
      let tail = encode_lines lines ++ rest in
      let shape : encode_lines (l ∷ lines) ++ rest
          ≡ l.flag ∷ (put_u32le (length l.key) ++ (l.key ++ tail)) =
        ap (◌∷◌ l.flag) (
          append_assoc (put_u32le (length l.key)) (l.key ++ encode_lines lines) rest
          ∙ ap (◌++◌ (put_u32le (length l.key))) (append_assoc l.key (encode_lines lines) rest)) in
      rw
        (
          shape,
          next_bytes-meta truncated_response l.flag (length l.key) (l.key ++ tail),
          u32_at-put_u32le (length l.key) fits,
          next_bytes-append truncated_key l.key tail,
          byte_at,
        )
        (parse_lines-encode_lines lines (i + 1) (on_line i l.flag l.key s) rest more)

  parse_response-encode_response :
      (lines : List NormLine) (s : S) (rest : Bytes)
      → FitsWire lines
      → parse_response on_line s (encode_response lines ++ rest) ≡ ok (deliver 0 lines s, rest)
  unfolding parse_response
  parse_response-encode_response lines s rest (count, keys) =
      rw
        (
          append_assoc (put_u32le (length lines)) (encode_lines lines) rest,
          next_bytes-word read_failed (length lines) (encode_lines lines ++ rest),
          u32_at-put_u32le (length lines) count,
        )
        (parse_lines-encode_lines lines 0 s rest keys)

  next_bytes_inv :
      (e : Fatal) (n : ℕ) (bytes : Bytes) (r : Bytes × Bytes)
      → next_bytes e n bytes ≡ ok r
      → (n ≤ length bytes) × (r.0 ≡ take n bytes) × (r.1 ≡ drop n bytes)
  unfolding next_bytes
  next_bytes_inv e n bytes r h = ground arith

  next_bytes_more :
      (e : Fatal) (n : ℕ) (bytes more : Bytes) (r : Bytes × Bytes)
      → next_bytes e n bytes ≡ ok r
      → next_bytes e n (bytes ++ more) ≡ ok (r.0, r.1 ++ more)
  unfolding next_bytes
  next_bytes_more e n bytes more r h =
      let (fits, front, back) = next_bytes_inv e n bytes r h in
      let test : leb n (length (bytes ++ more)) ≡ true = ground (arith, length-append bytes more) in
      rw (test, take-append_le n bytes more fits, drop-append_le n bytes more fits, front, back)
        refl

  parse_lines_more :
      (n i : ℕ) (s : S) (bytes more : Bytes) (r : S × Bytes)
      → parse_lines on_line n i s bytes ≡ ok r
      → parse_lines on_line n i s (bytes ++ more) ≡ ok (r.0, r.1 ++ more)
  unfolding parse_lines
  parse_lines_more zero i s bytes more r h = cc
  parse_lines_more (suc n) i s bytes more r h =
      let ((meta, b), first, h1) = bind-eq-ok (next_bytes truncated_response 5 bytes) _ h in
      let ((key, b'), second, h2) =
        bind-eq-ok (next_bytes truncated_key (u32_at (drop 1 meta)) b) _ h1 in
      rw
        (
          next_bytes_more truncated_response 5 bytes more (meta, b) first,
          next_bytes_more truncated_key (u32_at (drop 1 meta)) b more (key, b') second,
        )
        (parse_lines_more n (i + 1) (on_line i (byte_at meta) key s) b' more r h2)

  parse_response_more :
      (s : S) (bytes more : Bytes) (r : S × Bytes)
      → parse_response on_line s bytes ≡ ok r
      → parse_response on_line s (bytes ++ more) ≡ ok (r.0, r.1 ++ more)
  unfolding parse_response
  parse_response_more s bytes more r h =
      let ((hdr, b), first, h1) = bind-eq-ok (next_bytes read_failed 4 bytes) _ h in
      rw (next_bytes_more read_failed 4 bytes more (hdr, b) first)
        (parse_lines_more (u32_at hdr) 0 s b more r h1)

module _ {S : Type 0} where
  Agrees-ok :
      (s : S) (rest : Bytes) (r : Result Fatal (S × Client))
      → Agrees r (ok (s, rest))
      → (c : Client) × (r ≡ ok (s, c)) × IsReady c × (stream c ≡ rest)
  Agrees-ok s rest (ok (t, c)) (same, h, left) = (c, ap (λ (u : S). ok (u, c)) same, h, left)
  Agrees-ok s rest (err e) bad = absurd (omega arith)

  Agrees-err :
      (r : Result Fatal (S × Client)) (e : Fatal) → Agrees r (err e) → (f : Fatal) × (r ≡ err f)
  Agrees-err (ok (t, c)) e bad = absurd (omega arith)
  Agrees-err (err f) e _ = (f, refl)

-- The lines, numbered from 0, are what `run` returns.
abbrev push_line : ℕ → ℕ → Bytes → List NormLine → List NormLine
push_line _ flag key out = out ++ record { flag = flag; key = key } ∷ []

deliver-push :
    (lines : List NormLine) (i : ℕ) (out : List NormLine)
    → deliver push_line i lines out ≡ out ++ lines
deliver-push [] i out = sym (append-nil out)
deliver-push (l ∷ lines) i out =
    deliver-push lines (i + 1) (out ++ l ∷ []) ∙ append_assoc out (l ∷ []) lines

-- A response to `run` is read as its lines, in whatever pieces it comes, and the client is left in
-- front of what follows it.
pub run_normalizer-encode_response :
    (c c1 : Client) (content rest : Bytes) (lines : List NormLine)
    → write_all c (request content) ≡ some c1
    → IsReady c
    → FitsWire lines
    → stream c ≡ encode_response lines ++ rest
    → (c2 : Client) × (run_normalizer c content ≡ ok (lines, c2)) × IsReady c2 × (stream c2 ≡ rest)
unfolding run_normalizer
run_normalizer-encode_response c c1 content rest lines accepted h fits e =
    Agrees-ok lines rest (run_each push_line c content []) (
      subst (Agrees (run_each push_line c content []))
        (ap (parse_response push_line []) e
          ∙ (parse_response-encode_response push_line lines [] rest fits
              ∙ ap (λ (t : List NormLine). ok (t, rest)) (deliver-push lines 0 [])))
        (run_each-parse_response push_line c c1 content [] accepted h))

append-ne-nil : (xs : Bytes) (y : ℕ) (ys : Bytes) → xs ++ y ∷ ys ≢ []
append-ne-nil [] y ys e = cc
append-ne-nil (x ∷ xs) y ys e = cc

nothing_left :
    {S : Type 0} {s t : S} {rest : Bytes} (r : Result Fatal (S × Bytes))
    → r ≡ ok (s, rest)
    → r ≡ ok (t, [])
    → rest ≡ []
nothing_left r e f = cc

-- A response that breaks off ends in an error.
pub run_each_cut :
    {S : Type 0} (on_line : ℕ → ℕ → Bytes → S → S) (c c1 : Client) (content : Bytes) (s : S)
    (lines : List NormLine) (x : ℕ) (back : Bytes)
    → write_all c (request content) ≡ some c1
    → IsReady c
    → FitsWire lines
    → encode_response lines ≡ stream c ++ x ∷ back
    → (e : Fatal) × (run_each on_line c content s ≡ err e)
run_each_cut on_line c c1 content s lines x back accepted h fits e =
    elim (Result-cases (parse_response on_line s (stream c))) [
      | inl ((t, rest), got) ↦
          let longer = parse_response_more on_line s (stream c) (x ∷ back) (t, rest) got in
          let whole = parse_response-encode_response on_line lines s [] fits in
          absurd (append-ne-nil rest x back (nothing_left _ longer (rw (append-nil, e) at whole)))
      | inr (f, got) ↦ Agrees-err (run_each on_line c content s) f (
          subst (Agrees (run_each on_line c content s)) got
            (run_each-parse_response on_line c c1 content s accepted h))
    ]
