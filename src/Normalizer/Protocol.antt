-- ===== src/Normalizer/Protocol.antt =====
-- The client on a string of bytes: what it makes of a response does not depend on how read() cuts it
-- up.
use phpatcher.Base.Results.{◌>>=◌}
use phpatcher.Base.{
  leb, if◌then◌else◌, Bytes, length, take, drop, take-append-drop, Result, ok, err, ℕ, zero, suc,
  ◌+◌, ◌≤◌, true, false, List, [], ◌∷◌, ◌++◌, append-nil, append_assoc, Option, none, some, ◌≡◌,
  refl, sym, ap, ◌∙◌, arith,
}
use phpatcher.Normalizer.{
  Write, wrote, write_interrupted, write_broken, Client, ReadError, closed, stuck, write_loop,
  write_all, read_all, read_view, Fatal, read_failed, truncated_response, truncated_key, fatal_on,
  u32_at, byte_at, request, run_lines, run_each,
}
use phpatcher.Normalizer.Streams.{stream, IsReady, ReadOf, read_all-stream, read_view-stream}

-- The next `n` bytes, or an error.
unfoldable pub next_bytes : Fatal → ℕ → Bytes → Result Fatal (Bytes × Bytes)
next_bytes e n bytes = if leb n (length bytes) then ok (take n bytes, drop n bytes) else err e

module _ {S : Type 0} (on_line : ℕ → ℕ → Bytes → S → S) where
  -- The lines of a response, and the bytes behind them.
  unfoldable pub parse_lines : ℕ → ℕ → S → Bytes → Result Fatal (S × Bytes)
  parse_lines zero i s bytes = ok (s, bytes)
  parse_lines (suc n) i s bytes = next_bytes truncated_response 5 bytes >>= λ (meta, b).
      next_bytes truncated_key (u32_at (drop 1 meta)) b >>= λ (key, b').
      parse_lines n (i + 1) (on_line i (byte_at meta) key s) b'

  unfoldable pub parse_response : S → Bytes → Result Fatal (S × Bytes)
  parse_response s bytes =
      next_bytes read_failed 4 bytes >>= λ (hdr, b). parse_lines (u32_at hdr) 0 s b

-- The same value, and the client is left in front of the same bytes; or the same error.
module _ {S : Type 0} where
  abbrev pub Agrees : Result Fatal (S × Client) → Result Fatal (S × Bytes) → Type 0
  Agrees (ok (s, client)) (ok (t, bytes)) = (s ≡ t) × IsReady client × (stream client ≡ bytes)
  Agrees (err e) (err f) = e ≡ f
  Agrees (ok _) (err _) = 1 ≤ 0
  Agrees (err _) (ok _) = 1 ≤ 0

  Agrees-next_bytes :
      (e : Fatal) (n : ℕ) (bytes : Bytes) (r : Result ReadError (Bytes × Client))
      (f : Bytes × Client → Result Fatal (S × Client))
      (g : Bytes × Bytes → Result Fatal (S × Bytes))
      → ReadOf bytes n r
      → ((front : Bytes) (c : Client) → IsReady c → Agrees (f (front, c)) (g (front, stream c)))
      → Agrees (fatal_on e r >>= f) (next_bytes e n bytes >>= g)
  unfolding fatal_on next_bytes
  Agrees-next_bytes e n bytes (ok (front, c)) f g (enough, same, h, rest) then_agrees =
      let test : leb n (length bytes) ≡ true = ground arith in
      rw (test, sym same, sym rest) (then_agrees front c h)
  Agrees-next_bytes e n bytes (err closed) f g short then_agrees =
      let test : leb n (length bytes) ≡ false = ground arith in rw test refl
  Agrees-next_bytes e n bytes (err stuck) f g bad then_agrees = absurd (omega arith)

write_loop-sent :
    (writes : List Write) (sent bytes : Bytes) (r : Bytes × List Write)
    → write_loop writes sent bytes ≡ some r
    → r.0 ≡ sent ++ bytes
unfolding write_loop
write_loop-sent writes sent [] r e = cc (e, append-nil sent)
write_loop-sent [] sent (c ∷ bytes) r e = cc
write_loop-sent (wrote zero ∷ writes) sent (c ∷ bytes) r e = cc
write_loop-sent (wrote (suc w) ∷ writes) sent (c ∷ bytes) r e =
    write_loop-sent writes (sent ++ take (suc w) (c ∷ bytes)) (drop (suc w) (c ∷ bytes)) r e
    ∙ (append_assoc sent (take (suc w) (c ∷ bytes)) (drop (suc w) (c ∷ bytes))
        ∙ ap (◌++◌ sent) (take-append-drop (suc w) (c ∷ bytes)))
write_loop-sent (write_interrupted ∷ writes) sent (c ∷ bytes) r e =
    write_loop-sent writes sent (c ∷ bytes) r e
write_loop-sent (write_broken ∷ writes) sent (c ∷ bytes) r e = cc

accepted_client :
    (c c1 : Client) (o : Option (Bytes × List Write))
    → (elim o [
      | none ↦ none
      | some (sent, writes) ↦ some (record c { sent = sent; writes = writes })
    ])
      ≡ some c1
    → (r : Bytes × List Write) × (o ≡ some r) × (c1 ≡ record c { sent = r.0; writes = r.1 })
accepted_client c c1 none e = cc
accepted_client c c1 (some r) e = (r, refl, cc)

-- A write that succeeds has sent all the bytes, and leaves what is to be read.
pub write_all_lem :
    (c c1 : Client) (bytes : Bytes)
    → write_all c bytes ≡ some c1
    → (c1.sent ≡ c.sent ++ bytes) × (c1.rpos ≡ c.rpos) × (c1.rbuf ≡ c.rbuf) × (c1.reads ≡ c.reads)
unfolding write_all
write_all_lem c c1 bytes e =
    let (r, done, shape) = accepted_client c c1 (write_loop c.writes c.sent bytes) e in
    rw shape (write_loop-sent c.writes c.sent bytes r done, refl, refl, refl)

write_all-stream :
    (c c1 : Client) (bytes : Bytes)
    → write_all c bytes ≡ some c1
    → IsReady c
    → IsReady c1 × (stream c1 ≡ stream c)
write_all-stream c c1 bytes e h =
    let (_, pos, buf, more) = write_all_lem c c1 bytes e in rw (pos, buf, more) (h, refl)

module _ {S : Type 0} (on_line : ℕ → ℕ → Bytes → S → S) where
  run_lines-parse_lines :
      (n i : ℕ) (s : S) (c : Client)
      → IsReady c
      → Agrees (run_lines on_line n i s c) (parse_lines on_line n i s (stream c))
  unfolding run_lines parse_lines
  run_lines-parse_lines zero i s c h = (refl, h, refl)
  run_lines-parse_lines (suc n) i s c h =
      Agrees-next_bytes truncated_response 5 (stream c) (read_all c 5) _ _ (read_all-stream 5 c h)
        λ meta c1 h1.
          Agrees-next_bytes truncated_key _ (stream c1) (read_view c1 (u32_at (drop 1 meta))) _ _
            (read_view-stream _ c1 h1)
            λ key c2 h2. run_lines-parse_lines n (i + 1) (on_line i (byte_at meta) key s) c2 h2

  -- However the bytes arrive, `run_each` finds in them what the parser of a string finds.
  pub run_each-parse_response :
      (c c1 : Client) (content : Bytes) (s : S)
      → write_all c (request content) ≡ some c1
      → IsReady c
      → Agrees (run_each on_line c content s) (parse_response on_line s (stream c))
  unfolding run_each parse_response
  run_each-parse_response c c1 content s accepted h =
      let (h1, same) = write_all-stream c c1 (request content) accepted h in
      rw (accepted, sym same)
        (Agrees-next_bytes read_failed 4 (stream c1) (read_all c1 4) _ _ (read_all-stream 4 c1 h1)
          λ hdr c2 h2. run_lines-parse_lines (u32_at hdr) 0 s c2 h2)
