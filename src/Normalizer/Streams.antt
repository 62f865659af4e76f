-- ===== src/Normalizer/Streams.antt =====
-- Reading from the client is reading from the stream of its bytes, however they arrive.
use phpatcher.Base.Results.{◌>>=◌}
use phpatcher.Base.{
  ltb, leb, ◌==◌, if◌then◌else◌, ==_iff, Bool-cases, Bytes, length, take, drop, length-append,
  take-append_le, drop-append_le, drop-all, length-drop, drop-drop, take-take-drop, Result, ok, err,
  ℕ, zero, suc, ◌+◌, ◌-◌, ◌≤◌, ◌<◌, min, true, List, [], ◌∷◌, ◌++◌, ◌⊎◌, inl, inr, none, some, ◌≡◌,
  refl, sym, ◌∙◌, arith,
}
use phpatcher.Generator.Blocks.{inside}
use phpatcher.IndexFile.Keys.{kept}
use phpatcher.Normalizer.{
  Read, received, read_interrupted, read_broken, Client, ReadError, closed, stuck, next_chunk,
  fill_buffer, refill, advance, buffered, read_loop, read_all, read_view,
}

-- What is still to come.
abbrev pub incoming : List Read → Bytes
incoming [] = []
incoming (received b bytes ∷ reads) = (b ∷ bytes) ++ incoming reads
incoming (read_interrupted ∷ reads) = incoming reads
incoming (read_broken ∷ reads) = []

abbrev pub stream : Client → Bytes
stream client = drop client.rpos client.rbuf ++ incoming client.reads

abbrev pub IsReady : Client → Type 0
IsReady client = client.rpos ≤ length client.rbuf

-- What a read of `n` bytes gives on a stream: the bytes and the rest, or an error if there are fewer.
abbrev pub ReadOf : Bytes → ℕ → Result ReadError (Bytes × Client) → Type 0
ReadOf s n (ok (bytes, client)) =
    (n ≤ length s) × (bytes ≡ take n s) × IsReady client × (stream client ≡ drop n s)
ReadOf s n (err closed) = length s < n
ReadOf s n (err stuck) = 1 ≤ 0

next_chunk-incoming :
    (reads : List Read)
    → (next_chunk reads ≡ none) × (incoming reads ≡ [])
      ⊎ ((b : ℕ) × (bytes : Bytes) × (rest : List Read) × (next_chunk reads
            ≡ some (b ∷ bytes, rest))
          × (incoming reads ≡ (b ∷ bytes) ++ incoming rest))
unfolding next_chunk
next_chunk-incoming [] = inl (refl, refl)
next_chunk-incoming (received b bytes ∷ reads) = inr (b, bytes, reads, refl, refl)
next_chunk-incoming (read_interrupted ∷ reads) = next_chunk-incoming reads
next_chunk-incoming (read_broken ∷ reads) = inl (refl, refl)

-- Behind a refill the buffer has a byte, and the stream is the same.
refill-stream :
    (c : Client)
    → IsReady c
    → (refill c ≡ err closed) × (stream c ≡ [])
      ⊎ ((c' : Client) × (refill c ≡ ok c') × (c'.rpos < length c'.rbuf) × (stream c' ≡ stream c))
unfolding refill
refill-stream c h = elim (Bool-cases (c.rpos == length c.rbuf)) [
  | inl e ↦
      let at_end : c.rpos ≡ length c.rbuf = (==_iff c.rpos (length c.rbuf)).0 e in
      let used : stream c ≡ incoming c.reads = rw (at_end, drop-all c.rbuf) refl in
      elim (next_chunk-incoming c.reads) [
        | inl (none_left, nothing) ↦ inl (rw (e, fill_buffer, none_left) refl, used ∙ nothing)
        | inr (b, bytes, rest, next, more) ↦ inr (
          record c { rbuf = b ∷ bytes; rpos = 0; reads = rest },
          rw (e, fill_buffer, next) refl,
          omega arith,
          sym (used ∙ more),
        )
      ]
  | inr e ↦ inr (c, rw e refl, grind (arith, ==_iff c.rpos (length c.rbuf)), refl)
]

-- Taking what is buffered is taking it from the stream.
buffered-stream :
    (n : ℕ) (c : Client)
    → IsReady c
    → n ≤ length c.rbuf - c.rpos
    → (buffered n c ≡ take n (stream c))
      × IsReady (advance n c)
      × (stream (advance n c) ≡ drop n (stream c))
buffered-stream n c h fits =
    let unread : Bytes = drop c.rpos c.rbuf in
    let inside : n ≤ length unread = omega (arith, length-drop c.rpos c.rbuf) in
    (
      sym (take-append_le n unread (incoming c.reads) inside),
      omega arith,
      rw (drop-append_le n unread (incoming c.reads) inside, drop-drop c.rpos n c.rbuf) refl,
    )

-- One piece of a read, and the rest of it.
ReadOf-step :
    (s : Bytes) (m n : ℕ) (front : Bytes) (r : Result ReadError (Bytes × Client))
    → m ≤ n
    → m ≤ length s
    → front ≡ take m s
    → ReadOf (drop m s) (n - m) r
    → ReadOf s n (r >>= λ (bytes, c). ok (front ++ bytes, c))
ReadOf-step s m n front (ok (bytes, c)) le inside e (enough, same, kept, rest) = (
  omega (arith, length-drop m s),
  rw (e, same) (take-take-drop m n s le),
  kept,
  rw (rest, drop-drop m (n - m) s) (let sum : m + (n - m) ≡ n = omega arith in rw sum refl),
)
ReadOf-step s m n front (err closed) le inside e short = omega (arith, length-drop m s)
ReadOf-step s m n front (err stuck) le inside e bad = omega arith

read_loop-stream :
    (fuel n : ℕ) (c : Client) → n ≤ fuel → IsReady c → ReadOf (stream c) n (read_loop fuel c n)
unfolding read_loop
read_loop-stream fuel zero c _ h = (omega arith, refl, h, refl)
read_loop-stream zero (suc n) c bound h = absurd (omega arith)
read_loop-stream (suc fuel) (suc n) c bound h = elim (refill-stream c h) [
  | inl (shut, nothing) ↦ rw (shut, nothing) (omega arith)
  | inr (c', filled, some_left, same) ↦
      let count = min (length c'.rbuf - c'.rpos) (suc n) in
      let (taken, kept, rest) = buffered-stream count c' (omega arith) (omega arith) in
      rw (filled, sym same)
        (ReadOf-step (stream c') count (suc n) (buffered count c')
          (read_loop fuel (advance count c') (suc n - count)) (omega arith)
          (omega (
            arith,
            length-append (drop c'.rpos c'.rbuf) (incoming c'.reads),
            length-drop c'.rpos c'.rbuf,
          ))
          taken
          (rw (sym rest)
            (read_loop-stream fuel (suc n - count) (advance count c') (omega arith) kept)))
]

-- Reading into a buffer.
pub read_all-stream : (n : ℕ) (c : Client) → IsReady c → ReadOf (stream c) n (read_all c n)
unfolding read_all
read_all-stream n c h = read_loop-stream n n c (omega arith) h

view_of :
    (n : ℕ) (c : Client)
    → IsReady c
    → ReadOf
        (stream c)
        n
        (if leb n (length c.rbuf - c.rpos) then ok (buffered n c, advance n c) else read_all c n)
view_of n c h = elim (Bool-cases (leb n (length c.rbuf - c.rpos))) [
  | inl e ↦
      let fits : n ≤ length c.rbuf - c.rpos = ground arith in
      let (taken, kept, rest) = buffered-stream n c h fits in
      rw e (
        omega (
          arith,
          length-append (drop c.rpos c.rbuf) (incoming c.reads),
          length-drop c.rpos c.rbuf,
        ),
        taken,
        kept,
        rest,
      )
  | inr e ↦ rw e (read_all-stream n c h)
]

-- Reading a view.
pub read_view-stream : (n : ℕ) (c : Client) → IsReady c → ReadOf (stream c) n (read_view c n)
unfolding read_view
read_view-stream zero c h = view_of zero c h
read_view-stream (suc n) c h =
    let some_test : ltb 0 (suc n) ≡ true = ground arith in
    elim (refill-stream c h) [
      | inl (shut, nothing) ↦ rw (some_test, shut, nothing) (omega arith)
      | inr (c', filled, some_left, same) ↦
          rw (some_test, filled, sym same) (view_of (suc n) c' (omega arith))
    ]
