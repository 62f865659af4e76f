-- ===== src/Normalizer.antt =====
-- tools/normalizer.hpp: the client of the normalizer process. What the operating system answers to
-- read() and write() is given: a list of outcomes for each, used up from the front, and behind the
-- last one the process is gone. The valid part of `rbuf_`, up to `rend_`, is `rbuf`; `scratch_` only
-- holds what `read_view` returns. start() and the destructor only call the system.
pub mod Streams
use phpatcher.Base.{
  ltb, leb, ◌==◌, if◌then◌else◌, Bytes, length, take, drop, Result, ok, err, ℕ, zero, suc, ◌+◌, ◌-◌,
  ◌%◌, ◌^◌, min, List, [], ◌∷◌, ◌++◌, Option, none, some,
}
use phpatcher.Words.{put_u32le, get_u32le}
pub mod Protocol
pub mod Responses
use phpatcher.Base.Results.{◌>>=◌}

-- read() gave these bytes, at least one; or EINTR; or another error.
pub data Read : Type 0 where
  received : ℕ → Bytes → Read
  read_interrupted : Read
  read_broken : Read

-- write() took this many bytes, or 0; or EINTR; or another error.
pub data Write : Type 0 where
  wrote : ℕ → Write
  write_interrupted : Write
  write_broken : Write

pub record Client : Type 0 where
  pub rbuf : Bytes
  pub rpos : ℕ
  pub reads : List Read
  pub writes : List Write
  pub sent : Bytes

-- `false`; `stuck` is no value of the code: a loop ran out of fuel.
pub data ReadError : Type 0 where
  closed : ReadError
  stuck : ReadError

-- `write_all`: what was sent so far, and the bytes that are left.
unfoldable pub write_loop : List Write → Bytes → Bytes → Option (Bytes × List Write)
write_loop writes sent [] = some (sent, writes)
write_loop [] sent (c ∷ bytes) = none
write_loop (wrote zero ∷ writes) sent (c ∷ bytes) = none
write_loop (wrote (suc w) ∷ writes) sent (c ∷ bytes) =
    write_loop writes (sent ++ take (suc w) (c ∷ bytes)) (drop (suc w) (c ∷ bytes))
write_loop (write_interrupted ∷ writes) sent (c ∷ bytes) = write_loop writes sent (c ∷ bytes)
write_loop (write_broken ∷ writes) sent (c ∷ bytes) = none

unfoldable pub write_all : Client → Bytes → Option Client
unfolding write_loop
write_all client bytes = elim (write_loop client.writes client.sent bytes) [
  | none ↦ none
  | some (sent, writes) ↦ some (record client { sent = sent; writes = writes })
]

-- The loop of `fill_buffer`.
unfoldable pub next_chunk : List Read → Option (Bytes × List Read)
next_chunk [] = none
next_chunk (received b bytes ∷ reads) = some (b ∷ bytes, reads)
next_chunk (read_interrupted ∷ reads) = next_chunk reads
next_chunk (read_broken ∷ reads) = none

unfoldable pub fill_buffer : Client → Result ReadError Client
unfolding next_chunk
fill_buffer client = elim (next_chunk client.reads) [
  | none ↦ err closed
  | some (bytes, reads) ↦ ok (record client { rbuf = bytes; rpos = 0; reads = reads })
]

-- `rpos_ == rend_ && !fill_buffer()` is an error.
unfoldable pub refill : Client → Result ReadError Client
unfolding fill_buffer
refill client = if client.rpos == length client.rbuf then fill_buffer client else ok client

abbrev pub advance : ℕ → Client → Client
advance n client = record client { rpos = client.rpos + n }

-- The `n` bytes behind `rpos_`.
abbrev pub buffered : ℕ → Client → Bytes
buffered n client = take n (drop client.rpos client.rbuf)

unfoldable pub read_loop : ℕ → Client → ℕ → Result ReadError (Bytes × Client)
unfolding refill
read_loop fuel client zero = ok ([], client)
read_loop zero client (suc n) = err stuck
read_loop (suc fuel) client (suc n) = refill client >>= λ c.
    let count = min (length c.rbuf - c.rpos) (suc n) in
    read_loop fuel (advance count c) (suc n - count) >>= λ (bytes, c').
    ok (buffered count c ++ bytes, c')

-- `read_all`; a round takes a byte at least.
unfoldable pub read_all : Client → ℕ → Result ReadError (Bytes × Client)
unfolding read_loop
read_all client n = read_loop n client n

unfoldable pub read_view : Client → ℕ → Result ReadError (Bytes × Client)
unfolding refill read_all
read_view client n = (if ltb 0 n then refill client else ok client) >>= λ c.
    if leb n (length c.rbuf - c.rpos) then ok (buffered n c, advance n c) else read_all c n

-- The messages of `normalizer_fatal`.
pub data Fatal : Type 0 where
  write_failed read_failed truncated_response truncated_key : Fatal

unfoldable pub fatal_on {ℓ} : {A : Type ℓ} → Fatal → Result ReadError A → Result Fatal A
fatal_on e (ok a) = ok a
fatal_on e (err _) = err e

-- `get_u32le` at the front of a buffer of four bytes.
unfoldable pub u32_at : Bytes → ℕ
unfolding get_u32le
u32_at (p0 ∷ p1 ∷ p2 ∷ p3 ∷ _) = get_u32le p0 p1 p2 p3
u32_at _ = 0

pub record NormLine : Type 0 where
  pub flag : ℕ
  pub key : Bytes

-- `meta[0]`.
unfoldable pub byte_at : Bytes → ℕ
byte_at [] = 0
byte_at (b ∷ _) = b

unfoldable pub request : Bytes → Bytes
unfolding put_u32le
request content = put_u32le (length content % 2 ^ 32) ++ content

-- `on_line` works on a state of its caller.
module _ {S : Type 0} (on_line : ℕ → ℕ → Bytes → S → S) where
  unfoldable pub run_lines : ℕ → ℕ → S → Client → Result Fatal (S × Client)
  unfolding fatal_on read_all read_view u32_at byte_at
  run_lines zero i s client = ok (s, client)
  run_lines (suc n) i s client = fatal_on truncated_response (read_all client 5) >>= λ (meta, c).
      fatal_on truncated_key (read_view c (u32_at (drop 1 meta))) >>= λ (key, c').
      run_lines n (i + 1) (on_line i (byte_at meta) key s) c'

  unfoldable pub run_each : Client → Bytes → S → Result Fatal (S × Client)
  unfolding run_lines write_all request
  run_each client content s = elim (write_all client (request content)) [
    | none ↦ err write_failed
    | some c ↦ fatal_on read_failed (read_all c 4) >>= λ (hdr, c'). run_lines (u32_at hdr) 0 s c'
  ]

-- `run`.
unfoldable pub run_normalizer : Client → Bytes → Result Fatal (List NormLine × Client)
unfolding run_each
run_normalizer client content =
    run_each (λ _ flag key out. out ++ record { flag = flag; key = key } ∷ []) client content []
