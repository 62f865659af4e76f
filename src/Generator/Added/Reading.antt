-- ===== src/Generator/Added/Reading.antt =====
-- The lines that are written for a block, and what patch.cpp puts in for them.
use phpatcher.Base.Results.{bind-eq-ok}
use phpatcher.Base.{
  Bytes, All, ok, ◌≤◌, List, [], ◌∷◌, ◌++◌, map, append_assoc, Option, some, ◌≡◌, refl, sym, ap,
  arith,
}
use phpatcher.Apply.{RefResolver, resolved_lines, build_input}
use phpatcher.Collector.Placed.{Plain, build_input-Plain}
use phpatcher.Directive.{parse_ed_input_piece}
use phpatcher.Ed.{EdPiece, literal, reference}
use phpatcher.Generator.Added.{then_lines}

-- Two lists of lines, related line by line.
abbrev pub AllPairs : (Bytes → Bytes → Type 0) → List Bytes → List Bytes → Type 0
AllPairs L [] [] = Unit
AllPairs L (x ∷ xs) (y ∷ ys) = L x y × AllPairs L xs ys
AllPairs L _ _ = 1 ≤ 0

AllPairs-append :
    (L : Bytes → Bytes → Type 0) (xs xs' ys ys' : List Bytes)
    → AllPairs L xs xs'
    → AllPairs L ys ys'
    → AllPairs L (xs ++ ys) (xs' ++ ys')
AllPairs-append L [] [] ys ys' _ k = k
AllPairs-append L [] (x ∷ xs') ys ys' h k = absurd (omega arith)
AllPairs-append L (x ∷ xs) [] ys ys' h k = absurd (omega arith)
AllPairs-append L (x ∷ xs) (x' ∷ xs') ys ys' (l, h) k = (l, AllPairs-append L xs xs' ys ys' h k)

pub AllPairs-same :
    (L : Bytes → Bytes → Type 0) (xs : List Bytes) → ((x : Bytes) → L x x) → AllPairs L xs xs
AllPairs-same L [] same = tt
AllPairs-same L (x ∷ xs) same = (same x, AllPairs-same L xs same)

build_input-append :
    (resolve : RefResolver) (ps qs : List EdPiece) (xs ys : List Bytes)
    → build_input resolve ps ≡ ok xs
    → build_input resolve qs ≡ ok ys
    → build_input resolve (ps ++ qs) ≡ ok (xs ++ ys)
unfolding build_input
build_input-append resolve [] qs xs ys h k = let e : [] ≡ xs = cc in rw (sym e) k
build_input-append resolve (literal l ∷ ps) qs xs ys h k =
    let (xs', front, e) = bind-eq-ok (build_input resolve ps) _ h in
    rw (build_input-append resolve ps qs xs' ys front k)
      (let shape : l ∷ xs' ≡ xs = cc in rw (sym shape) refl)
build_input-append resolve (reference ref ∷ ps) qs xs ys h k =
    let (lines, first, h1) = bind-eq-ok (resolved_lines resolve ref) _ h in
    let (xs', front, e) = bind-eq-ok (build_input resolve ps) _ h1 in
    rw (first, build_input-append resolve ps qs xs' ys front k)
      (let shape : lines ++ xs' ≡ xs = cc in rw (sym shape, append_assoc lines xs' ys) refl)

map-append :
    (xs ys : List Bytes)
    → map parse_ed_input_piece (xs ++ ys)
      ≡ map parse_ed_input_piece xs ++ map parse_ed_input_piece ys
map-append [] ys = refl
map-append (x ∷ xs) ys = ap (◌∷◌ (parse_ed_input_piece x)) (map-append xs ys)

module _ (resolve : RefResolver) (L : Bytes → Bytes → Type 0) where
  -- The patcher reads what was written, and the lines it puts in are related to those of the block.
  pub record Emits (part : List Bytes) (o : Option (List Bytes)) : Type 0 where
    pub written : List Bytes
    pub lines : List Bytes
    pub returns : o ≡ some written
    pub reads : build_input resolve (map parse_ed_input_piece written) ≡ ok lines
    pub related : AllPairs L part lines

  pub Emits-then :
      {p q : List Bytes} {o o' : Option (List Bytes)}
      → Emits p o
      → Emits q o'
      → Emits (p ++ q) (then_lines o o')
  unfolding then_lines
  Emits-then {p} {q} e f = record {
    written = e.written ++ f.written;
    lines = e.lines ++ f.lines;
    returns = rw (e.returns, f.returns) refl;
    reads =
        rw (map-append e.written f.written)
          (build_input-append resolve _ _ e.lines f.lines e.reads f.reads);
    related = AllPairs-append L p e.lines q f.lines e.related f.related;
  }

  pub Emits-nil : Emits [] (some [])
  unfolding build_input
  Emits-nil = record { written = []; lines = []; returns = refl; reads = refl; related = tt }

  -- Lines that stand for themselves.
  pub Emits-literals : (xs : List Bytes) → ((x : Bytes) → L x x) → All Plain xs → Emits xs (some xs)
  Emits-literals xs same plain = record {
    written = xs;
    lines = xs;
    returns = refl;
    reads = build_input-Plain resolve xs plain;
    related = AllPairs-same L xs same;
  }
