-- ===== src/Lifecycle/Caches.antt =====
-- The maps of the patched contents after the start.
use phpatcher.Base.{Bytes, [], inl, inr, Option, none, some, ◌≡◌, sym, ap, subst, ◌∙◌}
use phpatcher.Dict.{lookup}
use phpatcher.Ed.{FilePatch}
use phpatcher.Extension.{Settings, Contents, Globals, Engine}
use phpatcher.Lifecycle.{Process, loaded_globals, minit}
use phpatcher.Lifecycle.Startup.{Outcome, if_either, minit-Outcome, patchset-loaded}
use phpatcher.PatchSet.{PatchSet, path_of, find}
use phpatcher.Produce.{lookup_in}
use phpatcher.Produce.Fresh.{IsFresh, Coherent}
use phpatcher.Produce.Warm.{precompute-Coherent}
use phpatcher.Resolver.{Disk}
use phpatcher.Search.Sorting.{IsStrict}

IsFresh-none :
    (disk : Disk) (anchor : Bytes) (patch_for : Bytes → Option FilePatch) (m : Option Contents)
    → m ≡ none
    → IsFresh disk anchor patch_for m
unfolding lookup_in
IsFresh-none disk anchor patch_for none e path content fp has hit = cc
IsFresh-none disk anchor patch_for (some m) e path content fp has hit = cc

IsFresh-empty :
    (disk : Disk) (anchor : Bytes) (patch_for : Bytes → Option FilePatch)
    → IsFresh disk anchor patch_for (some [])
unfolding lookup_in lookup
IsFresh-empty disk anchor patch_for path content fp has hit = cc

loaded_globals-Coherent :
    (engine : Engine) (settings : Settings) (set : PatchSet) (g : Globals)
    → g.precomputed ≡ none
    → IsStrict path_of set.index
    → Coherent engine.disk (find set) (loaded_globals engine settings set g)
unfolding loaded_globals
loaded_globals-Coherent engine settings set g fresh strict =
    let h : Globals = record g { patchset = some set; cached = some [] } in
    if_either (Coherent engine.disk (find set)) settings.precompute
      (precompute-Coherent engine.disk set h strict (IsFresh-empty engine.disk g.anchor (find set)))
      (record {
        of_precomputed = IsFresh-none engine.disk g.anchor (find set) g.precomputed fresh;
        of_cached = IsFresh-empty engine.disk g.anchor (find set);
      })

some_inj : {x y : PatchSet} → some x ≡ some y → x ≡ y
some_inj h = cc

-- A start that loads a patch whose keys are still distinct leaves right maps behind, with the warm-up
-- and without it: no content in them differs from the one that a compile would produce.
pub minit-Coherent :
    (engine : Engine) (cwd : Option Bytes) (settings : Settings) (p : Process) (set : PatchSet)
    → p.globals.patchset ≡ none
    → p.globals.precomputed ≡ none
    → (minit engine cwd settings p).globals.patchset ≡ some set
    → IsStrict path_of set.index
    → Coherent engine.disk (find set) (minit engine cwd settings p).globals
minit-Coherent engine cwd settings p set unloaded fresh loaded strict =
    go (minit-Outcome engine cwd settings p) loaded
  where
    go :
        {q : Process}
        → Outcome engine settings p q
        → q.globals.patchset ≡ some set
        → Coherent engine.disk (find set) q.globals
    go (inl idle) loaded = cc
    go {q} (inr active) loaded =
        let g : Globals = record p.globals { anchor = active.dir } in
        let known : q.globals.patchset ≡ some (active.set) =
          ap (λ (h : Globals). h.patchset) (active.globals_loaded)
          ∙ patchset-loaded engine settings (active.set) g in
        let same : active.set ≡ set = some_inj (sym known ∙ loaded) in
        let shape : q.globals ≡ loaded_globals engine settings set g =
          active.globals_loaded ∙ ap (λ (s : PatchSet). loaded_globals engine settings s g) same in
        subst (Coherent engine.disk (find set)) (sym shape)
          (loaded_globals-Coherent engine settings set g fresh strict)
