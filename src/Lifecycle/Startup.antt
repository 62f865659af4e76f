-- ===== src/Lifecycle/Startup.antt =====
-- What the start leaves behind, and that the shutdown takes it back.
use phpatcher.Base.{
  if◌then◌else◌, Bool-cases, Bytes, is_empty, All, Result, ok, err, Bool, true, false, not, List,
  [], ◌∷◌, ◌++◌, ◌⊎◌, inl, inr, Option, none, some, ◌≡◌, refl, ap, ap₂, ◌∙◌,
}
use phpatcher.Bundle.{parse}
use phpatcher.Extension.{Settings, Globals, Engine}
use phpatcher.Lifecycle.{
  ours, Slots, Originals, no_originals, Process, base_dir_of, real_key, has_virtual, install_slots,
  install_originals, loaded_globals, install, load_parsed, load_text, minit, is_ours, unchain,
  release, mshutdown,
}
use phpatcher.PatchSet.{Entry, PatchSet, recanonicalize}
use phpatcher.Produce.{precompute}

-- The start hooked nothing in.
pub record Idle (p q : Process) : Type 0 where
  pub same_slots : q.slots ≡ p.slots
  pub same_originals : q.originals ≡ p.originals
  pub same_patchset : q.globals.patchset ≡ p.globals.patchset

-- The start put the module at the head of the chains.
pub record Active (engine : Engine) (settings : Settings) (p q : Process) : Type 0 where
  pub set : PatchSet
  pub dir : Bytes
  pub globals_loaded :
      q.globals ≡ loaded_globals engine settings set (record p.globals { anchor = dir })
  pub slots_hooked : q.slots ≡ install_slots (has_virtual set.index) p.slots
  pub originals_kept : q.originals ≡ install_originals (has_virtual set.index) p.slots p.originals

abbrev pub Outcome : Engine → Settings → Process → Process → Type 0
Outcome engine settings p q = Idle p q ⊎ Active engine settings p q

Idle-same : (p : Process) → Idle p p
Idle-same p = record { same_slots = refl; same_originals = refl; same_patchset = refl }

load_parsed-Outcome :
    (engine : Engine) (settings : Settings) (text dir : Bytes) (p : Process)
    (r : Result Bytes PatchSet)
    → Outcome engine settings p (
        load_parsed engine settings text
          (record p { globals = record p.globals { anchor = dir } })
          r)
unfolding load_parsed install
load_parsed-Outcome engine settings text dir p (err e) =
    inl (record { same_slots = refl; same_originals = refl; same_patchset = refl })
load_parsed-Outcome engine settings text dir p (ok set) = elim (Bool-cases (is_empty set.index)) [
  | inl e ↦ rw e (inl (record { same_slots = refl; same_originals = refl; same_patchset = refl }))
  | inr e ↦ rw e (
      inr (record {
        set = recanonicalize (real_key engine) set;
        dir = dir;
        globals_loaded = refl;
        slots_hooked = refl;
        originals_kept = refl;
      }))
]

load_text-Outcome :
    (engine : Engine) (cwd : Option Bytes) (settings : Settings) (p : Process) (r : Option Bytes)
    → Outcome engine settings p (load_text engine cwd settings p r)
unfolding load_text
load_text-Outcome engine cwd settings p none =
    inl (record { same_slots = refl; same_originals = refl; same_patchset = refl })
load_text-Outcome engine cwd settings p (some text) =
    let dir = base_dir_of engine cwd settings in
    load_parsed-Outcome engine settings text dir p
      (parse (λ path. engine.canonicalize path dir) text)

pub if_either {ℓ κ} :
    {A : Type ℓ} (P : A → Type κ) (b : Bool) {x y : A} → P x → P y → P (if b then x else y)
if_either P true px py = px
if_either P false px py = py

pub minit-Outcome :
    (engine : Engine) (cwd : Option Bytes) (settings : Settings) (p : Process)
    → Outcome engine settings p (minit engine cwd settings p)
unfolding minit
minit-Outcome engine cwd settings p =
    if_either (Outcome engine settings p) (not settings.enabled) (inl (Idle-same p)) (
      if_either (Outcome engine settings p) (is_empty settings.patch_file) (inl (Idle-same p))
        (load_text-Outcome engine cwd settings p (engine.disk settings.patch_file)))

release_none : (s : Slots) → release no_originals s ≡ (no_originals, s)
unfolding release unchain
release_none s = refl

release-install :
    (virtual : Bool) (s : Slots)
    → release (install_originals virtual s no_originals) (install_slots virtual s)
      ≡ (no_originals, s)
unfolding release unchain is_ours install_originals install_slots
release-install true s = refl
release-install false s = refl

released :
    (engine : Engine) (settings : Settings) (p q : Process)
    → p.originals ≡ no_originals
    → Outcome engine settings p q
    → release q.originals q.slots ≡ (no_originals, p.slots)
released engine settings p q none_kept (inl idle) =
    ap₂ release (idle.same_originals ∙ none_kept) (idle.same_slots) ∙ release_none p.slots
released engine settings p q none_kept (inr active) =
    let virtual = has_virtual (active.set).index in
    ap₂ release (active.originals_kept ∙ ap (install_originals virtual p.slots) none_kept)
      (active.slots_hooked)
    ∙ release-install virtual p.slots

-- Whatever the start did, a shutdown right behind it puts every pointer of the engine back to where
-- it was, and keeps no handler and no patch.
pub mshutdown-minit :
    (engine : Engine) (cwd : Option Bytes) (settings : Settings) (p : Process)
    → p.originals ≡ no_originals
    → let q = mshutdown (minit engine cwd settings p) in
      (q.slots ≡ p.slots) × (q.originals ≡ no_originals) × (q.globals.patchset ≡ none)
unfolding mshutdown
mshutdown-minit engine cwd settings p none_kept =
    let e =
      released engine settings p (minit engine cwd settings p) none_kept
        (minit-Outcome engine cwd settings p) in
    (ap (λ (r : Originals × Slots). r.1) e, ap (λ (r : Originals × Slots). r.0) e, refl)

-- A section of the index creates a file.
abbrev pub Creates : List Entry → Type 0
Creates index =
    (front : List Entry) × (e : Entry) × (back : List Entry) × (index ≡ front ++ e ∷ back)
    × (e.patch.creates ≡ true)

-- The two pointers that are needed for created files: ours if there are any, else those before.
abbrev pub HookedForCreated : List Entry → Slots → Slots → Type 0
HookedForCreated index before after =
    (Creates index × (after.resolve_slot ≡ ours) × (after.stream_slot ≡ ours))
    ⊎ (All (λ e. e.patch.creates ≡ false) index
        × (after.resolve_slot ≡ before.resolve_slot)
        × (after.stream_slot ≡ before.stream_slot))

-- The engine's pointers behind a start that left this patch.
abbrev pub HookedFor : Option PatchSet → Slots → Slots → Type 0
HookedFor none before after = after ≡ before
HookedFor (some set) before after =
    (after.compile_slot ≡ ours) × HookedForCreated set.index before after

has_virtual-cases :
    (index : List Entry)
    → ((has_virtual index ≡ true) × Creates index)
      ⊎ ((has_virtual index ≡ false) × All (λ e. e.patch.creates ≡ false) index)
unfolding has_virtual
has_virtual-cases [] = inr (refl, tt)
has_virtual-cases (e ∷ es) = elim (Bool-cases e.patch.creates) [
  | inl h ↦ inl (rw h refl, ([], e, es, refl, h))
  | inr h ↦ elim (has_virtual-cases es) [
    | inl (v, (front, x, back, shape, c)) ↦ inl (rw h v, (e ∷ front, x, back, ap (◌∷◌ e) shape, c))
    | inr (v, none_creates) ↦ inr (rw h v, (h, none_creates))
  ]
]

install_slots-HookedFor :
    (set : PatchSet) (before : Slots)
    → HookedFor (some set) before (install_slots (has_virtual set.index) before)
unfolding install_slots
install_slots-HookedFor set before = elim (has_virtual-cases set.index) [
  | inl (v, creates) ↦ rw v (refl, inl (creates, refl, refl))
  | inr (v, none_creates) ↦ rw v (refl, inr (none_creates, refl, refl))
]

pub patchset-loaded :
    (engine : Engine) (settings : Settings) (set : PatchSet) (g : Globals)
    → (loaded_globals engine settings set g).patchset ≡ some set
unfolding loaded_globals precompute
patchset-loaded engine settings set g =
    if_either (λ (h : Globals). h.patchset ≡ some set) settings.precompute refl refl

-- From a process without a patch: if a start leaves no patch, the engine's pointers are those before
-- it. Else the compile handler is ours; the resolver and the stream opener are ours if a section of the
-- index creates a file, and those before if none does.
pub minit-HookedFor :
    (engine : Engine) (cwd : Option Bytes) (settings : Settings) (p : Process)
    → p.globals.patchset ≡ none
    → let q = minit engine cwd settings p in HookedFor q.globals.patchset p.slots q.slots
minit-HookedFor engine cwd settings p fresh = elim (minit-Outcome engine cwd settings p) [
  | inl idle ↦ rw (idle.same_patchset ∙ fresh) (idle.same_slots)
  | inr active ↦
      let loaded =
        ap (λ (g : Globals). g.patchset) (active.globals_loaded)
        ∙ patchset-loaded engine settings (active.set) _ in
      rw (loaded, active.slots_hooked) (install_slots-HookedFor (active.set) p.slots)
]
