-- ===== src/Patch/Class.antt =====
-- `_patch_class_method` of vllm_sail/patch/utils.py, where it ends well: descriptors and shadowing.
use vllm_sail.Base.{String, ◌≡◌, refl, sym, ap, ◌∙◌, ◌≢◌, inl, inr, false, not, Option, none, some}
use vllm_sail.Base.{List, [], ◌∷◌, arith, nat_eq, Bool-cases, Option-cases}
use vllm_sail.Patch.Path.{split_dot}
use vllm_sail.Patch.Heap.{
  Ref, Cell, static_method, class_method, property_object, put_cell, class_kind, PatchRecord, World,
  get_attribute,
}
use vllm_sail.Patch.Monad.{
  type_error, Result, ok, raised, M, follow, ◌>>=◌, ◌>>◌, return, require, found, allocate,
}
use vllm_sail.Patch.Attributes.{Metadata, capture_source, unwrap_class_descriptor}
use vllm_sail.Patch.Install.{
  commit, guard_class, replace_class_attribute, rebuild, build_class_attribute, is_descriptor,
  is_class, resolve_names, resolve_target_class, new_record,
}
use vllm_sail.Patch.Steps.{then_require, then_raise_if_already_patched}
use vllm_sail.Patch.Commit.{>>=-eq-ok, ok-injective, Committed, commit-Committed, is_marker}

-- The descriptor that the class gets for what it had: a replaced static or class method is one
-- again, and a property keeps its setter, its deleter and its doc. Anything else gets the
-- implementation itself.
abbrev pub KeepsDescriptor : World → Cell → Ref → Ref → Type 0
KeepsDescriptor v (static_method _) implementation x = v.cell x ≡ static_method implementation
KeepsDescriptor v (class_method _) implementation x = v.cell x ≡ class_method implementation
KeepsDescriptor v (property_object _ fset fdel doc) implementation x =
    v.cell x ≡ property_object implementation fset fdel doc
KeepsDescriptor v _ implementation x = x ≡ implementation

-- What the class gets: the replacement itself where nothing is replaced.
abbrev pub KeepsAttribute : World → World → Option Ref → Ref → Ref → Ref → Type 0
KeepsAttribute w v none attribute implementation x = x ≡ attribute
KeepsAttribute w v (some o) attribute implementation x =
    KeepsDescriptor v (w.cell o) implementation x

-- A world that has at most one new cell.
record Extended (w u : World) : Type 0 where
  own_is : u.own ≡ w.own
  registry_is : u.registry ≡ w.registry
  python_is : u.python ≡ w.python

-- A new descriptor stays when a marker is written.
record Fresh (u : World) (x : Ref) (c : Cell) : Type 0 where
  cell_is : u.cell x ≡ c
  old : x ≢ u.fresh

abbrev Built : World → Cell → Ref → Ref → Type 0
Built u (static_method _) i x = Fresh u x (static_method i)
Built u (class_method _) i x = Fresh u x (class_method i)
Built u (property_object _ s d t) i x = Fresh u x (property_object i s d t)
Built u _ i x = x ≡ i

allocate-Fresh :
    (c : Cell) (w u : World) (x : Ref) → allocate c w ≡ (ok x, u) → Fresh u x c × Extended w u
unfolding put_cell nat_eq
allocate-Fresh c w u x h =
    let (p, q) = ok-injective w.fresh x h in
    (
      record { cell_is = rw (← p, ← q) (ground arith); old = rw (← p, ← q) (λ e. omega arith) },
      record { own_is = rw (← q); registry_is = rw (← q); python_is = rw (← q) },
    )

plain-Built :
    (c : Cell) (i x : Ref) (w u : World)
    → (require (not (is_descriptor c)) type_error >> return i) w ≡ (ok x, u)
    → (x ≡ i) × Extended w u
plain-Built c i x w u h =
    let (_, e) = then_require w (not (is_descriptor c)) type_error (return i) h in
    let (p, q) = ok-injective i x e in
    (sym p, record { own_is = rw (← q); registry_is = rw (← q); python_is = rw (← q) })

rebuild-Built :
    (o c : Cell) (i x : Ref) (w u : World)
    → rebuild o c i w ≡ (ok x, u)
    → Built u o i x × Extended w u
unfolding rebuild
rebuild-Built (static_method _) c i x w u h = allocate-Fresh _ w u x h
rebuild-Built (class_method _) c i x w u h = allocate-Fresh _ w u x h
rebuild-Built (property_object _ s d t) c i x w u h = allocate-Fresh _ w u x h
rebuild-Built _ c i x w u h = plain-Built c i x w u h

-- What is built stands when the installation is over.
Built-KeepsDescriptor :
    (o : Cell) (i x owner : Ref) (name full : String) (orig : Option Ref) (p : PatchRecord)
    (u v : World)
    → Committed owner name full orig p i x u v
    → Built u o i x
    → KeepsDescriptor v o i x
Built-KeepsDescriptor o i x owner name full orig p u v c b = by_cell o b
  where
    kept : (d : Cell) → is_marker d ≡ false → Fresh u x d → v.cell x ≡ d
    kept d other f =
        ap (λ (g : Ref → Cell). g x) c.cell_is ∙ c.recorded.others x d f.old f.cell_is other

    by_cell : (o : Cell) → Built u o i x → KeepsDescriptor v o i x
    by_cell (static_method _) b = kept _ refl b
    by_cell (class_method _) b = kept _ refl b
    by_cell (property_object _ _ _ _) b = kept _ refl b
    by_cell _ b = b

built-Extended :
    (o : Option Ref) (attribute i x : Ref) (w u : World)
    → build_class_attribute o attribute i w ≡ (ok x, u)
    → Extended w u
unfolding build_class_attribute
built-Extended none attribute i x w u h =
    let (_, q) = ok-injective attribute x h in
    record { own_is = rw (← q); registry_is = rw (← q); python_is = rw (← q) }
built-Extended (some o) attribute i x w u h =
    (rebuild-Built (w.cell o) (w.cell attribute) i x w u h).1

built-KeepsAttribute :
    (o : Option Ref) (attribute i x owner : Ref) (name full : String) (p : PatchRecord)
    (w u v : World)
    → build_class_attribute o attribute i w ≡ (ok x, u)
    → Committed owner name full o p i x u v
    → KeepsAttribute w v o attribute i x
unfolding build_class_attribute
built-KeepsAttribute none attribute i x owner name full p w u v h c =
    sym (ok-injective attribute x h).0
built-KeepsAttribute (some o) attribute i x owner name full p w u v h c =
    Built-KeepsDescriptor (w.cell o) i x owner name full (some o) p u v c
      (rebuild-Built (w.cell o) (w.cell attribute) i x w u h).0

then_guard_class :
    (w : World) (o : Option Ref) (i : Ref) (k : M Ref) {x : Ref} {v : World}
    → (guard_class w o i >> k) w ≡ (ok x, v)
    → k w ≡ (ok x, v)
then_guard_class w none i k h = h
then_guard_class w (some o) i k h =
    (then_raise_if_already_patched w (unwrap_class_descriptor w o) i k h).2

-- What `install_class_patch` has done behind its guard.
pub record ClassReplaced (class : Ref) (name full : String) (m : Metadata) (original : Option Ref)
    (attribute implementation : Ref) (w v : World) (x : Ref) : Type 0 where
  pub built : World
  pub own_is : built.own ≡ w.own
  pub registry_is : built.registry ≡ w.registry
  pub python_is : built.python ≡ w.python
  pub keeps : KeepsAttribute w v original attribute implementation x
  pub committed :
      Committed class name full original
        (new_record full m class_kind original (capture_source w original))
        implementation
        x
        built
        v

pub replace_class_attribute-ClassReplaced :
    (class : Ref) (name full : String) (m : Metadata) (o : Option Ref) (attribute i : Ref)
    (w v : World) (x : Ref)
    → replace_class_attribute class name full m o attribute i w w ≡ (ok x, v)
    → ClassReplaced class name full m o attribute i w v x
unfolding replace_class_attribute
replace_class_attribute-ClassReplaced class name full m o attribute i w v x h =
    let (y, u, built, h1) =
      >>=-eq-ok (build_class_attribute o attribute i)
        (λ y. commit class name full m class_kind o (capture_source w o) i y) w
        (then_guard_class w o i _ h) in
    let (same, c) =
      commit-Committed class name full m class_kind o (capture_source w o) i y u v h1 in
    let e = built-Extended o attribute i y w u built in
    finish y u same c (built-KeepsAttribute o attribute i y class name full _ w u v built c) e
  where
    finish :
        (y : Ref) (u : World)
        → x ≡ y
        → Committed class name full o (new_record full m class_kind o (capture_source w o)) i y u v
        → KeepsAttribute w v o attribute i y
        → Extended w u
        → ClassReplaced class name full m o attribute i w v x
    finish y u same c k e = rw same (record {
      built = u;
      own_is = e.own_is;
      registry_is = e.registry_is;
      python_is = e.python_is;
      keeps = k;
      committed = c;
    })

resolve_names_world : (names : List String) (r : Ref) (w : World) → (resolve_names names r w).1 ≡ w
unfolding resolve_names
resolve_names_world [] r w = refl
resolve_names_world (name ∷ names) r w = elim (Option-cases (get_attribute w r name)) [
  | inl absent ↦ rw (absent, resolve_names)
  | inr (o, present) ↦ rw (present, resolve_names) (resolve_names_world names _ w)
]

-- To resolve a class changes nothing.
resolve_target_class_world :
    (t : Ref) (path : String) (w : World) → (resolve_target_class t path w).1 ≡ w
unfolding resolve_target_class
resolve_target_class_world t path w =
    split (resolve_names (split_dot path) t w) (resolve_names_world (split_dot path) t w)
  where
    split :
        (p : Result Ref × World)
        → p.1 ≡ w
        → (follow p (λ c. (λ u. require (is_class (u.cell c)) type_error u) >> return c)).1 ≡ w
    split (raised e, u) q = q
    split (ok c, u) q = elim (Bool-cases (is_class (u.cell c))) [
      | inl good ↦ rw good q
      | inr bad ↦ rw bad q
    ]

pub then_resolve_target_class :
    (w : World) (t : Ref) (path : String) (k : Ref → M Ref) {x : Ref} {v : World}
    → (resolve_target_class t path >>= k) w ≡ (ok x, v)
    → (c : Ref) × (resolve_target_class t path w ≡ (ok c, w)) × (k c w ≡ (ok x, v))
then_resolve_target_class w t path k {x} {v} h =
    let (c, u, found, rest) = >>=-eq-ok (resolve_target_class t path) k w h in
    let q : u ≡ w =
      sym (ap (λ (p : Result Ref × World). p.1) found) ∙ resolve_target_class_world t path w in
    (c, rw q at found, rw q at rest)
