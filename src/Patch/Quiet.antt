-- ===== src/Patch/Quiet.antt =====
-- Frames: what the statements of vllm_sail/patch/utils.py leave as it was when they raise.
use vllm_sail.Base.{
  String, ◌≡◌, refl, ◌≢◌, ◌∙◌, ◌⊎◌, inl, inr, ap, Bool, true, false, Option, none, some, arith,
}
use vllm_sail.Base.{Bool-cases, nat_eq, string_eq}
use vllm_sail.Base.Names.{lookup, lookup-insert}
use vllm_sail.Patch.Heap.{Ref, Cell, World, put_attribute, put_cell}
use vllm_sail.Patch.Monad.{
  Error, Result, ok, raised, M, follow, ◌>>=◌, ◌>>◌, return, raise, require, found, set_attribute,
  allocate,
}
use vllm_sail.Patch.Attributes.{patch_marker}

-- The registry and every attribute but the markers are the same.
pub record Frame (w v : World) : Type 0 where
  pub registry_is : v.registry ≡ w.registry
  pub reads : (o : Ref) (k : String) → k ≢ patch_marker → lookup k (v.own o) ≡ lookup k (w.own o)

pub Frame-refl : {w : World} → Frame w w
Frame-refl = record { registry_is = refl; reads = λ o k ne. refl }

pub Frame-trans : {u v w : World} → Frame u v → Frame v w → Frame u w
Frame-trans f g = record {
  registry_is = g.registry_is ∙ f.registry_is;
  reads = λ o k ne. g.reads o k ne ∙ f.reads o k ne;
}

-- Whatever the outcome, the frame holds.
pub record Quiet {A : Type 0} (m : M A) : Type 0 where
  pub frame : (w : World) → Frame w (m w).1

-- The frame holds wherever an exception is raised.
pub record Fails {A : Type 0} (m : M A) : Type 0 where
  pub frame : (w v : World) {e : Error} → m w ≡ (raised e, v) → Frame w v

pub Quiet-Fails : {A : Type 0} {m : M A} → Quiet m → Fails m
Quiet-Fails {m = m} q = record {
  frame = λ w v h. let e : (m w).1 ≡ v = ap (λ p. p.1) h in rw (← e) (q.frame w);
}

follow-Frame :
    {A B : Type 0} (f : A → M B) (w : World) (r : Result A × World)
    → Frame w r.1
    → ((a : A) → Quiet (f a))
    → Frame w (follow r f).1
follow-Frame f w (ok a, u) g q = Frame-trans g ((q a).frame u)
follow-Frame f w (raised e, u) g q = g

pub Quiet-bind :
    {A B : Type 0} {m : M A} {f : A → M B} → Quiet m → ((a : A) → Quiet (f a)) → Quiet (m >>= f)
Quiet-bind {m = m} {f = f} q g = record { frame = λ w. follow-Frame f w (m w) (q.frame w) g }

follow-raised :
    {A B : Type 0} (f : A → M B) (w v : World) (r : Result A × World) {e : Error}
    → Frame w r.1
    → ((a : A) → Fails (f a))
    → follow r f ≡ (raised e, v)
    → Frame w v
follow-raised f w v (ok a, u) g q h = Frame-trans g ((q a).frame u v h)
follow-raised f w v (raised x, u) g q h = let e : u ≡ v = ap (λ p. p.1) h in rw (← e) g

pub Fails-bind :
    {A B : Type 0} {m : M A} {f : A → M B} → Quiet m → ((a : A) → Fails (f a)) → Fails (m >>= f)
Fails-bind {m = m} {f = f} q g = record {
  frame = λ w v h. follow-raised f w v (m w) (q.frame w) g h;
}

pub Quiet-return : {A : Type 0} (a : A) → Quiet (return a)
Quiet-return a = record { frame = λ w. Frame-refl }

pub Quiet-raise : {A : Type 0} (e : Error) → Quiet (raise {A = A} e)
Quiet-raise e = record { frame = λ w. Frame-refl }

pub Quiet-require : (b : Bool) (e : Error) → Quiet (require b e)
Quiet-require true e = record { frame = λ w. Frame-refl }
Quiet-require false e = record { frame = λ w. Frame-refl }

pub Quiet-found : {A : Type 0} (o : Option A) (e : Error) → Quiet (found o e)
Quiet-found none e = record { frame = λ w. Frame-refl }
Quiet-found (some a) e = record { frame = λ w. Frame-refl }

pub Quiet-allocate : (c : Cell) → Quiet (allocate c)
unfolding put_cell
Quiet-allocate c = record { frame = λ w. record { registry_is = refl; reads = λ o k ne. refl } }

-- To set a marker is quiet.
pub Quiet-set_marker : (r d : Ref) (e : Error) → Quiet (set_attribute r patch_marker d e)
unfolding put_attribute
Quiet-set_marker r d e = record {
  frame = λ w. set_frame w (Bool-cases (w.python.settable r patch_marker));
}
  where
    set_frame :
        (w : World)
        → (w.python.settable r patch_marker ≡ true) ⊎ (w.python.settable r patch_marker ≡ false)
        → Frame w (set_attribute r patch_marker d e w).1
    set_frame w (inl settable) = rw settable (record {
      registry_is = refl;
      reads = λ o k ne. ground (arith, lookup-insert k patch_marker d (w.own r));
    })
    set_frame w (inr refused) = rw refused Frame-refl

-- A statement that reads the process first.
pub Quiet-read : {A : Type 0} (g : World → M A) → ((u : World) → Quiet (g u)) → Quiet (λ w. g w w)
Quiet-read g q = record { frame = λ w. (q w).frame w }

pub Fails-read : {A : Type 0} (g : World → M A) → ((u : World) → Fails (g u)) → Fails (λ w. g w w)
Fails-read g q = record { frame = λ w v h. (q w).frame w v h }

-- To set any attribute either raises and changes nothing, or does not raise.
pub Fails-set :
    {A : Type 0} (r : Ref) (name : String) (a : Ref) (e : Error) (m : M A)
    → ((w v : World) (x : Error) → m w ≢ (raised x, v))
    → Fails (set_attribute r name a e >> m)
Fails-set {A} r name a e m never = record {
  frame = λ w v {e = x} h. fails w v x (Bool-cases (w.python.settable r name)) h;
}
  where
    fails :
        (w v : World) (x : Error)
        → (w.python.settable r name ≡ true) ⊎ (w.python.settable r name ≡ false)
        → (set_attribute r name a e >> m) w ≡ (raised x, v)
        → Frame w v
    fails w v x (inl settable) h = absurd (never _ v x (rw settable at h))
    fails w v x (inr refused) h =
        let q : w ≡ v = ap (λ p. p.1) (rw refused at h) in rw (← q) Frame-refl
