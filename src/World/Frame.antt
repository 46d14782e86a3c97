-- ===== src/World/Frame.antt =====
-- Methods that leave the state database alone, one rule for each way to build a method.
use osb_opengauss_go.Prelude.{◌≡◌, refl, ◌∙◌, Bool, true, false, if◌then◌else◌}
use osb_opengauss_go.Result.{Result, ok, err}
use osb_opengauss_go.Exec.{Exec, pure, raise, lift, relabel, continue, undone, or_undo, ◌>>=◌}
use osb_opengauss_go.World.{World, on_server, on_entropy}

module _ {I B S R E A : Type 0} where
  pub record Leaves (m : Exec (World I B S R) E A) : Type 0 where
    pub instances : (w : World I B S R) → (m w).1.instances ≡ w.instances
    pub bindings : (w : World I B S R) → (m w).1.bindings ≡ w.bindings

module _ {I B S R E A : Type 0} where
  pub Leaves-pure : (a : A) → Leaves {I = I} {B = B} {S = S} {R = R} {E = E} (pure a)
  Leaves-pure a = record { instances = λ w. refl; bindings = λ w. refl }

  pub Leaves-raise : (e : E) → Leaves {I = I} {B = B} {S = S} {R = R} {A = A} (raise e)
  Leaves-raise e = record { instances = λ w. refl; bindings = λ w. refl }

  pub Leaves-lift : (r : Result E A) → Leaves {I = I} {B = B} {S = S} {R = R} (lift r)
  Leaves-lift r = record { instances = λ w. refl; bindings = λ w. refl }

  pub Leaves-on_server : (m : Exec S E A) → Leaves {I = I} {B = B} {R = R} (on_server m)
  Leaves-on_server m = record { instances = λ w. refl; bindings = λ w. refl }

  pub Leaves-on_entropy : (m : Exec R E A) → Leaves {I = I} {B = B} {S = S} (on_entropy m)
  Leaves-on_entropy m = record { instances = λ w. refl; bindings = λ w. refl }

  pub Leaves-if :
      (c : Bool) (m n : Exec (World I B S R) E A)
      → Leaves m
      → Leaves n
      → Leaves (if c then m else n)
  Leaves-if true m n hm hn = hm
  Leaves-if false m n hm hn = hn

module _ {I B S R E F A : Type 0} where
  pub Leaves-relabel : (g : E → F) (m : Exec (World I B S R) E A) → Leaves m → Leaves (relabel g m)
  Leaves-relabel g m h = record { instances = h.instances; bindings = h.bindings }

module _ {I B S R E A C : Type 0} where
  Leaves-continue :
      (r : Result E A) (f : A → Exec (World I B S R) E C)
      → ((a : A) → Leaves (f a))
      → Leaves (λ w. continue r f w)
  Leaves-continue (ok a) f h = h a
  Leaves-continue (err e) f h = Leaves-raise e

  pub Leaves-bind :
      (m : Exec (World I B S R) E A) (f : A → Exec (World I B S R) E C)
      → Leaves m
      → ((a : A) → Leaves (f a))
      → Leaves (m >>= f)
  Leaves-bind m f hm hf = record {
    instances = λ w. (Leaves-continue (m w).0 f hf).instances (m w).1 ∙ hm.instances w;
    bindings = λ w. (Leaves-continue (m w).0 f hf).bindings (m w).1 ∙ hm.bindings w;
  }

  Leaves-undone :
      (r : Result E A) (undo : Exec (World I B S R) E C)
      → Leaves undo
      → Leaves (λ w. undone r undo w)
  Leaves-undone (ok a) undo h = Leaves-pure a
  Leaves-undone (err e) undo h = record { instances = h.instances; bindings = h.bindings }

  pub Leaves-or_undo :
      (m : Exec (World I B S R) E A) (undo : Exec (World I B S R) E C)
      → Leaves m
      → Leaves undo
      → Leaves (or_undo m undo)
  Leaves-or_undo m undo hm hu = record {
    instances = λ w. (Leaves-undone (m w).0 undo hu).instances (m w).1 ∙ hm.instances w;
    bindings = λ w. (Leaves-undone (m w).0 undo hu).bindings (m w).1 ∙ hm.bindings w;
  }

pub ruleset leaves_rules = (
  Leaves-pure, Leaves-raise, Leaves-lift, Leaves-on_server, Leaves-on_entropy, Leaves-if,
  Leaves-relabel, Leaves-bind, Leaves-or_undo,
)
