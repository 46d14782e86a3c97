-- ===== src/Broker/Rows.antt =====
-- The abstract state of the broker: the records, under their ids. What changes them and what
-- leaves them alone.
use mathlib.Core.Path.{fun_ext}
use osb_opengauss_go.Prelude.{
  ◌≡◌, refl, ◌∙◌, Bool, true, false, Option, none, some, Text, if◌then◌else◌,
}
use osb_opengauss_go.Result.{Result, ok, err}
use osb_opengauss_go.Exec.{Exec, pure, raise, lift, relabel, continue, guard_not, ◌>>=◌}
use osb_opengauss_go.World.{World, on_instances, on_bindings}
use osb_opengauss_go.World.Frame.{Leaves}
use osb_opengauss_go.Table.{IsTable}
use osb_opengauss_go.State.{InstanceRecord, BindingRecord, Store}
use osb_opengauss_go.Broker.{Error, require}

pub record Rows : Type 0 where
  pub instances : Text → Option InstanceRecord
  pub bindings : Text → Option BindingRecord

-- how the rows are read from the states of the two tables
pub record Views (I B : Type 0) : Type 0 where
  pub instance_row : I → Text → Option InstanceRecord
  pub binding_row : B → Text → Option BindingRecord

module _ {I B S R : Type 0} (v : Views I B) where
  unfoldable pub rows : World I B S R → Rows
  rows w = record { instances = v.instance_row w.instances; bindings = v.binding_row w.bindings }

-- What the store relies on: its two tables are tables, seen by `v`.
pub record IsStore {F I B R : Type 0} (v : Views I B) (store : Store F I B R) : Type 0 where
  pub instance_laws :
      IsTable (λ r. r.instance_id) (λ r. r.service_id) v.instance_row store.instances
  pub binding_laws : IsTable (λ r. r.binding_id) (λ r. r.instance_id) v.binding_row store.bindings

module _ {I B S R E A : Type 0} (v : Views I B) where
  -- the method leaves the records as they are, however it ends
  pub record Keeps (m : Exec (World I B S R) E A) : Type 0 where
    pub at : (w : World I B S R) → rows v (m w).1 ≡ rows v w

module _ {I B S R E A : Type 0} (v : Views I B) where
  pub Keeps-Leaves : (m : Exec (World I B S R) E A) → Leaves m → Keeps v m
  unfolding rows
  Keeps-Leaves m h = record {
    at = λ w i. record {
      instances = v.instance_row (h.instances w i);
      bindings = v.binding_row (h.bindings w i);
    };
  }

  pub Keeps-pure : (a : A) → Keeps {S = S} {R = R} {E = E} v (pure a)
  Keeps-pure a = record { at = λ w. refl }

  pub Keeps-raise : (e : E) → Keeps {S = S} {R = R} {A = A} v (raise e)
  Keeps-raise e = record { at = λ w. refl }

  pub Keeps-lift : (r : Result E A) → Keeps {S = S} {R = R} v (lift r)
  Keeps-lift r = record { at = λ w. refl }

  pub Keeps-on_instances :
      (m : Exec I E A)
      → ((d : I) (j : Text) → v.instance_row (m d).1 j ≡ v.instance_row d j)
      → Keeps {S = S} {R = R} v (on_instances m)
  unfolding rows
  Keeps-on_instances m h = record {
    at = λ w i. record {
      instances = fun_ext (h w.instances) i;
      bindings = v.binding_row w.bindings;
    };
  }

  pub Keeps-on_bindings :
      (m : Exec B E A)
      → ((d : B) (j : Text) → v.binding_row (m d).1 j ≡ v.binding_row d j)
      → Keeps {S = S} {R = R} v (on_bindings m)
  unfolding rows
  Keeps-on_bindings m h = record {
    at = λ w i. record {
      instances = v.instance_row w.instances;
      bindings = fun_ext (h w.bindings) i;
    };
  }

module _ {I B S R E A : Type 0} (v : Views I B) where
  pub Keeps-if :
      (c : Bool) (m n : Exec (World I B S R) E A)
      → Keeps v m
      → Keeps v n
      → Keeps v (if c then m else n)
  Keeps-if true m n hm hn = hm
  Keeps-if false m n hm hn = hn

module _ {I B S R E : Type 0} (v : Views I B) where
  pub Keeps-guard_not : (c : Bool) (e : E) → Keeps {S = S} {R = R} v (guard_not c e)
  Keeps-guard_not true e = record { at = λ w. refl }
  Keeps-guard_not false e = record { at = λ w. refl }

module _ {I B S R A : Type 0} (v : Views I B) where
  pub Keeps-require : (e : Error) (o : Option A) → Keeps {S = S} {R = R} v (require e o)
  Keeps-require e none = record { at = λ w. refl }
  Keeps-require e (some a) = record { at = λ w. refl }

module _ {I B S R E F A : Type 0} (v : Views I B) where
  pub Keeps-relabel : (g : E → F) (m : Exec (World I B S R) E A) → Keeps v m → Keeps v (relabel g m)
  Keeps-relabel g m h = record { at = h.at }

module _ {I B S R E A C : Type 0} (v : Views I B) where
  Keeps-continue :
      (r : Result E A) (f : A → Exec (World I B S R) E C)
      → ((a : A) → Keeps v (f a))
      → Keeps v (λ w. continue r f w)
  Keeps-continue (ok a) f h = h a
  Keeps-continue (err e) f h = Keeps-raise v e

  pub Keeps-bind :
      (m : Exec (World I B S R) E A) (f : A → Exec (World I B S R) E C)
      → Keeps v m
      → ((a : A) → Keeps v (f a))
      → Keeps v (m >>= f)
  Keeps-bind m f hm hf = record { at = λ w. (Keeps-continue (m w).0 f hf).at (m w).1 ∙ hm.at w }

pub ruleset keeps_rules =
    (Keeps-pure, Keeps-raise, Keeps-lift, Keeps-guard_not, Keeps-require, Keeps-relabel, Keeps-bind)
