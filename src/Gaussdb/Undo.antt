-- ===== src/Gaussdb/Undo.antt =====
-- Provision and Bind take back what they have made when a later statement fails.
use osb_opengauss_go.Prelude.{◌≡◌, refl, ◌⊎◌, inl, inr, Bool, true, false, Text, if◌then◌else◌}
use osb_opengauss_go.Result.{Fault, Result, ok, err, Result-cases}
use osb_opengauss_go.Exec.{Exec, pure, raise, continue, undone, or_undo, ◌>>=◌}
use osb_opengauss_go.World.{World, on_server, on_entropy}
use osb_opengauss_go.Names.{Names}
use osb_opengauss_go.Params.{InstanceParams}
use osb_opengauss_go.Gaussdb.{Db, Admin, ensure_absent, provision, bind, unbind, deprovision}

-- the server's states that are reached by calls of Exists
pub data Probed {S : Type 0} (db : Db S) (s0 : S) : S → Type 0 where
  still : Probed db s0 s0
  asked :
      {s : S} (table column name : Text)
      → Probed db s0 s
      → Probed db s0 (db.exists table column name s).1

module _ {I B S R : Type 0} (a : Admin S R) where
  module _ {A : Type 0} where
    -- a method that calls Exists of the server, and nothing else of it
    pub record IsProbe (m : Exec (World I B S R) Fault A) : Type 0 where
      pub probes :
          (s0 : S) (w : World I B S R) → Probed a.db s0 w.server → Probed a.db s0 (m w).1.server

    IsProbe-pure : (x : A) → IsProbe (pure x)
    IsProbe-pure x = record { probes = λ s0 w h. h }

    IsProbe-raise : (e : Fault) → IsProbe (raise e)
    IsProbe-raise e = record { probes = λ s0 w h. h }

    IsProbe-on_entropy : (m : Exec R Fault A) → IsProbe (on_entropy m)
    IsProbe-on_entropy m = record { probes = λ s0 w h. h }

    IsProbe-if :
        (c : Bool) (m n : Exec (World I B S R) Fault A)
        → IsProbe m
        → IsProbe n
        → IsProbe (if c then m else n)
    IsProbe-if true m n hm hn = hm
    IsProbe-if false m n hm hn = hn

  IsProbe-exists : (table column name : Text) → IsProbe (on_server (a.db.exists table column name))
  IsProbe-exists table column name = record { probes = λ s0 w h. asked table column name h }

  module _ {A C : Type 0} where
    IsProbe-continue :
        (r : Result Fault A) (f : A → Exec (World I B S R) Fault C)
        → ((x : A) → IsProbe (f x))
        → IsProbe (λ w. continue r f w)
    IsProbe-continue (ok x) f h = h x
    IsProbe-continue (err e) f h = record { probes = λ s0 w h'. h' }

    IsProbe-bind :
        (m : Exec (World I B S R) Fault A) (f : A → Exec (World I B S R) Fault C)
        → IsProbe m
        → ((x : A) → IsProbe (f x))
        → IsProbe (m >>= f)
    IsProbe-bind m f hm hf = record {
      probes = λ s0 w h. (IsProbe-continue (m w).0 f hf).probes s0 (m w).1 (hm.probes s0 w h);
    }

  ruleset probe_rules =
      (IsProbe-pure, IsProbe-raise, IsProbe-on_entropy, IsProbe-if, IsProbe-exists, IsProbe-bind)

  ensure_absent-IsProbe : (table column name : Text) → IsProbe (ensure_absent a table column name)
  unfolding ensure_absent
  ensure_absent-IsProbe table column name = search probe_rules

  module _ (undo : Exec (World I B S R) Fault (Unit {0})) where
    -- the last that was done is the undoing
    pub record EndsUndone (w : World I B S R) : Type 0 where
      pub behind : World I B S R
      pub undoing : w ≡ (undo behind).1

    -- a method whose errors come behind the undoing
    record Undoes {A : Type 0} (m : Exec (World I B S R) Fault A) : Type 0 where
      undoes : (w : World I B S R) (e : Fault) → (m w).0 ≡ err e → EndsUndone (m w).1

    -- a method whose errors come behind the undoing, or before any statement
    pub record IsUndone {A : Type 0} (m : Exec (World I B S R) Fault A) : Type 0 where
      pub ends :
          (s0 : S) (w : World I B S R) (e : Fault)
          → Probed a.db s0 w.server
          → (m w).0 ≡ err e
          → Probed a.db s0 (m w).1.server ⊎ EndsUndone (m w).1

    Undoes-pure : {A : Type 0} (x : A) → Undoes (pure x)
    Undoes-pure x = record { undoes = λ w e h. absurd cc }

    Undoes-or_undo : {A : Type 0} (m : Exec (World I B S R) Fault A) → Undoes (or_undo m undo)
    Undoes-or_undo m = record {
      undoes = λ w e h. elim (Result-cases (m w).0) [
        | inl (x, done) ↦ absurd (no_error x (m w).1 e (rw done at h))
        | inr (e', failed) ↦ rw failed (record { behind = (m w).1; undoing = refl })
      ];
    }
      where
        no_error :
            {A : Type 0} (x : A) (v : World I B S R) (e : Fault)
            → (undone (ok x) undo v).0 ≡ err e
            → ⊥
        no_error x v e h = cc

    Undoes-bind :
        {A C : Type 0} (m : Exec (World I B S R) Fault A) (f : A → Exec (World I B S R) Fault C)
        → Undoes m
        → ((x : A) → Undoes (f x))
        → Undoes (m >>= f)
    Undoes-bind m f hm hf = record {
      undoes = λ w e h. elim (Result-cases (m w).0) [
        | inl (x, done) ↦ rw done ((hf x).undoes (m w).1 e (rw done at h))
        | inr (e', failed) ↦ rw failed (hm.undoes w e' failed)
      ];
    }

    IsUndone-of : {A : Type 0} (m : Exec (World I B S R) Fault A) → Undoes m → IsUndone m
    IsUndone-of m h = record { ends = λ s0 w e _ failed. inr (h.undoes w e failed) }

    IsUndone-bind :
        {A C : Type 0} (m : Exec (World I B S R) Fault A) (f : A → Exec (World I B S R) Fault C)
        → IsProbe m
        → ((x : A) → IsUndone (f x))
        → IsUndone (m >>= f)
    IsUndone-bind m f hm hf = record {
      ends = λ s0 w e start h. elim (Result-cases (m w).0) [
        | inl (x, done) ↦ rw done ((hf x).ends s0 (m w).1 e (hm.probes s0 w start) (rw done at h))
        | inr (e', failed) ↦ rw failed (inl (hm.probes s0 w start))
      ];
    }

    ruleset undo_rules = (
      probe_rules, ensure_absent-IsProbe, Undoes-pure, Undoes-or_undo, Undoes-bind, IsUndone-of,
      IsUndone-bind,
    )

  module _ (names : Names) where
    provision-IsUndone :
        (spec : InstanceParams) → IsUndone (deprovision a names) (provision a names spec)
    unfolding provision
    provision-IsUndone spec = search undo_rules depth 14

    bind-IsUndone : (username : Text) → IsUndone (unbind a names username) (bind a names username)
    unfolding bind
    bind-IsUndone username = search undo_rules depth 12

    -- A Provision of the admin that fails has done one of two things, whichever call failed: it has
    -- called the server for nothing but to ask whether the objects exist, or the last that it did
    -- was Deprovision, for the same names.
    pub provision_undone :
        (spec : InstanceParams) (w : World I B S R) (e : Fault)
        → (provision a names spec w).0 ≡ err e
        → Probed a.db w.server (provision a names spec w).1.server
          ⊎ EndsUndone (deprovision a names) (provision a names spec w).1
    provision_undone spec w e failed = (provision-IsUndone spec).ends w.server w e still failed

    -- A Bind of the admin that fails has done one of two things, whichever call failed: it has called
    -- the server for nothing but to ask whether the user exists, or the last that it did was Unbind,
    -- for the same names and user.
    pub bind_undone :
        (username : Text) (w : World I B S R) (e : Fault)
        → (bind a names username w).0 ≡ err e
        → Probed a.db w.server (bind a names username w).1.server
          ⊎ EndsUndone (unbind a names username) (bind a names username w).1
    bind_undone username w e failed = (bind-IsUndone username).ends w.server w e still failed
