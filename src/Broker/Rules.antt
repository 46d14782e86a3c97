-- ===== src/Broker/Rules.antt =====
-- Proof rules for the outcomes: a method that starts from the records `s` ends as `Q` says.
use osb_opengauss_go.Prelude.{◌≡◌, refl, sym, ap, ◌∙◌, subst, Bool, true, false, if◌then◌else◌}
use osb_opengauss_go.Result.{Result, ok, err, map_err}
use osb_opengauss_go.Exec.{Exec, pure, raise, relabel, continue, ◌>>=◌}
use osb_opengauss_go.World.{World}
use osb_opengauss_go.Broker.Rows.{Rows, Views, rows, Keeps}
use osb_opengauss_go.Broker.Outcomes.{Same, Ends}

module _ {E A : Type 0} (s : Rows) (Q : A → Rows → Type 0) (t : Rows) where
  pub Ends-cases :
      (r : Result E A)
      → ((a : A) → r ≡ ok a → Q a t)
      → ((e : E) → r ≡ err e → Same s t)
      → Ends s Q t r
  Ends-cases (ok a) done failed = done a refl
  Ends-cases (err e) done failed = failed e refl

  pub Ends-map :
      (P : A → Rows → Type 0) (r : Result E A)
      → ((a : A) → P a t → Q a t)
      → Ends s P t r
      → Ends s Q t r
  Ends-map P (ok a) h end = h a end
  Ends-map P (err e) h end = end

pub Same-eq : (s t : Rows) → t ≡ s → Same s t
Same-eq s t e = (λ j. ap (λ (r : Rows). r.instances j) e, λ j. ap (λ (r : Rows). r.bindings j) e)

module _ {I B S R E A : Type 0} (v : Views I B) where
  pub record Does (s : Rows) (Q : A → Rows → Type 0) (m : Exec (World I B S R) E A) : Type 0 where
    pub at : (w : World I B S R) → rows v w ≡ s → Ends s Q (rows v (m w).1) (m w).0

module _ {I B S R E A : Type 0} (v : Views I B) (s : Rows) (Q : A → Rows → Type 0) where
  pub Does-pure : (a : A) → Q a s → Does {S = S} {R = R} {E = E} v s Q (pure a)
  Does-pure a h = record { at = λ w e. subst (Q a) (sym e) h }

  pub Does-raise : (x : E) → Does {S = S} {R = R} v s Q (raise x)
  Does-raise x = record { at = λ w e. Same-eq s (rows v w) e }

  pub Does-if :
      (c : Bool) (m n : Exec (World I B S R) E A)
      → (c ≡ true → Does v s Q m)
      → Does v s Q n
      → Does v s Q (if c then m else n)
  Does-if true m n hm hn = hm refl
  Does-if false m n hm hn = hn

  pub Does-map :
      (P : A → Rows → Type 0) (m : Exec (World I B S R) E A)
      → ((a : A) (t : Rows) → P a t → Q a t)
      → Does v s P m
      → Does v s Q m
  Does-map P m h d = record {
    at = λ w e. Ends-map s Q (rows v (m w).1) P (m w).0 (λ a. h a (rows v (m w).1)) (d.at w e);
  }

module _ {I B S R E A : Type 0} (v : Views I B) (Q : Rows → A → Rows → Type 0) where
  -- what holds of the records that the method starts from
  pub Does-from :
      (m : Exec (World I B S R) E A)
      → ((w : World I B S R) → Ends (rows v w) (Q (rows v w)) (rows v (m w).1) (m w).0)
      → (s : Rows) → Does v s (Q s) m
  Does-from m h s = record {
    at = λ w e. subst (λ (q : Rows). Ends q (Q q) (rows v (m w).1) (m w).0) e (h w);
  }

module _ {E G A : Type 0} (s : Rows) (Q : A → Rows → Type 0) where
  Ends-map_err : (g : E → G) (t : Rows) (r : Result E A) → Ends s Q t r → Ends s Q t (map_err g r)
  Ends-map_err g t (ok a) h = h
  Ends-map_err g t (err x) h = h

module _ {I B S R E G A : Type 0} (v : Views I B) (s : Rows) (Q : A → Rows → Type 0) where
  pub Does-relabel :
      (g : E → G) (m : Exec (World I B S R) E A) → Does v s Q m → Does v s Q (relabel g m)
  Does-relabel g m h = record { at = λ w e. Ends-map_err s Q g (rows v (m w).1) (m w).0 (h.at w e) }

module _ {I B S R E A C : Type 0} (v : Views I B) (s : Rows) (Q : C → Rows → Type 0) where
  pub Ends-continue :
      (r : Result E A) (f : A → Exec (World I B S R) E C) (w : World I B S R)
      → Same s (rows v w)
      → ((a : A) → r ≡ ok a → Ends s Q (rows v (f a w).1) (f a w).0)
      → Ends s Q (rows v (continue r f w).1) (continue r f w).0
  Ends-continue (ok a) f w same rest = rest a refl
  Ends-continue (err e) f w same rest = same

  -- The first part keeps the records; the rest may use what the first part returned, and that it
  -- ran on the records `s`.
  pub Does-bind :
      (m : Exec (World I B S R) E A) (f : A → Exec (World I B S R) E C)
      → Keeps v m
      → ((w : World I B S R) (a : A) → rows v w ≡ s → (m w).0 ≡ ok a → Does v s Q (f a))
      → Does v s Q (m >>= f)
  Does-bind m f hm hf = record {
    at = λ w e.
        Ends-continue (m w).0 f (m w).1 (Same-eq s (rows v (m w).1) (hm.at w ∙ e))
          (λ a r. (hf w a e r).at (m w).1 (hm.at w ∙ e));
  }

  -- The last change of the records, and then the result.
  Ends-return :
      (r : Result E A) (c : A → C) (w : World I B S R)
      → Ends s (λ a. Q (c a)) (rows v w) r
      → Ends s Q
          (rows v (continue {S = World I B S R} r (λ a. pure (c a)) w).1)
          (continue {S = World I B S R} r (λ a. pure (c a)) w).0
  Ends-return (ok a) c w h = h
  Ends-return (err e) c w h = h

  pub Does-return :
      (m : Exec (World I B S R) E A) (c : A → C)
      → Does v s (λ a. Q (c a)) m
      → Does v s Q (m >>= λ a. pure (c a))
  Does-return m c hm = record { at = λ w e. Ends-return (m w).0 c (m w).1 (hm.at w e) }
