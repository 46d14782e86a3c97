-- ===== src/Driver/Calls.antt =====
-- How a call of the driver may end.
use osb_opengauss_go.Prelude.{
  ℕ, suc, ◌+◌, ◌≡◌, refl, ap, subst, List, [], ◌∷◌, ◌++◌, Text, codes, format_nat, length, inl, inr,
  arith,
}
use osb_opengauss_go.Result.{Fault, wrapped, Result, ok, err, Result-cases}
use osb_opengauss_go.Config.{Config}
use osb_opengauss_go.Driver.{Server, conn_url, statement_fault, run_statements, exec}

pub pair-eq : {A S : Type 0} {a : A} (q : A × S) → q.0 ≡ a → q ≡ (a, q.1)
pair-eq (r, s) h = ap (λ x. (x, s)) h

-- the error of a statement, behind its position, from 1, among `n`
abbrev at_position : ℕ → ℕ → Fault → Fault
at_position k n e =
    wrapped (codes "statement " ++ format_nat k ++ codes " of " ++ format_nat n ++ codes " failed")
      e

module _ {C S : Type 0} (server : Server C S) where
  -- the statements were run, in their order, and none failed
  pub data Ran (conn : C) : List Text → S → S → Type 0 where
    none_left : {s : S} → Ran conn [] s s
    ran :
        {statement : Text} {rest : List Text} {s s' s'' : S}
        → server.run conn statement s ≡ (ok tt, s')
        → Ran conn rest s' s''
        → Ran conn (statement ∷ rest) s s''

  -- How the statements may end, from the index `i` of `n`: all were run, or those in front of one
  -- that failed, which is reported by its index.
  pub data Ends (conn : C) (n i : ℕ) (statements : List Text) (s s' : S)
      : Result Fault (Unit {0}) → Type 0 where
    completed : Ran conn statements s s' → Ends conn n i statements s s' (ok tt)
    stopped :
        (done : List Text) (failing : Text) (rest : List Text) (at : S) (e : Fault)
        → statements ≡ done ++ failing ∷ rest
        → Ran conn done s at
        → server.run conn failing at ≡ (err e, s')
        → Ends conn n i statements s s' (err (at_position (suc (i + length done)) n e))

  -- How Exec may end: with the error of the connection, or with what the statements end with, and
  -- then with the connection closed.
  pub data Outcome (cfg : Config) (database : Text) (statements : List Text) (s s' : S)
      : Result Fault (Unit {0}) → Type 0 where
    refused :
        (e : Fault)
        → server.connect (conn_url cfg database) s ≡ (err e, s')
        → Outcome cfg database statements s s' (err e)
    closed :
        (conn : C) (opened last : S) {r : Result Fault (Unit {0})}
        → server.connect (conn_url cfg database) s ≡ (ok conn, opened)
        → Ends conn (length statements) 0 statements opened last r
        → server.close conn last ≡ s'
        → Outcome cfg database statements s s' r

  later_Ends :
      (conn : C) (n i : ℕ) (statement : Text) (rest : List Text) (s s' s'' : S)
      (r : Result Fault (Unit {0}))
      → server.run conn statement s ≡ (ok tt, s')
      → Ends conn n (suc i) rest s' s'' r
      → Ends conn n i (statement ∷ rest) s s'' r
  later_Ends conn n i statement rest s s' s'' _ first (completed all) = completed (ran first all)
  later_Ends conn n i statement rest s s' s'' _ first
        (stopped done failing after at e split run fails) =
      subst (λ k. Ends conn n i (statement ∷ rest) s s'' (err (at_position (suc k) n e)))
        (omega arith)
        (stopped (statement ∷ done) failing after at e (ap (λ l. statement ∷ l) split)
          (ran first run) fails)

  run_statements-Ends :
      (conn : C) (n i : ℕ) (l : List Text) (s : S)
      → Ends conn n i l s
          (run_statements server conn n i l s).1
          (run_statements server conn n i l s).0
  unfolding run_statements statement_fault
  run_statements-Ends conn n i [] s = completed none_left
  run_statements-Ends conn n i (statement ∷ rest) s =
      elim (Result-cases (server.run conn statement s).0) [
        | inl (u, h) ↦ rw h (
            later_Ends conn n i statement rest s (server.run conn statement s).1 _ _ (pair-eq _ h)
              (run_statements-Ends conn n (suc i) rest (server.run conn statement s).1))
        | inr (e, h) ↦ rw h (
            subst
              (λ k.
                Ends conn n i (statement ∷ rest) s (server.run conn statement s).1
                  (err (at_position (suc k) n e)))
              (omega arith) (stopped [] statement rest s e refl none_left (pair-eq _ h)))
      ]

  -- Whatever the server does, Exec ends in one of three ways: with the error of Connect; without an
  -- error, when every statement was run, in order; or with the error of the first statement that
  -- failed, none after it being run, and then the error is wrapped in a text that has its position
  -- and the number of the statements only. A connection that was opened is closed last.
  pub exec-Outcome :
      (cfg : Config) (database : Text) (statements : List Text) (s : S)
      → Outcome cfg database statements s
          (exec server cfg database statements s).1
          (exec server cfg database statements s).0
  unfolding exec
  exec-Outcome cfg database statements s =
      elim (Result-cases (server.connect (conn_url cfg database) s).0) [
        | inl (conn, h) ↦ rw h (
            closed conn (server.connect (conn_url cfg database) s).1 _ (pair-eq _ h)
              (run_statements-Ends conn (length statements) 0 statements _) refl)
        | inr (e, h) ↦ rw h (refused e (pair-eq _ h))
      ]
