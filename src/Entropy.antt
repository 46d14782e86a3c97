-- ===== src/Entropy.antt =====
-- crypto/rand, the system's entropy source, as the program uses it: a value of this record over
-- the states `R` of the source. Reads may fail.
use osb_opengauss_go.Prelude.{ℕ, ◌<◌, ◌≡◌, Text, length}
use osb_opengauss_go.Result.{Fault, ok}
use osb_opengauss_go.Exec.{Exec}

pub record Entropy (R : Type 0) : Type 0 where
  -- rand.Int(rand.Reader, big.NewInt(n))
  pub int : ℕ → Exec R Fault ℕ
  -- io.ReadFull(rand.Reader, make([]byte, n))
  pub read : ℕ → Exec R Fault Text
  pub int-lt : (n : ℕ) (r : R) (v : ℕ) → 0 < n → (int n r).0 ≡ ok v → v < n
  pub length-read : (n : ℕ) (r : R) (b : Text) → (read n r).0 ≡ ok b → length b ≡ n
