-- ===== src/Names/Identifiers.antt =====
-- `NamesFor` and `UserFor` under a name prefix that `LoadConfig` accepts.
use osb_opengauss_go.Prelude.{
  ℕ, ◌+◌, ◌-◌, ◌≤◌, ◌≡◌, refl, ◌∷◌, ◌++◌, Text, arith, codes, length, All, sub_ℕ, filter,
}
use osb_opengauss_go.Result.{ok}
use osb_opengauss_go.Names.{
  Hash, Names, short_hash, is_name_byte, to_lower, sanitize_name, name_or, with_suffixes, names_for,
  user_for,
}
use osb_opengauss_go.Names.Bounds.{
  IsNameByte, IsIdentifier, filter-IsNameByte, cut-length, name_or-bounds, IsIdentifier-append,
  IsIdentifier-weaken, length-IsIdentifier, budget,
}

module _ (h : Hash) (id prefix custom : Text) (valid : IsIdentifier 30 prefix) where
  -- the name part, for a suffix budget `k` of at most 21 bytes
  named :
      (k : ℕ)
      → k ≤ 21
      → (name : Text) × (sanitize_name custom (sub_ℕ 63 (length prefix + k)) ≡ ok name)
        × All IsNameByte (name_or name (short_hash h id))
        × (length (name_or name (short_hash h id)) ≤ 63 - (length prefix + k))
  unfolding sanitize_name
  named k small =
      let short = length-IsIdentifier 30 prefix valid in
      let (name, e, bytes, fits) =
        cut-length (filter is_name_byte (to_lower custom)) (63 - (length prefix + k))
          (filter-IsNameByte (to_lower custom)) in
      let (hb, hf) = name_or-bounds h id name (63 - (length prefix + k)) bytes fits (omega arith) in
      (name, rw (budget (length prefix) k (omega arith)) e, hb, hf)

  -- Under a prefix that is an identifier of at most 30 bytes, and for every instance id and every
  -- custom name, the names of the database, the group role and the tablespace are computed with no
  -- panic, and each is an identifier of at most 63 bytes: a lower-case letter, then lower-case
  -- letters, digits and underscores.
  pub names_for-IsIdentifier :
      (n : Names) × (names_for h id prefix custom ≡ ok n)
      × IsIdentifier 63 n.database
      × IsIdentifier 63 n.group_role
      × IsIdentifier 63 n.tablespace
  unfolding names_for is_name_byte
  names_for-IsIdentifier =
      let (name, e, bytes, fits) = named 5 (omega arith) in
      let base : Text = b'_' ∷ name_or name (short_hash h id) in
      let short = length-IsIdentifier 30 prefix valid in
      let room = IsIdentifier-append 30 59 prefix base valid (refl, bytes) (omega arith) in
      let suffixed = λ (t : Text) (ht : All IsNameByte t) (l : length t ≤ 4).
        IsIdentifier-append 59 63 (prefix ++ base) t room ht
          (omega (arith, length-IsIdentifier 59 (prefix ++ base) room)) in
      (
        with_suffixes (prefix ++ base),
        rw e,
        IsIdentifier-weaken 59 63 (prefix ++ base) room (omega arith),
        suffixed (codes "_grp") (refl, (refl, (refl, (refl, tt)))) (omega arith),
        suffixed (codes "_ts") (refl, (refl, (refl, tt))) (omega arith),
      )

  -- Under a prefix that is an identifier of at most 30 bytes, and for every binding id and every
  -- custom name, the user name is computed with no panic and is an identifier of at most 63 bytes.
  pub user_for-IsIdentifier : (u : Text) × (user_for h id prefix custom ≡ ok u) × IsIdentifier 63 u
  unfolding user_for is_name_byte
  user_for-IsIdentifier =
      let (name, e, bytes, fits) = named 2 (omega arith) in
      (
        prefix ++ b'u' ∷ b'_' ∷ name_or name (short_hash h id),
        rw e,
        IsIdentifier-append 30 63 prefix _ valid (refl, (refl, bytes))
            (omega (arith, length-IsIdentifier 30 prefix valid)),
      )
