-- ===== src/Params/Bounds.antt =====
-- What `ResolveInstanceParams` lets through: nothing that exceeds the plan.
use osb_opengauss_go.Prelude.{
  ◌+◌, ◌^◌, ◌<◌, ◌≡◌, refl, sym, subst, inl, inr, true, Option, none, some, Bool-cases, List, [],
  ◌∷◌, Text, codes, arith, ℤ, pos, pos_part, neg_part, ◌≤ℤ◌, In, contains, text_eq, text_eq_sound,
}
use osb_opengauss_go.Result.{ok, ok-injective, err≢ok, bind-eq-ok}
use osb_opengauss_go.Value.{Float64, Value, number, Fields, get_field, sprint}
use osb_opengauss_go.Params.{
  Plan, InstanceParams, compatibilities, encodings, is_bounded, read_bounded, bounded_int,
  read_choice, one_of, resolve_instance_params,
}

-- A quota that a float64 represents exactly, and with it all below.
abbrev pub IsQuota : ℤ → Type 0
IsQuota n = (pos 1 ≤ℤ n) × (pos_part n < 2 ^ 53)

-- The quotas of a plan that `validatePlans` accepts, short of 2^53.
pub record HasQuotas (p : Plan) : Type 0 where
  pub connections : IsQuota p.max_connections
  pub storage : IsQuota p.storage_gb

-- The parameters are among the choices and within the plan.
pub record IsWithin (p : Plan) (s : InstanceParams) : Type 0 where
  pub compatibility : In s.compatibility compatibilities
  pub encoding : In s.encoding encodings
  pub some_connections : pos 1 ≤ℤ s.max_connections
  pub within_connections : s.max_connections ≤ℤ p.max_connections
  pub some_storage : pos 1 ≤ℤ s.storage_gb
  pub within_storage : s.storage_gb ≤ℤ p.storage_gb

contains-In : (l : List Text) (s : Text) → contains l s ≡ true → In s l
unfolding contains
contains-In [] s h = cc
contains-In (x ∷ xs) s h = elim (Bool-cases (text_eq x s)) [
  | inl same ↦ inl (sym (text_eq_sound x s same))
  | inr other ↦ inr (contains-In xs s (rw other at h))
]

module _ {F : Type 0} (float : Float64 F) where
  read_choice-In :
      (key fallback : Text) (allowed : List Text) (o : Option (Value F)) (s : Text)
      → In fallback allowed
      → read_choice float key fallback allowed o ≡ ok s
      → In s allowed
  unfolding read_choice
  read_choice-In key fallback allowed none s listed h =
      subst (λ t. In t allowed) (ok-injective h) listed
  read_choice-In key fallback allowed (some v) s listed h =
      elim (Bool-cases (contains allowed (sprint float v))) [
        | inl good ↦
            subst (λ t. In t allowed) (ok-injective (rw good at h)) (contains-In allowed _ good)
        | inr bad ↦ absurd (err≢ok (rw bad at h))
      ]

  is_bounded_parts :
      (v : F) (maximum : ℤ)
      → is_bounded float v maximum ≡ true
      → (float.eq v (float.of_int (float.to_int v)) ≡ true)
        × (float.le (float.of_int (pos 1)) v ≡ true)
        × (float.le v (float.of_int maximum) ≡ true)
  unfolding is_bounded
  is_bounded_parts v maximum h = ground arith

  number-bounds :
      (v : F) (maximum : ℤ)
      → IsQuota maximum
      → float.eq v (float.of_int (float.to_int v)) ≡ true
      → float.le (float.of_int (pos 1)) v ≡ true
      → float.le v (float.of_int maximum) ≡ true
      → (pos 1 ≤ℤ float.to_int v) × (float.to_int v ≤ℤ maximum)
  number-bounds v maximum q whole low high = (
    float.le-of_int (pos 1) (float.to_int v) (inl (omega arith))
        (float.le-eq_right v (float.of_int (float.to_int v)) (float.of_int (pos 1)) whole low),
    float.le-of_int (float.to_int v) maximum (inr (quota_size maximum q))
        (float.le-eq_left v (float.of_int (float.to_int v)) (float.of_int maximum) whole high),
  )
    where
      quota_size : (n : ℤ) → IsQuota n → pos_part n + neg_part n < 2 ^ 53
      quota_size (pos n) h = omega arith
      quota_size (ℤ.negsuc n) h = absurd (omega arith)

  read_bounded-bounds :
      (key : Text) (maximum : ℤ) (o : Option (Value F)) (n : ℤ)
      → IsQuota maximum
      → read_bounded float key maximum maximum o ≡ ok n
      → (pos 1 ≤ℤ n) × (n ≤ℤ maximum)
  unfolding read_bounded
  read_bounded-bounds key maximum none n q h =
      subst (λ k. (pos 1 ≤ℤ k) × (k ≤ℤ maximum)) (ok-injective h) (q.0, omega arith)
  read_bounded-bounds key maximum (some (number v)) n q h =
      elim (Bool-cases (is_bounded float v maximum)) [
        | inl fits ↦
            let (whole, low, high) = is_bounded_parts v maximum fits in
            subst (λ k. (pos 1 ≤ℤ k) × (k ≤ℤ maximum)) (ok-injective (rw fits at h))
              (number-bounds v maximum q whole low high)
        | inr out ↦ absurd (err≢ok (rw out at h))
      ]
  read_bounded-bounds key maximum (some _) n q h = absurd (err≢ok h)

  -- Whatever the request holds, parameters that are resolved have a compatibility and an encoding
  -- among the choices, and quotas from 1 to the plan's, for a plan whose own quotas are from 1 to
  -- below 2^53.
  pub resolve-IsWithin :
      (p : Plan) (params : Fields F) (s : InstanceParams)
      → HasQuotas p
      → resolve_instance_params float p params ≡ ok s
      → IsWithin p s
  unfolding resolve_instance_params one_of bounded_int
  resolve-IsWithin p params s q h =
      let (compatibility, he, h1) =
        bind-eq-ok (one_of float params (codes "compatibility") (codes "PG") compatibilities) _ h in
      let (encoding, hn, h2) =
        bind-eq-ok (one_of float params (codes "encoding") (codes "UTF8") encodings) _ h1 in
      let (m, hm, h3) =
        bind-eq-ok
          (bounded_int float params (codes "max_connections") p.max_connections p.max_connections) _
          h2 in
      let (g, hg, h4) =
        bind-eq-ok (bounded_int float params (codes "storage_gb") p.storage_gb p.storage_gb) _ h3 in
      let connections =
        read_bounded-bounds (codes "max_connections") p.max_connections
          (get_field params (codes "max_connections")) m q.connections hm in
      let storage =
        read_bounded-bounds (codes "storage_gb") p.storage_gb
          (get_field params (codes "storage_gb")) g q.storage hg in
      subst (IsWithin p) (ok-injective h4) (record {
        compatibility =
            read_choice-In (codes "compatibility") (codes "PG") compatibilities _ compatibility
              (inl refl) he;
        encoding =
            read_choice-In (codes "encoding") (codes "UTF8") encodings _ encoding (inl refl) hn;
        some_connections = connections.0;
        within_connections = connections.1;
        some_storage = storage.0;
        within_storage = storage.1;
      })
