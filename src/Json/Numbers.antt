-- ===== src/Json/Numbers.antt =====
-- Which numbers of a document `TryGetJsonUnsignedInteger` of CoreEngine/JsonValue.h accepts.
use modern_sapi_adapter.Base.{
  ℕ, ◌≤◌, ◌≡◌, ◌↔◌, true, false, none, some, Option-cases, inl, inr, arith,
}
use modern_sapi_adapter.Json.{Json, nonneg, negative, max_exact, try_get_unsigned}
use modern_sapi_adapter.Json.Laws.{IsLawful, narrowed-small, try_get_unsigned-le}

-- The value is this number: an unsigned one, a signed one that is not negative, or a whole `double`
-- of at most 53 bits that is not negative.
pub data Denotes (j : Json) (v : j.Value) (n : ℕ) : Type 0 where
  as_natural : j.as_unsigned v ≡ some n → Denotes j v n
  as_signed : j.as_unsigned v ≡ none → j.as_integer v ≡ some (nonneg n) → Denotes j v n
  as_double :
      j.as_unsigned v ≡ none
      → j.as_integer v ≡ none
      → (x : j.Float) → j.as_float v ≡ some x
      → j.is_finite x ≡ true
      → j.is_negative x ≡ false
      → j.is_whole x ≡ true
      → j.above x max_exact ≡ false
      → j.truncated x ≡ n
      → Denotes j v n

-- A whole `double` of at most 53 bits is above no number that is as large as its integer part.
pub record HasExactDoubles (j : Json) : Type 0 where
  pub not_above :
      (x : j.Float) (n : ℕ)
      → j.is_finite x ≡ true
      → j.is_negative x ≡ false
      → j.is_whole x ≡ true
      → j.above x max_exact ≡ false
      → j.truncated x ≤ n
      → j.above x n ≡ false

module _ (j : Json) (max_value : ℕ) (v : j.Value) (n : ℕ) where
  accepted-Denotes : try_get_unsigned j max_value v ≡ some n → n ≤ max_value → Denotes j v n
  unfolding try_get_unsigned
  accepted-Denotes e h = elim (Option-cases (j.as_unsigned v)) [
    | inr (m, natural) ↦
        let kept = narrowed-small j max_value m in as_natural (ground (arith, kept))
    | inl no_natural ↦ elim (Option-cases (j.as_integer v)) [
      | inr (nonneg m, signed) ↦
          let kept = narrowed-small j max_value m in as_signed no_natural (ground (arith, kept))
      | inr (negative m, signed) ↦ ground arith
      | inl no_signed ↦ elim (Option-cases (j.as_float v)) [
        | inl no_float ↦ ground arith
        | inr (x, float) ↦
            as_double no_natural no_signed x float (ground arith) (ground arith) (ground arith)
              (ground arith) (ground arith)
      ]
    ]
  ]

  Denotes-accepted :
      HasExactDoubles j → Denotes j v n → n ≤ max_value → try_get_unsigned j max_value v ≡ some n
  unfolding try_get_unsigned
  Denotes-accepted exact (as_natural e) h =
      let kept = narrowed-small j max_value n h in ground (arith, kept)
  Denotes-accepted exact (as_signed a e) h =
      let kept = narrowed-small j max_value n h in ground (arith, kept)
  Denotes-accepted exact (as_double a b x e f g w k t) h =
      let inside = exact.not_above x max_value f g w k (ground arith) in ground (arith, inside)

  -- A value is accepted with a number exactly when it denotes this number and the number is at most
  -- the largest of the type: no number in the range is refused or changed, and none outside it is
  -- accepted, wrapped or clamped.
  pub accepted_iff :
      IsLawful j
      → HasExactDoubles j
      → (try_get_unsigned j max_value v ≡ some n) ↔ (Denotes j v n × (n ≤ max_value))
  accepted_iff laws exact = (
    λ e. let h = try_get_unsigned-le j max_value v n laws e in (accepted-Denotes e h, h),
    λ d. Denotes-accepted exact d.0 d.1,
  )
