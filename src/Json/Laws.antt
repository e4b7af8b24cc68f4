-- ===== src/Json/Laws.antt =====
-- Documented behaviour of `nlohmann::json` and of `double`, and what `TryGetJsonUnsignedInteger`
-- makes of it.
use Prim.Native.String.{String}
use modern_sapi_adapter.Base.{
  ℕ, ◌≤◌, ◌<◌, ◌≡◌, ◌^◌, ◌==◌, true, false, Option, none, some, List, [], ◌∷◌, if◌then◌else◌, ltb,
  max_u64, ◌⊎◌, refl, Option-cases, Bool-cases, inl, inr, arith,
}
use modern_sapi_adapter.Event.{string_eq}
use modern_sapi_adapter.Json.{
  nonneg, negative, unsigned_member, string_member, Json, max_exact, narrowed, try_get_unsigned,
}
use native.Mathlib.Nat.{mod-eq_of_lt, mod-lt, zero-lt-suc}

-- The first entry with a key: an object that is made of a list keeps the first of equal keys.
abbrev pub lookup {ℓ} : {A : Type ℓ} → String → List (String × A) → Option A
lookup key [] = none
lookup key ((k, v) ∷ rest) = if k == key then some v else lookup key rest

-- What the source relies on.
pub record IsLawful (j : Json) : Type 0 where
  pub unsigned_of : (n : ℕ) → n < 2 ^ 64 → j.as_unsigned (j.of_unsigned n) ≡ some n
  pub string_of : (s : String) → j.as_string (j.of_string s) ≡ some s
  pub object_of : (fields : List (String × j.Value)) → j.is_object (j.of_object fields) ≡ true
  pub member_of :
      (fields : List (String × j.Value)) (key : String)
      → j.member (j.of_object fields) key ≡ lookup key fields
  -- A finite `double` that is neither negative nor above a number of at most 53 bits truncates to
  -- at most that number.
  pub truncated_le :
      (x : j.Float) (n : ℕ)
      → n ≤ max_exact
      → j.is_finite x ≡ true
      → j.is_negative x ≡ false
      → j.above x n ≡ false
      → j.truncated x ≤ n

-- A number in the range of the type is kept.
pub narrowed-small : (j : Json) (max_value n : ℕ) → n ≤ max_value → narrowed j max_value n ≡ n
unfolding narrowed
narrowed-small j max_value n h = mod-eq_of_lt (omega arith)

narrowed-le : (j : Json) (max_value n : ℕ) → narrowed j max_value n ≤ max_value
unfolding narrowed
narrowed-le j max_value n = let h = mod-lt n (zero-lt-suc max_value) in omega (arith, h)

-- A number that `TryGetJsonUnsignedInteger` accepts fits the type.
pub try_get_unsigned-le :
    (j : Json) (max_value : ℕ) (v : j.Value) (n : ℕ)
    → IsLawful j
    → try_get_unsigned j max_value v ≡ some n
    → (n ≤ max_value)
unfolding try_get_unsigned
try_get_unsigned-le j max_value v n laws e = elim (Option-cases (j.as_unsigned v)) [
  | inr (m, natural) ↦ ground (arith, narrowed-le j max_value m)
  | inl no_natural ↦ elim (Option-cases (j.as_integer v)) [
    | inr (nonneg m, signed) ↦ ground (arith, narrowed-le j max_value m)
    | inr (negative m, signed) ↦ ground arith
    | inl no_signed ↦ elim (Option-cases (j.as_float v)) [
      | inl no_float ↦ ground arith
      | inr (x, float) ↦ elim (Bool-cases (ltb max_exact max_value)) [
        | inl wide ↦ ground (arith, laws.truncated_le x max_exact (omega arith))
        | inr narrow ↦ ground (arith, laws.truncated_le x max_value (ground arith))
      ]
    ]
  ]
]

-- An unsigned number of the document is accepted exactly when it fits.
pub try_get_of_unsigned :
    (j : Json) (max_value n : ℕ)
    → IsLawful j
    → n < 2 ^ 64
    → try_get_unsigned j max_value (j.of_unsigned n) ≡ (if ltb max_value n then none else some n)
unfolding try_get_unsigned
try_get_of_unsigned j max_value n laws h =
    rw (try_get_unsigned, laws.unsigned_of n h) (ground (arith, narrowed-small j max_value n))

unsigned_member-le :
    (j : Json) (v : j.Value) (key : String) (max_value n : ℕ)
    → IsLawful j
    → unsigned_member j v key max_value ≡ some n
    → n ≤ max_value
unfolding unsigned_member
unsigned_member-le j v key max_value n laws e = elim (Option-cases (j.member v key)) [
  | inl missing ↦ ground arith
  | inr (x, found) ↦ try_get_unsigned-le j max_value x n laws (ground arith)
]

-- What a member that is read may be.
pub member_cases :
    (j : Json) (v : j.Value) (key : String) (max_value : ℕ)
    → IsLawful j
    → (unsigned_member j v key max_value ≡ none)
      ⊎ ((n : ℕ) × (unsigned_member j v key max_value ≡ some n) × (n ≤ max_value))
member_cases j v key max_value laws = elim (Option-cases (unsigned_member j v key max_value)) [
  | inl e ↦ inl e
  | inr (n, e) ↦ inr (n, e, unsigned_member-le j v key max_value n laws e)
]

pub string_found :
    (j : Json) (fs : List (String × j.Value)) (key s : String)
    → IsLawful j
    → lookup key fs ≡ some (j.of_string s)
    → string_member j (j.of_object fs) key ≡ some s
unfolding string_member
string_found j fs key s laws e = rw (string_member, laws.member_of fs key, e, laws.string_of s) refl

pub unsigned_found :
    (j : Json) (fs : List (String × j.Value)) (key : String) (max_value n : ℕ)
    → IsLawful j
    → max_value ≤ max_u64
    → n ≤ max_value
    → lookup key fs ≡ some (j.of_unsigned n)
    → unsigned_member j (j.of_object fs) key max_value ≡ some n
unfolding unsigned_member
unsigned_found j fs key max_value n laws w h e =
    let fits : ltb max_value n ≡ false = ground arith in
    rw
      (
        unsigned_member,
        laws.member_of fs key,
        e,
        try_get_of_unsigned j max_value n laws (omega arith),
        fits,
      )
      refl
