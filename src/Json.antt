-- ===== src/Json.antt =====
-- The package `nlohmann::json` and the type `double`, which the source calls: operations that the
-- definitions take as a parameter, and documented behaviour of them, which theorems take as a
-- hypothesis. Also CoreEngine/JsonValue.h.
pub mod Laws
pub mod Numbers
pub mod Examples
pub mod Tree
use Prim.Native.String.{String}
use modern_sapi_adapter.Base.{
  ℕ, suc, ◌%◌, Bool, not, ◌||◌, Option, none, some, List, ltb, if◌then◌else◌,
}

-- A signed number: `negative n` is `- (n + 1)`.
pub data Signed : Type 0 where
  nonneg negative : ℕ → Signed

-- `as_…` joins a test such as `is_string` with the `get` that follows it. `member` joins `contains`
-- with `operator[]`. `dump` and `parse` give no value where they throw; the bytes are numbers.
-- `above x n` is `x > static_cast<double>(n)`, and `truncated` is `static_cast<UInt>` for a number in
-- the range of the type.
pub record Json : Type 1 where
  pub Value : Type 0
  pub Float : Type 0
  pub is_object : Value → Bool
  pub member : Value → String → Option Value
  pub as_string : Value → Option String
  pub as_unsigned : Value → Option ℕ
  pub as_integer : Value → Option Signed
  pub as_float : Value → Option Float
  pub is_finite : Float → Bool
  pub is_negative : Float → Bool
  pub above : Float → ℕ → Bool
  pub is_whole : Float → Bool
  pub truncated : Float → ℕ
  pub null_value : Value
  pub of_string : String → Value
  pub of_unsigned : ℕ → Value
  pub of_signed : Signed → Value
  pub of_array : List Value → Value
  pub of_object : List (String × Value) → Value
  pub dump : Value → Option (List ℕ)
  pub parse : List ℕ → Option Value

-- `maximumExactlyRepresentableJsonInteger`.
abbrev pub max_exact : ℕ
max_exact = 9007199254740991

module _ (j : Json) where
  open j use {
    Value, member, as_string, as_unsigned, as_integer, as_float, is_finite, is_negative, above,
    is_whole, truncated,
  }

  -- `static_cast` to the unsigned type whose largest value is given.
  unfoldable pub narrowed : ℕ → ℕ → ℕ
  narrowed max_value n = n % suc max_value

  -- `TryGetJsonUnsignedInteger`, for the type whose largest value is given; `none` where it returns
  -- false, and leaves its output alone.
  unfoldable pub try_get_unsigned : ℕ → Value → Option ℕ
  try_get_unsigned max_value v = elim (as_unsigned v) [
    | some n ↦ if ltb max_value n then none else some (narrowed max_value n)
    | none ↦ elim (as_integer v) [
      | some (negative n) ↦ none
      | some (nonneg n) ↦ if ltb max_value n then none else some (narrowed max_value n)
      | none ↦ elim (as_float v) [
        | none ↦ none
        | some x ↦
            if not (is_finite x)
              || is_negative x
              || above x max_exact
              || above x max_value
              || not (is_whole x)
            then none
            else some (truncated x)
      ]
    ]
  ]

  -- `json.contains(key)` and the unsigned number there.
  unfoldable pub unsigned_member : Value → String → ℕ → Option ℕ
  unfolding try_get_unsigned
  unsigned_member v key max_value = elim (member v key) [
    | none ↦ none
    | some x ↦ try_get_unsigned max_value x
  ]

  -- `json.contains(key) && json[key].is_string()` and the text there.
  unfoldable pub string_member : Value → String → Option String
  string_member v key = elim (member v key) [ none ↦ none | some x ↦ as_string x ]
