-- ===== src/Json/Examples.antt =====
-- A `double` of a document.
use modern_sapi_adapter.Base.{ℕ, ◌≤◌, ◌≡◌, ◌↔◌, Option, none, some, true, false, max_u32, arith}
use modern_sapi_adapter.Json.{try_get_unsigned}
use modern_sapi_adapter.Json.Tree.{tree_json, tree_json-IsLawful, float_tree}
use modern_sapi_adapter.Json.Numbers.{Denotes, HasExactDoubles, accepted_iff}

whole_not_above :
    (x : Option ℕ) (n : ℕ)
    → tree_json.is_finite x ≡ true
    → tree_json.truncated x ≤ n
    → tree_json.above x n ≡ false
whole_not_above none n f h = cc
whole_not_above (some m) n f h = ground arith

whole-HasExactDoubles : HasExactDoubles tree_json
whole-HasExactDoubles = record { not_above = λ x n f g w k h. whole_not_above x n f h }

accepted_iff_example :
    (try_get_unsigned tree_json max_u32 (float_tree (some 7)) ≡ some 7)
    ↔ (Denotes tree_json (float_tree (some 7)) 7 × (7 ≤ max_u32))
accepted_iff_example =
    accepted_iff tree_json max_u32 (float_tree (some 7)) 7 tree_json-IsLawful whole-HasExactDoubles
