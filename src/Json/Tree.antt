-- ===== src/Json/Tree.antt =====
-- A concrete JSON document type: the laws can be met. Only the empty object is printed and parsed.
use Prim.Native.String.{String}
use modern_sapi_adapter.Base.{
  ℕ, ◌≤◌, ◌≡◌, refl, ap, Bool, true, false, Option, none, some, List, [], ◌∷◌, ltb, arith, ◌==◌,
  if◌then◌else◌,
}
use modern_sapi_adapter.Event.{string_eq}
use modern_sapi_adapter.Json.{Json, Signed}
use modern_sapi_adapter.Json.Laws.{IsLawful, lookup}

mutual
  pub data Tree : Type 0 where
    null_tree : Tree
    text_tree : String → Tree
    unsigned_tree : ℕ → Tree
    signed_tree : Signed → Tree
    float_tree : Option ℕ → Tree
    object_tree : Fields → Tree
    array_tree : Trees → Tree

  pub data Fields : Type 0 where
    no_fields : Fields
    add_field : String → Tree → Fields → Fields

  pub data Trees : Type 0 where
    no_trees : Trees
    add_tree : Tree → Trees → Trees

abbrev pub to_fields : List (String × Tree) → Fields
to_fields [] = no_fields
to_fields ((k, t) ∷ rest) = add_field k t (to_fields rest)

abbrev pub to_trees : List Tree → Trees
to_trees [] = no_trees
to_trees (t ∷ rest) = add_tree t (to_trees rest)

abbrev find_field : String → Fields → Option Tree
find_field key no_fields = none
find_field key (add_field k t rest) = if k == key then some t else find_field key rest

abbrev tree_is_object : Tree → Bool
tree_is_object (object_tree fs) = true
tree_is_object _ = false

abbrev tree_member : Tree → String → Option Tree
tree_member (object_tree fs) key = find_field key fs
tree_member _ key = none

abbrev tree_text : Tree → Option String
tree_text (text_tree s) = some s
tree_text _ = none

abbrev tree_unsigned : Tree → Option ℕ
tree_unsigned (unsigned_tree n) = some n
tree_unsigned _ = none

abbrev tree_integer : Tree → Option Signed
tree_integer (signed_tree n) = some n
tree_integer _ = none

abbrev tree_float : Tree → Option (Option ℕ)
tree_float (float_tree x) = some x
tree_float _ = none

abbrev is_number : Option ℕ → Bool
is_number none = false
is_number (some n) = true

abbrev above_number : Option ℕ → ℕ → Bool
above_number none m = false
above_number (some n) m = ltb m n

abbrev whole_part : Option ℕ → ℕ
whole_part none = 0
whole_part (some n) = n

-- Of the `double`s, whole numbers and the infinite ones.
abbrev pub tree_json : Json
tree_json = record {
  Value = Tree;
  Float = Option ℕ;
  is_object = tree_is_object;
  member = tree_member;
  as_string = tree_text;
  as_unsigned = tree_unsigned;
  as_integer = tree_integer;
  as_float = tree_float;
  is_finite = is_number;
  is_negative = λ x. false;
  above = above_number;
  is_whole = is_number;
  truncated = whole_part;
  null_value = null_tree;
  of_string = text_tree;
  of_unsigned = unsigned_tree;
  of_signed = signed_tree;
  of_array = λ ts. array_tree (to_trees ts);
  of_object = λ fs. object_tree (to_fields fs);
  dump = λ t. some (123 ∷ 125 ∷ []);
  parse = λ bytes. some (object_tree no_fields);
}

find_field-lookup :
    (fs : List (String × Tree)) (key : String) → find_field key (to_fields fs) ≡ lookup key fs
find_field-lookup [] key = refl
find_field-lookup ((k, t) ∷ rest) key =
    ap (λ (o : Option Tree). if k == key then some t else o) (find_field-lookup rest key)

whole_part-le : (x : Option ℕ) (n : ℕ) → above_number x n ≡ false → whole_part x ≤ n
whole_part-le none n a = omega arith
whole_part-le (some m) n a = ground arith

pub tree_json-IsLawful : IsLawful tree_json
tree_json-IsLawful = record {
  unsigned_of = λ n h. refl;
  string_of = λ s. refl;
  object_of = λ fs. refl;
  member_of = find_field-lookup;
  truncated_le = λ x n h f g a. whole_part-le x n a;
}
