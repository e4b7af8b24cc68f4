-- ===== src/Strings/Examples.antt =====
-- Texts of two letters.
use Prim.Native.String.{String}
use modern_sapi_adapter.Base.{ℕ, Bool, List, ◌≡◌, refl, true, some, [], ◌∷◌, ◌++◌, length, arith}
use modern_sapi_adapter.Strings.{Conversion, wide_to_utf8, utf8_to_wide, utf8_to_co_task_mem}
use modern_sapi_adapter.Strings.Laws.{WideChecked, Utf8Checked, BlockChecked, conversions_complete}

-- A converter for texts of two ASCII letters, as far as it is used.
abbrev pub letters : Conversion
letters = record {
  utf8_length = λ s. 2;
  utf8_size = length;
  to_utf8 = λ units n. (length units, "hi");
  wide_size = λ s. 2;
  to_wide = λ s n. (2, 104 ∷ 105 ∷ []);
}

conversions_complete_example :
    (wide_to_utf8 letters (some (104 ∷ 105 ∷ [])) ≡ "hi")
    × (utf8_to_wide letters "hi" ≡ 104 ∷ 105 ∷ [])
    × (utf8_to_co_task_mem letters (λ n. true) "hi" ≡ some ((104 ∷ 105 ∷ []) ++ 0 ∷ []))
    × ((other : List ℕ) → WideChecked letters other)
    × ((other : String) → Utf8Checked letters other)
    × ((left : ℕ → Bool) (other : String) → BlockChecked letters left other)
conversions_complete_example =
    conversions_complete letters (104 ∷ 105 ∷ []) "hi" (λ n. true)
      (record {
        wide_pos = omega arith;
        wide_le = omega arith;
        utf8_pos = omega arith;
        utf8_le = omega arith;
        encoded_size = refl;
        decoded_size = refl;
        encoded = refl;
        decoded = refl;
      })
      refl
