-- ===== src/Strings.antt =====
-- Conversions of text: CoreEngine/StringUtils.cpp. Wide text is the list of its UTF-16 units; the
-- conversion functions of Windows are a parameter.
pub mod Laws
pub mod Examples
use Prim.Native.String.{String}
use modern_sapi_adapter.Base.{
  ℕ, suc, ◌/◌, ◌*◌, ◌≡◌, Bool, ◌||◌, Option, none, some, List, [], ◌∷◌, ◌++◌, ◌==◌, ◌!=◌, nat_eq,
  ltb, if◌then◌else◌, length, max_i32, max_u64,
}
use modern_sapi_adapter.Event.{string_eq}

-- `WideCharToMultiByte` and `MultiByteToWideChar` for `CP_UTF8`: the required size, and the number
-- of units written into a buffer of a given size with the buffer. Zero is failure, and neither
-- gives a negative number. `utf8_length` is the size of a `std::string`.
pub record Conversion : Type 0 where
  pub utf8_length : String → ℕ
  pub utf8_size : List ℕ → ℕ
  pub to_utf8 : List ℕ → ℕ → ℕ × String
  pub wide_size : String → ℕ
  pub to_wide : String → ℕ → ℕ × List ℕ

module _ (c : Conversion) where
  open c use {utf8_length, utf8_size, to_utf8, wide_size, to_wide}

  -- `WideToUtf8`; a null pointer is `none`.
  unfoldable pub wide_to_utf8 : Option (List ℕ) → String
  wide_to_utf8 none = ""
  wide_to_utf8 (some text) =
      let required_size = utf8_size text in
      let (converted, utf8) = to_utf8 text required_size in
      if length text == 0
      then ""
      else if ltb max_i32 (length text)
      then ""
      else if required_size == 0
      then ""
      else if converted != required_size
      then ""
      else utf8

  -- `Utf8ToWide`.
  unfoldable pub utf8_to_wide : String → List ℕ
  utf8_to_wide text =
      let required_size = wide_size text in
      let (converted, wide) = to_wide text required_size in
      if utf8_length text == 0
      then []
      else if ltb max_i32 (utf8_length text)
      then []
      else if required_size == 0
      then []
      else if converted != required_size
      then []
      else wide

  -- `Utf8ToCoTaskMemWide`: the units of the block with its terminator, `none` for a null pointer.
  -- `alloc n` is whether `CoTaskMemAlloc` has `n` bytes.
  unfoldable pub utf8_to_co_task_mem : (ℕ → Bool) → String → Option (List ℕ)
  utf8_to_co_task_mem alloc text =
      let count = wide_size text in
      let (converted, wide) = to_wide text count in
      if ltb max_i32 (utf8_length text)
      then none
      else if utf8_length text == 0
      then if alloc 2 then some (0 ∷ []) else none
      else if count == 0
      then none
      else if ltb (max_u64 / 2) (suc count)
      then none
      else if alloc (suc count * 2)
      then if converted != count then none else some (wide ++ 0 ∷ [])
      else none
