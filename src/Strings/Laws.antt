-- ===== src/Strings/Laws.antt =====
-- What the conversions make of the documented behaviour of the Windows functions.
use Prim.Native.String.{String}
use modern_sapi_adapter.Base.{
  ℕ, suc, ◌⊎◌, max_u64, none, ◌*◌, ◌≡◌, ◌≤◌, ◌<◌, Bool, true, some, List, [], ◌∷◌, ◌++◌, nat_eq,
  length, max_i32, arith,
}
use modern_sapi_adapter.Strings.{Conversion, wide_to_utf8, utf8_to_wide, utf8_to_co_task_mem}

-- `utf8` is the encoding of `wide`: with room enough, each function gives the other's text.
pub record Encodes (c : Conversion) (wide : List ℕ) (utf8 : String) : Type 0 where
  pub wide_pos : 0 < length wide
  pub wide_le : length wide ≤ max_i32
  pub utf8_pos : 0 < c.utf8_length utf8
  pub utf8_le : c.utf8_length utf8 ≤ max_i32
  pub encoded_size : c.utf8_size wide ≡ c.utf8_length utf8
  pub decoded_size : c.wide_size utf8 ≡ length wide
  pub encoded : c.to_utf8 wide (c.utf8_length utf8) ≡ (c.utf8_length utf8, utf8)
  pub decoded : c.to_wide utf8 (length wide) ≡ (length wide, wide)

-- A conversion gives nothing, or what the function of Windows wrote: into a buffer of the measured
-- size, which it filled, from a text that is not empty and that an `int` can measure.
abbrev pub WideChecked : Conversion → List ℕ → Type 0
WideChecked c wide =
    (wide_to_utf8 c (some wide) ≡ "")
    ⊎ ((0 < length wide)
        × (length wide ≤ max_i32)
        × (0 < c.utf8_size wide)
        × (c.to_utf8 wide (c.utf8_size wide) ≡ (c.utf8_size wide, wide_to_utf8 c (some wide))))

abbrev pub Utf8Checked : Conversion → String → Type 0
Utf8Checked c utf8 =
    (utf8_to_wide c utf8 ≡ [])
    ⊎ ((0 < c.utf8_length utf8)
        × (c.utf8_length utf8 ≤ max_i32)
        × (0 < c.wide_size utf8)
        × (c.to_wide utf8 (c.wide_size utf8) ≡ (c.wide_size utf8, utf8_to_wide c utf8)))

-- The block is none, or that of an empty text, or holds such a conversion and its terminator, and its
-- size neither wraps nor is more than what is left.
abbrev pub BlockChecked : Conversion → (ℕ → Bool) → String → Type 0
BlockChecked c alloc utf8 =
    (utf8_to_co_task_mem c alloc utf8 ≡ none)
    ⊎ (((c.utf8_length utf8 ≡ 0)
          × (alloc 2 ≡ true)
          × (utf8_to_co_task_mem c alloc utf8 ≡ some (0 ∷ [])))
        ⊎ ((units : List ℕ) × (0 < c.utf8_length utf8)
            × (c.utf8_length utf8 ≤ max_i32)
            × (0 < c.wide_size utf8)
            × (suc (c.wide_size utf8) * 2 ≤ max_u64)
            × (alloc (suc (c.wide_size utf8) * 2) ≡ true)
            × (c.to_wide utf8 (c.wide_size utf8) ≡ (c.wide_size utf8, units))
            × (utf8_to_co_task_mem c alloc utf8 ≡ some (units ++ 0 ∷ []))))

wide_to_utf8-Checked : (c : Conversion) (wide : List ℕ) → WideChecked c wide
unfolding wide_to_utf8
wide_to_utf8-Checked c wide = ground arith

utf8_to_wide-Checked : (c : Conversion) (utf8 : String) → Utf8Checked c utf8
unfolding utf8_to_wide
utf8_to_wide-Checked c utf8 = ground arith

co_task_mem-Checked :
    (c : Conversion) (alloc : ℕ → Bool) (utf8 : String) → BlockChecked c alloc utf8
unfolding utf8_to_co_task_mem
co_task_mem-Checked c alloc utf8 = ground arith

-- Well-formed text that is not empty and that an `int` can measure is converted whole, in both
-- directions, and the block for COM holds it with one terminator, if memory is left for the block. Of
-- any other text, and however much memory is left, the conversions give what the functions of Windows
-- wrote under all their guards, or nothing: an empty text, or no block.
pub conversions_complete :
    (c : Conversion) (wide : List ℕ) (utf8 : String) (alloc : ℕ → Bool)
    → Encodes c wide utf8
    → alloc (suc (length wide) * 2) ≡ true
    → (wide_to_utf8 c (some wide) ≡ utf8)
      × (utf8_to_wide c utf8 ≡ wide)
      × (utf8_to_co_task_mem c alloc utf8 ≡ some (wide ++ 0 ∷ []))
      × ((other : List ℕ) → WideChecked c other)
      × ((other : String) → Utf8Checked c other)
      × ((left : ℕ → Bool) (other : String) → BlockChecked c left other)
unfolding wide_to_utf8 utf8_to_wide utf8_to_co_task_mem
conversions_complete c wide utf8 alloc e a = (
  rw (e.encoded_size, e.encoded) (ground arith),
  rw (e.decoded_size, e.decoded) (ground arith),
  rw (e.decoded_size, e.decoded) (ground arith),
  wide_to_utf8-Checked c,
  utf8_to_wide-Checked c,
  co_task_mem-Checked c,
)
