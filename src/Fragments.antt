-- ===== src/Fragments.antt =====
-- The fragments of a request as JSON: CoreEngine/SapiFragmentSerializer.cpp.
pub mod Members
pub mod Examples
use Prim.Native.String.{String}
use modern_sapi_adapter.Base.{
  ℕ, Bool, true, false, Option, none, some, List, [], ◌∷◌, ◌++◌, map, ◌==◌, if◌then◌else◌,
}
use modern_sapi_adapter.Event.{string_eq}
use modern_sapi_adapter.Json.{Json, Signed}
use modern_sapi_adapter.Strings.{Conversion, wide_to_utf8}

-- `SPVACTIONS`; `other` is any value that the `switch` does not name.
pub data Action : Type 0 where
  speak silence pronounce bookmark spell_out section parse_unknown_tag other : Action

-- `SPVTEXTFRAG` with the members of its `SPVSTATE` that are read; the list is linked by `pNext`.
-- `text` is what `pTextStart` and `ulTextLen` show, `none` for a null pointer.
pub record Fragment : Type 0 where
  pub action : Action
  pub text : Option (List ℕ)
  pub text_src_offset : ℕ
  pub silence_ms : ℕ
  pub volume : ℕ
  pub pitch_middle : Signed
  pub rate : Signed

module _ (j : Json) where
  open j use {Value, null_value, of_object}

  -- A JSON value that no member is assigned to stays null.
  unfoldable pub made_of : List (String × Value) → Value
  made_of [] = null_value
  made_of (m ∷ ms) = of_object (m ∷ ms)

module _ (c : Conversion) (j : Json) where
  open j use {Value, of_string, of_unsigned, of_signed, of_array}

  -- `FragmentUtf8Text`.
  unfoldable pub fragment_utf8_text : Fragment → String
  fragment_utf8_text f = wide_to_utf8 c f.text

  -- The members that an action assigns.
  unfoldable pub fragment_members : Action → Fragment → List (String × Value)
  unfolding fragment_utf8_text
  fragment_members bookmark f =
      if fragment_utf8_text f == "" then [] else ("bookmark", of_string (fragment_utf8_text f)) ∷ []
  fragment_members silence f = ("silence_ms", of_unsigned f.silence_ms) ∷ []
  fragment_members other f = []
  fragment_members _ f =
      (if fragment_utf8_text f == ""
        then []
        else ("text", of_string (fragment_utf8_text f))
          ∷ ("source_offset", of_unsigned f.text_src_offset)
          ∷ [])
      ++ (("volume", of_unsigned f.volume)
          ∷ ("pitch", of_signed f.pitch_middle)
          ∷ ("rate", of_signed f.rate)
          ∷ [])

  unfoldable pub fragment_json : Fragment → Value
  unfolding fragment_members made_of
  fragment_json f = made_of j (fragment_members f.action f)

  -- `Serialize`.
  unfoldable pub serialize : List Fragment → Value
  unfolding fragment_json
  serialize fragments = of_array (map fragment_json fragments)
