-- ===== src/Fragments/Members.antt =====
-- What a provider reads of a fragment.
use Prim.Native.String.{String}
use modern_sapi_adapter.Base.{
  ◌≡◌, ◌≢◌, true, false, List, [], ◌∷◌, ◌==◌, refl, Bool-cases, inl, inr, ◌⊎◌,
}
use modern_sapi_adapter.Event.{string_eq}
use modern_sapi_adapter.Json.{Json}
use modern_sapi_adapter.Json.Laws.{IsLawful, lookup}
use modern_sapi_adapter.Strings.{Conversion}
use modern_sapi_adapter.Fragments.{
  Action, Fragment, fragment_utf8_text, fragment_members, made_of, fragment_json,
}

-- The members with a text, and without one.
module _ (j : Json) (v : j.Value) (text : String) (f : Fragment) where
  -- The value has these members and no others.
  abbrev HasExactly : List (String × j.Value) → Type 0
  HasExactly ms = (key : String) → j.member v key ≡ lookup key ms

  abbrev prosody : List (String × j.Value)
  prosody =
      ("volume", j.of_unsigned f.volume)
      ∷ ("pitch", j.of_signed f.pitch_middle)
      ∷ ("rate", j.of_signed f.rate)
      ∷ []

  abbrev Speech : Type 0
  Speech =
      ((text ≡ "") × HasExactly prosody)
      ⊎ ((text ≢ "")
          × HasExactly (
              ("text", j.of_string text)
              ∷ ("source_offset", j.of_unsigned f.text_src_offset)
              ∷ prosody))

  -- What the value says, by the action.
  abbrev pub Reads : Action → Type 0
  Reads Action.bookmark =
      ((text ≡ "") × (v ≡ j.null_value))
      ⊎ ((text ≢ "") × HasExactly (("bookmark", j.of_string text) ∷ []))
  Reads Action.silence = HasExactly (("silence_ms", j.of_unsigned f.silence_ms) ∷ [])
  Reads Action.other = v ≡ j.null_value
  Reads _ = Speech

module _ (c : Conversion) (j : Json) (f : Fragment) (laws : IsLawful j) where
  abbrev text : String
  text = fragment_utf8_text c j f

  -- The fragment under another action.
  abbrev under : Action → j.Value
  under a = made_of j (fragment_members c j a f)

  blank : (text == "") ≡ true → text ≡ ""
  blank e = (string_eq.beq_iff text "").0 e

  not_blank : (text == "") ≡ false → text ≢ ""
  not_blank e h = let t = (string_eq.beq_iff text "").1 h in cc

  found :
      (m : String × j.Value) (ms : List (String × j.Value)) (key : String)
      → j.member (made_of j (m ∷ ms)) key ≡ lookup key (m ∷ ms)
  unfolding made_of
  found m ms key = laws.member_of (m ∷ ms) key

  bookmark-Reads : Reads j (under Action.bookmark) text f Action.bookmark
  unfolding fragment_members made_of
  bookmark-Reads = elim (Bool-cases (text == "")) [
    | inl e ↦ rw e (inl (blank e, refl))
    | inr e ↦ rw e (inr (not_blank e, found ("bookmark", j.of_string text) []))
  ]

  -- All actions that speak have the same members.
  spoken-Reads : Reads j (under Action.speak) text f Action.speak
  unfolding fragment_members made_of
  spoken-Reads = elim (Bool-cases (text == "")) [
    | inl e ↦ rw e (inl (blank e, laws.member_of _))
    | inr e ↦ rw e (inr (not_blank e, laws.member_of _))
  ]

  under-Reads : (a : Action) → Reads j (under a) text f a
  unfolding fragment_members made_of
  under-Reads Action.bookmark = bookmark-Reads
  under-Reads Action.silence = laws.member_of _
  under-Reads Action.other = refl
  under-Reads Action.speak = spoken-Reads
  under-Reads Action.pronounce = spoken-Reads
  under-Reads Action.spell_out = spoken-Reads
  under-Reads Action.section = spoken-Reads
  under-Reads Action.parse_unknown_tag = spoken-Reads

  -- The value of a fragment that speaks has its volume, pitch and rate, its text with the offset in the
  -- source where the text is not empty, and no other member; that of a bookmark has its name and
  -- nothing else, that of a silence its length and nothing else; a bookmark with an empty name and a
  -- fragment of any other action are null.
  pub fragment_json-Reads : Reads j (fragment_json c j f) (fragment_utf8_text c j f) f f.action
  unfolding fragment_json
  fragment_json-Reads = under-Reads f.action
