-- ===== src/Fragments/Examples.antt =====
-- A fragment that speaks.
use modern_sapi_adapter.Base.{some, [], ◌∷◌}
use modern_sapi_adapter.Json.{nonneg}
use modern_sapi_adapter.Json.Tree.{tree_json, tree_json-IsLawful}
use modern_sapi_adapter.Fragments.{Action, Fragment, fragment_utf8_text, fragment_json}
use modern_sapi_adapter.Fragments.Members.{Reads, fragment_json-Reads}
use modern_sapi_adapter.Strings.Examples.{letters}

abbrev pub greeting : Fragment
greeting = record {
  action = Action.speak;
  text = some (104 ∷ 105 ∷ []);
  text_src_offset = 3;
  silence_ms = 0;
  volume = 100;
  pitch_middle = nonneg 0;
  rate = nonneg 2;
}

fragment_json-Reads_example :
    Reads tree_json
      (fragment_json letters tree_json greeting)
      (fragment_utf8_text letters tree_json greeting)
      greeting
      Action.speak
fragment_json-Reads_example = fragment_json-Reads letters tree_json greeting tree_json-IsLawful
