-- ===== src/Protocol/Examples.antt =====
-- Messages over the concrete documents of Json/Tree, and a worker that reads them.
use modern_sapi_adapter.Base.{◌≡◌, ◌⊎◌, suc, if◌then◌else◌, true, refl, inl, false, [], arith}
use modern_sapi_adapter.Json.{string_member, unsigned_member}
use modern_sapi_adapter.Json.Tree.{
  Tree, tree_json, tree_json-IsLawful, object_tree, add_field, no_fields, text_tree, null_tree,
}
use modern_sapi_adapter.Protocol.{parse_control_event}
use modern_sapi_adapter.Protocol.Events.{Message, words, event_of, document_of}
use modern_sapi_adapter.Protocol.Roundtrip.{parse-document_of}
use modern_sapi_adapter.Protocol.Unaddressed.{unaddressed_quarantines, unnamed_ignored}
use modern_sapi_adapter.Worker.State.{SpeechWorker, new_worker}
use modern_sapi_adapter.Worker.Admission.{IsQuarantined}
use modern_sapi_adapter.Worker.Loop.{control_turn}

abbrev third_word : Message
third_word = words (record { audio_offset_ms = 420; text_offset = 12; text_length = 5 })

parse-document_of_example :
    parse_control_event tree_json (document_of tree_json 7 third_word) ≡ event_of 7 third_word
parse-document_of_example =
    parse-document_of tree_json 7 third_word tree_json-IsLawful (omega arith)
      (omega arith, omega arith, omega arith)

-- A message with a name and no request.
abbrev unaddressed : Tree
unaddressed = object_tree (add_field "event" (text_tree "bookmark_reached") no_fields)

abbrev listening : SpeechWorker
listening = new_worker (record { block_align = 4; carry = []; completed_frame = [] })

unaddressed_quarantines_example :
    let (w', passed) = control_turn listening (parse_control_event tree_json unaddressed) 1000 in
    (passed ≡ false)
    × IsQuarantined w'
    × ((listening.fault_publication_started ≡ true)
        ⊎ ((w'.fault_visible ≡ true)
            × (w'.pipe_cancels ≡ (
                if listening.has_client
                then suc listening.pipe_cancels
                else listening.pipe_cancels))))
unfolding unsigned_member string_member
unaddressed_quarantines_example =
    unaddressed_quarantines tree_json unaddressed listening "bookmark_reached" 1000 refl refl
      (λ e. cc) (inl refl)

unnamed_ignored_example :
    control_turn listening (parse_control_event tree_json null_tree) 1000 ≡ (listening, false)
unnamed_ignored_example = unnamed_ignored tree_json null_tree listening 1000 (inl refl)
