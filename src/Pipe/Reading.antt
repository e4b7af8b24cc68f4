-- ===== src/Pipe/Reading.antt =====
-- `PipeClient::ReadControlMessage`: the next line of the control pipe as JSON.
use modern_sapi_adapter.Base.{
  ℕ, true, Option, none, some, List, [], ◌∷◌, ◌++◌, ◌≡◌, ◌<◌, ◌≤◌, ◌^◌, ◌+◌, length, refl, sym,
  subst, ap, ◌∙◌, ◌≢◌, inl, inr, Option-cases,
}
use modern_sapi_adapter.Windows.{s_ok, s_false, e_fail}
use modern_sapi_adapter.Json.{Json}
use modern_sapi_adapter.ControlStream.Buffer.{
  ControlStreamBuffer, compact_control_buffer, strip_cr, max_record_bytes,
}
use modern_sapi_adapter.ControlStream.Messages.{
  PipeRead, Message, received, refused, still_waiting, read_control_message,
  read_control_message_utf8, AreData, data_of,
}
use modern_sapi_adapter.ControlStream.Lines.{pending, IsValid, first_line}
use modern_sapi_adapter.ControlStream.Stream.{message_delivered}
use modern_sapi_adapter.ControlStream.Room.{compact-pending}
use modern_sapi_adapter.Pipe.{PipeClient}

module _ (j : Json) where
  open j use {Value, parse}

  unfoldable pub parsed_document : Value → Option Value → ℕ × Value
  parsed_document cleared none = (e_fail, cleared)
  parsed_document cleared (some v) = (s_ok, v)

  -- The document of a line, or the value that `outJson.clear()` left where it cannot be parsed.
  unfoldable pub parsed_line : Value → List ℕ → ℕ × Value
  parsed_line cleared [] = (s_false, cleared)
  parsed_line cleared (c ∷ cs) = parsed_document cleared (parse (c ∷ cs))

  -- What the message comes to: the client, the result, and `outJson`; `none` while it still waits.
  unfoldable pub finish_read :
      PipeClient → Value → ControlStreamBuffer → Message → Option (PipeClient × ℕ × Value)
  finish_read c cleared b still_waiting = none
  finish_read c cleared b (refused hr) = some (record c { control_buffer = b }, hr, cleared)
  finish_read c cleared b (received line) =
      let (hr, v) = parsed_line cleared line in
      some (record c { control_buffer = compact_control_buffer b }, hr, v)

  -- `ReadControlMessage`, with the reads that are left.
  unfoldable pub read_json :
      PipeClient
      → Value
      → Option ℕ
      → List (ℕ × PipeRead)
      → Option (PipeClient × ℕ × Value) × List (ℕ × PipeRead)
  read_json c cleared deadline reads =
      let (b, message, rest) =
        read_control_message_utf8 c.control_pipe c.control_buffer deadline reads in
      (finish_read c cleared b message, rest)

finish_received :
    (j : Json) (c : PipeClient) (cleared : j.Value) (b : ControlStreamBuffer) (line : List ℕ)
    → let (hr, v) = parsed_line j cleared line in
      finish_read j c cleared b (received line)
      ≡ some (record c { control_buffer = compact_control_buffer b }, hr, v)
unfolding finish_read
finish_received j c cleared b line = refl

-- What a caller learns of a line, if `outJson` was cleared before.
pub data Answers (j : Json) (cleared : j.Value) (line : List ℕ) : ℕ → j.Value → Type 0 where
  empty : line ≡ [] → Answers j cleared line s_false cleared
  unparsed : line ≢ [] → j.parse line ≡ none → Answers j cleared line e_fail cleared
  parsed : (v : j.Value) → line ≢ [] → j.parse line ≡ some v → Answers j cleared line s_ok v

parsed_line-Answers :
    (j : Json) (cleared : j.Value) (line : List ℕ)
    → let (hr, v) = parsed_line j cleared line in Answers j cleared line hr v
unfolding parsed_line parsed_document
parsed_line-Answers j cleared [] = empty refl
parsed_line-Answers j cleared (c ∷ cs) =
    let AnswersAs = λ (o : Option j.Value).
      let (hr, v) = parsed_document j cleared o in Answers j cleared (c ∷ cs) hr v in
    elim (Option-cases (j.parse (c ∷ cs))) [
      | inl e ↦ subst AnswersAs (sym e) (unparsed (λ k. cc) e)
      | inr (v, e) ↦ subst AnswersAs (sym e) (parsed v (λ k. cc) e)
    ]

-- From a valid buffer, when every read has data, and the bytes not given out and those of the reads
-- hold a line and are at most 16 MiB together: `ReadControlMessage` without a time limit gives the
-- document of that line, `S_FALSE` for an empty one and `E_FAIL` for one that cannot be parsed; the
-- buffer stays valid, and holds with the reads that are left exactly what follows the line.
pub json_delivered :
    (j : Json) (c : PipeClient) (cleared : j.Value) (reads : List (ℕ × PipeRead))
    (line rest : List ℕ)
    → c.control_pipe ≡ true
    → IsValid c.control_buffer
    → AreData reads
    → length c.control_buffer.buffer + length (data_of reads) < 2 ^ 64
    → length (pending c.control_buffer ++ data_of reads) ≤ max_record_bytes
    → first_line (pending c.control_buffer ++ data_of reads) ≡ some (line, rest)
    → let (result, left) = read_json j c cleared none reads in
      (d : PipeClient) × (hr : ℕ) × (v : j.Value) × Answers j cleared (strip_cr line) hr v
      × (result ≡ some (d, hr, v))
      × IsValid d.control_buffer
      × (pending d.control_buffer ++ data_of left ≡ rest)
unfolding read_json read_control_message_utf8
json_delivered j c cleared reads line rest open_pipe v d word size e =
    let r = read_control_message c.control_buffer none reads in
    let m = message_delivered c.control_buffer reads line rest v d word size e in
    let (_, _, _, kept, valid) = compact-pending r.0 m.valid in
    let done : finish_read j c cleared r.0 r.1
        ≡ finish_read j c cleared r.0 (received (strip_cr line)) =
      ap (λ (x : Message). finish_read j c cleared r.0 x) m.message in
    simp open_pipe (
      record c { control_buffer = compact_control_buffer r.0 },
      (parsed_line j cleared (strip_cr line)).0,
      (parsed_line j cleared (strip_cr line)).1,
      parsed_line-Answers j cleared (strip_cr line),
      done ∙ finish_received j c cleared r.0 (strip_cr line),
      valid,
      ap (λ (p : List ℕ). p ++ data_of r.2) kept ∙ m.remains,
    )
