-- ===== src/ControlStream/Messages.antt =====
-- `PipeClient::ReadControlMessageUtf8`: one message of the control pipe. What the pipe and the clock
-- give is a list with one entry for each turn of the loop.
use modern_sapi_adapter.Base.{
  ℕ, ◌<◌, Bool, true, false, List, [], ◌∷◌, ◌++◌, Option, none, some, if◌then◌else◌, leb, ltb,
  length, nat_eq,
}
use modern_sapi_adapter.Windows.{e_fail, e_unexpected, timed_out, hresult_from_win32}
use modern_sapi_adapter.ControlStream.Buffer.{
  ControlStreamBuffer, append, try_extract_line, is_over_capacity, max_record_bytes,
}

-- One turn: the tick, then the overlapped read, with its result where it fails.
pub data PipeRead : Type 0 where
  bytes_read : List ℕ → PipeRead
  read_failed : ℕ → PipeRead

-- What a call comes to; `still_waiting` where the pipe has given nothing more yet.
pub data Message : Type 0 where
  received : List ℕ → Message
  refused : ℕ → Message
  still_waiting : Message

-- `ERROR_BUFFER_OVERFLOW` is 111.
abbrev pub buffer_overflow : ℕ
buffer_overflow = hresult_from_win32 111

abbrev expired : Option ℕ → ℕ → Bool
expired none now = false
expired (some deadline) now = leb deadline now

abbrev received_line : List ℕ → Message
received_line line =
    if ltb max_record_bytes (length line) then refused buffer_overflow else received line

-- The buffer, the result, and the reads that are left.
unfoldable pub read_control_message :
    ControlStreamBuffer
    → Option ℕ
    → List (ℕ × PipeRead)
    → ControlStreamBuffer × Message × List (ℕ × PipeRead)
read_control_message b deadline [] =
    let (b', line) = try_extract_line b in
    elim line [
      | some l ↦ (b', received_line l, [])
      | none ↦
          if is_over_capacity b' max_record_bytes
          then (b', refused buffer_overflow, [])
          else (b', still_waiting, [])
    ]
read_control_message b deadline ((now, read) ∷ reads) =
    let (b', line) = try_extract_line b in
    elim line [
      | some l ↦ (b', received_line l, (now, read) ∷ reads)
      | none ↦ elim (is_over_capacity b' max_record_bytes) [
        | true ↦ (b', refused buffer_overflow, (now, read) ∷ reads)
        | false ↦ elim (expired deadline now) [
          | true ↦ (b', refused timed_out, (now, read) ∷ reads)
          | false ↦ elim read [
            | read_failed hr ↦ (b', refused hr, reads)
            | bytes_read [] ↦ (b', refused e_fail, reads)
            | bytes_read (c ∷ cs) ↦ read_control_message (append b' (c ∷ cs)) deadline reads
          ]
        ]
      ]
    ]

-- Reads that the pipe has data for.
abbrev pub AreData : List (ℕ × PipeRead) → Type 0
AreData [] = Unit {0}
AreData ((now, bytes_read bytes) ∷ reads) = (0 < length bytes) × AreData reads
AreData ((now, read_failed hr) ∷ reads) = ⊥

abbrev pub data_of : List (ℕ × PipeRead) → List ℕ
data_of [] = []
data_of ((now, bytes_read bytes) ∷ reads) = bytes ++ data_of reads
data_of ((now, read_failed hr) ∷ reads) = []

-- A call on a connected or an unconnected client.
unfoldable pub read_control_message_utf8 :
    Bool
    → ControlStreamBuffer
    → Option ℕ
    → List (ℕ × PipeRead)
    → ControlStreamBuffer × Message × List (ℕ × PipeRead)
read_control_message_utf8 has_pipe b deadline reads =
    let r = read_control_message b deadline reads in
    if has_pipe then r else (b, refused e_unexpected, reads)
