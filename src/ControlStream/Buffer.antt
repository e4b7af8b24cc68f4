-- ===== src/ControlStream/Buffer.antt =====
-- `ControlStreamBuffer`, operation by operation. The view that `TryExtractLine` gives out is the
-- list of its bytes.
use mathlib.Core.Option
use modern_sapi_adapter.Base.{
  ℕ, suc, ◌+◌, ◌*◌, Bool, true, false, ◌||◌, List, [], ◌∷◌, ◌++◌, Option, some, none, if◌then◌else◌,
  ◌==◌, nat_eq, ltb, length, take, drop, sub64,
}

pub record ControlStreamBuffer : Type 0 where
  pub buffer : List ℕ
  pub read_offset : ℕ
  pub search_offset : ℕ

abbrev pub max_record_bytes : ℕ
max_record_bytes = 16 * 1024 * 1024

unfoldable pub empty_buffer : ControlStreamBuffer
empty_buffer = record { buffer = []; read_offset = 0; search_offset = 0 }

unfoldable pub append : ControlStreamBuffer → List ℕ → ControlStreamBuffer
append b bytes = record b { buffer = b.buffer ++ bytes }

-- The position of the first line feed.
unfoldable pub find_newline : List ℕ → Option ℕ
find_newline [] = none
find_newline (c ∷ cs) =
    let rest = Option.map suc (find_newline cs) in if c == 10 then some 0 else rest

-- `buffer.find('\n', position)`.
unfoldable pub find : List ℕ → ℕ → Option ℕ
find buffer position = Option.map (λ k. position + k) (find_newline (drop position buffer))

-- A carriage return at the end is no part of a line.
unfoldable pub strip_cr : List ℕ → List ℕ
strip_cr [] = []
strip_cr (c ∷ []) = if c == 13 then [] else c ∷ []
strip_cr (c ∷ d ∷ cs) = c ∷ strip_cr (d ∷ cs)

unfoldable pub try_extract_line : ControlStreamBuffer → ControlStreamBuffer × Option (List ℕ)
try_extract_line b = elim (find b.buffer b.search_offset) [
  | none ↦ (record b { search_offset = length b.buffer }, none)
  | some newline ↦ (
    record b { read_offset = newline + 1; search_offset = newline + 1 },
    some (strip_cr (take (sub64 newline b.read_offset) (drop b.read_offset b.buffer))),
  )
]

unfoldable pub has_pending_line : ControlStreamBuffer → Bool
has_pending_line b = elim (find b.buffer b.read_offset) [ none ↦ false | some _ ↦ true ]

unfoldable pub unconsumed_bytes : ControlStreamBuffer → ℕ
unconsumed_bytes b = sub64 (length b.buffer) b.read_offset

unfoldable pub is_over_capacity : ControlStreamBuffer → ℕ → Bool
is_over_capacity b max_bytes = ltb max_bytes (sub64 (length b.buffer) b.read_offset)

unfoldable pub compact : ControlStreamBuffer → ControlStreamBuffer
unfolding empty_buffer
compact b =
    if b.read_offset == length b.buffer
    then empty_buffer
    else if ltb 0 b.read_offset
    then record { buffer = drop b.read_offset b.buffer; read_offset = 0; search_offset = 0 }
    else b

unfoldable pub clear : ControlStreamBuffer → ControlStreamBuffer
unfolding empty_buffer
clear b = empty_buffer

-- `PipeClient::CompactControlBuffer`.
unfoldable pub compact_control_buffer : ControlStreamBuffer → ControlStreamBuffer
compact_control_buffer b =
    if b.read_offset == length b.buffer || ltb 4095 b.read_offset then compact b else b
