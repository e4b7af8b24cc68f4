-- ===== src/ControlStream/Examples.antt =====
-- The control channel on a small stream, cut in the middle of a line.
use modern_sapi_adapter.Base.{ℕ, ◌≡◌, refl, List, [], ◌∷◌, some, arith}
use modern_sapi_adapter.ControlStream.Buffer.{ControlStreamBuffer, find_newline}
use modern_sapi_adapter.ControlStream.Lines.{IsValid, first_line}
use modern_sapi_adapter.ControlStream.Messages.{PipeRead, bytes_read}

-- One line given out, then `a` and `b`, of which `a` was searched.
abbrev pub held : ControlStreamBuffer
held = record { buffer = 120 ∷ 10 ∷ 97 ∷ 98 ∷ []; read_offset = 2; search_offset = 3 }

pub held-IsValid : IsValid held
unfolding find_newline
held-IsValid = record {
  order = omega arith;
  inside = omega arith;
  word = omega arith;
  searched = refl;
}

abbrev pub reads : List (ℕ × PipeRead)
reads =
    (5, bytes_read (99 ∷ 13 ∷ []))
    ∷ (6, bytes_read (10 ∷ 100 ∷ []))
    ∷ (7, bytes_read (101 ∷ []))
    ∷ []

abbrev pub first : List ℕ
first = 97 ∷ 98 ∷ 99 ∷ 13 ∷ []

pub stream_first :
    first_line (97 ∷ 98 ∷ 99 ∷ 13 ∷ 10 ∷ 100 ∷ 101 ∷ []) ≡ some (first, 100 ∷ 101 ∷ [])
unfolding first_line
stream_first = refl
