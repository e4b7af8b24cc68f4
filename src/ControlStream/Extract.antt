-- ===== src/ControlStream/Extract.antt =====
-- `TryExtractLine` gives the lines of the stream.
use modern_sapi_adapter.Base.{
  ℕ, suc, ◌+◌, ◌-◌, ◌<◌, ◌≡◌, refl, sym, ap, ◌∙◌, List, Option, some, none, nat_eq, length, take,
  drop, sub64, arith, inl, inr, length-drop, Option-cases, take_all,
}
use modern_sapi_adapter.ControlStream.Buffer.{
  ControlStreamBuffer, find_newline, find, strip_cr, try_extract_line,
}
use modern_sapi_adapter.ControlStream.Lines.{
  first_line, pending, IsValid, drop-drop, find_newline-lt, first_line-find, find-pending, nothing,
}

-- What one call of `TryExtractLine` may do.
pub data Extracted (b : ControlStreamBuffer) (r : ControlStreamBuffer × Option (List ℕ))
    : Type 0 where
  waits : first_line (pending b) ≡ none → r.1 ≡ none → pending r.0 ≡ pending b → Extracted b r
  gives :
      (line rest : List ℕ)
      → first_line (pending b) ≡ some (line, rest)
      → r.1 ≡ some (strip_cr line)
      → pending r.0 ≡ rest
      → Extracted b r

extract_none :
    (b : ControlStreamBuffer)
    → find_newline (drop b.search_offset b.buffer) ≡ none
    → try_extract_line b ≡ (record b { search_offset = length b.buffer }, none)
unfolding try_extract_line find
extract_none b n = rw (try_extract_line, find, n) refl

extract_some :
    (b : ControlStreamBuffer) (k p : ℕ)
    → find_newline (drop b.search_offset b.buffer) ≡ some k
    → sub64 (b.search_offset + k) b.read_offset ≡ p
    → try_extract_line b ≡ (
      record b { read_offset = b.search_offset + k + 1; search_offset = b.search_offset + k + 1 },
      some (strip_cr (take p (pending b))),
    )
unfolding try_extract_line find
extract_some b k p n s = rw (try_extract_line, find, n, s) refl

waiting :
    (b : ControlStreamBuffer)
    → IsValid b
    → find_newline (drop b.search_offset b.buffer) ≡ none
    → let r = try_extract_line b in IsValid r.0 × (r.0.buffer ≡ b.buffer) × Extracted b r
waiting b v n =
    let none_pending : find_newline (pending b) ≡ none = find-pending b v ∙ rw n refl in
    let size = length-drop b.read_offset b.buffer in
    rw (extract_none b n) (
      record {
        order = omega (arith, v.order, v.inside);
        inside = omega arith;
        word = v.word;
        searched =
            rw (take_all (length b.buffer - b.read_offset) (pending b) (omega (arith, size)))
              none_pending;
      },
      refl,
      waits (first_line-find (pending b) ∙ rw none_pending refl) refl refl,
    )

giving :
    (b : ControlStreamBuffer) (k : ℕ)
    → IsValid b
    → find_newline (drop b.search_offset b.buffer) ≡ some k
    → let r = try_extract_line b in IsValid r.0 × (r.0.buffer ≡ b.buffer) × Extracted b r
giving b k v n =
    let p = b.search_offset - b.read_offset + k in
    let found : find_newline (pending b) ≡ some p = find-pending b v ∙ rw n refl in
    let within : b.search_offset + k < length b.buffer = omega (
      arith,
      find_newline-lt (drop b.search_offset b.buffer) k n,
      length-drop b.search_offset b.buffer,
      v.inside,
    ) in
    let size : sub64 (b.search_offset + k) b.read_offset ≡ p = omega (arith, v.order, v.word) in
    rw (extract_some b k p n size) (
      record {
        order = omega arith;
        inside = omega arith;
        word = v.word;
        searched = nothing (b.search_offset + k + 1) (drop (b.search_offset + k + 1) b.buffer);
      },
      refl,
      gives (take p (pending b)) (drop (suc p) (pending b))
          (first_line-find (pending b) ∙ rw found refl) refl
          (sym (
            drop-drop (suc p) b.read_offset b.buffer
            ∙ ap (λ (j : ℕ). drop j b.buffer) (omega (arith, v.order)))),
    )

-- `TryExtractLine` on a valid buffer leaves a valid buffer of the same bytes; it gives the first line
-- of the bytes that are not given out, without a carriage return at its end, and leaves the bytes
-- after it, or, where no line is complete, gives none and leaves every byte.
pub try_extract_line-Extracted :
    (b : ControlStreamBuffer)
    → IsValid b
    → let r = try_extract_line b in IsValid r.0 × (r.0.buffer ≡ b.buffer) × Extracted b r
try_extract_line-Extracted b v =
    elim (Option-cases (find_newline (drop b.search_offset b.buffer))) [
      | inl n ↦ waiting b v n
      | inr (k, n) ↦ giving b k v n
    ]
