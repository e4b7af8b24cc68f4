-- ===== src/ControlStream/Stream.antt =====
-- A message is the next line of the stream, however the pipe cuts it.
use mathlib.Core.Option.{some-injective, some-ne-none}
use modern_sapi_adapter.Base.{
  ℕ, ◌+◌, ◌^◌, ◌≤◌, ◌<◌, ◌≡◌, refl, sym, ap, ◌∙◌, false, List, [], ◌∷◌, ◌++◌, Option, none, some,
  ltb, length, arith, append_assoc, length-append, append-nil, nat_eq, ◌==◌, Bool-cases,
  Option-cases, inl, inr, length-drop, sub64,
}
use modern_sapi_adapter.ControlStream.Buffer.{
  ControlStreamBuffer, append, strip_cr, try_extract_line, is_over_capacity, max_record_bytes,
}
use modern_sapi_adapter.ControlStream.Lines.{first_line, pending, IsValid}
use modern_sapi_adapter.ControlStream.Extract.{waits, gives, try_extract_line-Extracted}
use modern_sapi_adapter.ControlStream.Room.{append-pending}
use modern_sapi_adapter.ControlStream.Messages.{
  PipeRead, bytes_read, read_failed, Message, received, read_control_message, AreData, data_of,
}

first_line-append :
    (xs ys line rest : List ℕ)
    → first_line xs ≡ some (line, rest)
    → first_line (xs ++ ys) ≡ some (line, rest ++ ys)
unfolding first_line
first_line-append [] ys line rest e = ground arith
first_line-append (c ∷ cs) ys line rest e = elim (Bool-cases (c == 10)) [
  | inl t ↦ ground arith
  | inr t ↦ elim (Option-cases (first_line cs)) [
    | inl n ↦ ground arith
    | inr ((l, r), n) ↦ let ih = first_line-append cs ys l r n in ground arith
  ]
]

-- A line is shorter than its stream.
first_line-length :
    (xs line rest : List ℕ) → first_line xs ≡ some (line, rest) → length line < length xs
unfolding first_line
first_line-length [] line rest e = ground arith
first_line-length (c ∷ cs) line rest e = elim (Bool-cases (c == 10)) [
  | inl t ↦ ground arith
  | inr t ↦ elim (Option-cases (first_line cs)) [
    | inl n ↦ ground arith
    | inr ((l, r), n) ↦ let ih = first_line-length cs l r n in ground arith
  ]
]

strip_cr-length : (line : List ℕ) → length (strip_cr line) ≤ length line
unfolding strip_cr
strip_cr-length [] = omega arith
strip_cr-length (c ∷ []) = ground arith
strip_cr-length (c ∷ d ∷ cs) = omega (arith, strip_cr-length (d ∷ cs))

-- What a call does first.
read_given :
    (b : ControlStreamBuffer) (deadline : Option ℕ) (line : List ℕ) (reads : List (ℕ × PipeRead))
    → (try_extract_line b).1 ≡ some line
    → length line ≤ max_record_bytes
    → read_control_message b deadline reads ≡ ((try_extract_line b).0, received line, reads)
unfolding read_control_message
read_given b deadline line [] e h =
    let f : ltb max_record_bytes (length line) ≡ false = ground arith in
    rw (read_control_message, e, f) refl
read_given b deadline line ((now, read) ∷ reads) e h =
    let f : ltb max_record_bytes (length line) ≡ false = ground arith in
    rw (read_control_message, e, f) refl

read_waits :
    (b : ControlStreamBuffer) (now c : ℕ) (cs : List ℕ) (reads : List (ℕ × PipeRead))
    → (try_extract_line b).1 ≡ none
    → is_over_capacity (try_extract_line b).0 max_record_bytes ≡ false
    → read_control_message b none ((now, bytes_read (c ∷ cs)) ∷ reads)
      ≡ read_control_message (append (try_extract_line b).0 (c ∷ cs)) none reads
unfolding read_control_message
read_waits b now c cs reads e o = ground arith

-- What a call owes for a stream whose first line is `line`.
pub record Delivers (line rest : List ℕ) (r : ControlStreamBuffer × Message × List (ℕ × PipeRead))
    : Type 0 where
  pub valid : IsValid r.0
  pub message : r.1 ≡ received (strip_cr line)
  pub remains : pending r.0 ++ data_of r.2 ≡ rest

given-Delivers :
    (b : ControlStreamBuffer) (reads : List (ℕ × PipeRead)) (line rest l r : List ℕ)
    → IsValid (try_extract_line b).0
    → length (pending b ++ data_of reads) ≤ max_record_bytes
    → first_line (pending b ++ data_of reads) ≡ some (line, rest)
    → first_line (pending b) ≡ some (l, r)
    → (try_extract_line b).1 ≡ some (strip_cr l)
    → pending (try_extract_line b).0 ≡ r
    → Delivers line rest (read_control_message b none reads)
given-Delivers b reads line rest l r v size e e1 e2 e3 =
    let both = sym e ∙ first_line-append (pending b) (data_of reads) l r e1 in
    let same = some-injective (line, rest) (l, r ++ data_of reads) both in
    let fits : length (strip_cr l) ≤ max_record_bytes = omega (
      arith,
      strip_cr-length l,
      first_line-length (pending b) l r e1,
      length-append (pending b) (data_of reads),
      size,
    ) in
    rw (read_given b none (strip_cr l) reads e2 fits) (record {
      valid = v;
      message = ap (λ (p : List ℕ × List ℕ). received (strip_cr p.0)) (sym same);
      remains =
          ap (λ (xs : List ℕ). xs ++ data_of reads) e3
          ∙ ap (λ (p : List ℕ × List ℕ). p.1) (sym same);
    })

-- A buffer within the bound is not over capacity.
within_capacity :
    (b : ControlStreamBuffer)
    → IsValid b
    → length (pending b) ≤ max_record_bytes
    → is_over_capacity b max_record_bytes ≡ false
unfolding is_over_capacity
within_capacity b v h =
    let size : sub64 (length b.buffer) b.read_offset ≡ length (pending b) =
      omega (arith, length-drop b.read_offset b.buffer, v.order, v.inside, v.word) in
    rw size (ground arith)

grown :
    (b : ControlStreamBuffer) (bytes more : List ℕ)
    → length b.buffer + (length bytes + length more) < 2 ^ 64
    → length (append b bytes).buffer + length more < 2 ^ 64
unfolding append
grown b bytes more h = omega (arith, length-append b.buffer bytes, h)

-- From a valid buffer that does not outgrow a `size_t`, with no time limit, when every read has
-- data, and the bytes not given out and those of the reads hold a line and are at most 16 MiB
-- together, a call of `ReadControlMessageUtf8` returns that line without a carriage return at its
-- end, and what is left in the buffer and in the unread reads is what follows the line, whatever
-- way the pipe cuts the stream.
pub message_delivered :
    (b : ControlStreamBuffer) (reads : List (ℕ × PipeRead)) (line rest : List ℕ)
    → IsValid b
    → AreData reads
    → length b.buffer + length (data_of reads) < 2 ^ 64
    → length (pending b ++ data_of reads) ≤ max_record_bytes
    → first_line (pending b ++ data_of reads) ≡ some (line, rest)
    → Delivers line rest (read_control_message b none reads)
message_delivered b [] line rest v d word size e =
    let (v', _, x) = try_extract_line-Extracted b v in
    elim x [
      | waits e1 e2 e3 ↦
          absurd (some-ne-none (line, rest) (sym e ∙ ap first_line (append-nil (pending b)) ∙ e1))
      | gives l r e1 e2 e3 ↦ given-Delivers b [] line rest l r v' size e e1 e2 e3
    ]
message_delivered b ((now, bytes_read []) ∷ reads) line rest v d word size e =
    absurd (omega (arith, d.0))
message_delivered b ((now, read_failed hr) ∷ reads) line rest v d word size e = absurd d
message_delivered b ((now, bytes_read (c ∷ cs)) ∷ reads) line rest v d word size e =
    let (v', kept, x) = try_extract_line-Extracted b v in
    elim x [
      | gives l r e1 e2 e3 ↦
          given-Delivers b ((now, bytes_read (c ∷ cs)) ∷ reads) line rest l r v' size e e1 e2 e3
      | waits e1 e2 e3 ↦
          let b' = (try_extract_line b).0 in
          let held = ap (λ (xs : List ℕ). length xs) kept in
          let split = length-append (c ∷ cs) (data_of reads) in
          let (moved, w) = append-pending b' (c ∷ cs) v' (omega (arith, held, split, word)) in
          let stream : pending (append b' (c ∷ cs)) ++ data_of reads
              ≡ pending b ++ ((c ∷ cs) ++ data_of reads) =
            ap (λ (xs : List ℕ). xs ++ data_of reads) (moved ∙ ap (λ xs. xs ++ c ∷ cs) e3)
            ∙ append_assoc (pending b) (c ∷ cs) (data_of reads) in
          let fits = within_capacity b' v' (
            omega (
              arith,
              ap (λ (xs : List ℕ). length xs) e3,
              length-append (pending b) ((c ∷ cs) ++ data_of reads),
              size,
            )) in
          rw (read_waits b now c cs reads e2 fits) (
            message_delivered (append b' (c ∷ cs)) reads line rest w d.1
              (grown b' (c ∷ cs) (data_of reads) (omega (arith, held, split, word)))
              (rw stream size) (rw stream e))
    ]
