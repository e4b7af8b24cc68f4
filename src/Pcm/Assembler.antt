-- ===== src/Pcm/Assembler.antt =====
-- CoreEngine/PcmFrameAssembler.h and .cpp. A byte buffer is the list of its bytes; a span holds the
-- bytes that it shows while the batch is consumed. A null pointer is `none`.
use modern_sapi_adapter.Base.{
  ℕ, ◌-◌, ◌%◌, List, [], ◌∷◌, ◌++◌, Option, none, some, Bool, true, false, ltb, ◌==◌, nat_eq,
  if◌then◌else◌, length, take, drop, Result, ok, threw, invalid_argument,
}

pub record PcmFrameAssembler : Type 0 where
  pub block_align : ℕ
  pub carry : List ℕ
  pub completed_frame : List ℕ

-- `PcmFrameBatch`: the spans below `count`.
abbrev pub PcmFrameBatch : Type 0
PcmFrameBatch = List (List ℕ)

-- The constructor.
unfoldable pub new_assembler : ℕ → Result PcmFrameAssembler
new_assembler block_align =
    if block_align == 0
    then threw invalid_argument
    else ok (record { block_align = block_align; carry = []; completed_frame = [] })

unfoldable pub calculate_aligned_bytes : PcmFrameAssembler → ℕ → ℕ
calculate_aligned_bytes a byte_count = byte_count - byte_count % a.block_align

abbrev pub has_carry : PcmFrameAssembler → Bool
has_carry a = if length a.carry == 0 then false else true

-- Stage 3 of `Process`: the tail of the input becomes the carry.
unfoldable pub retain_tail : PcmFrameAssembler → List ℕ → ℕ → PcmFrameAssembler
retain_tail a current remaining =
    if ltb 0 remaining then record a { carry = take remaining current } else a

-- Stage 2: the aligned part of the input is one span.
unfoldable pub slice_and_retain :
    PcmFrameAssembler → PcmFrameBatch → List ℕ → ℕ → PcmFrameAssembler × PcmFrameBatch
slice_and_retain a batch current remaining =
    let aligned = calculate_aligned_bytes a remaining in
    if ltb 0 aligned
    then (
      retain_tail a (drop aligned current) (remaining - aligned),
      batch ++ (take aligned current ∷ []),
    )
    else (retain_tail a current remaining, batch)

-- Stage 1: the carry is completed by the first bytes of the input, or grows by all of it.
unfoldable pub assemble : PcmFrameAssembler → List ℕ → ℕ → PcmFrameAssembler × PcmFrameBatch
assemble a current remaining =
    let bytes_needed = a.block_align - length a.carry in
    let frame = a.carry ++ take bytes_needed current in
    if has_carry a
    then if ltb remaining bytes_needed
      then (record a { carry = a.carry ++ take remaining current }, [])
      else slice_and_retain (record a { completed_frame = frame; carry = [] }) (frame ∷ [])
          (drop bytes_needed current) (remaining - bytes_needed)
    else slice_and_retain a [] current remaining

unfoldable pub process :
    PcmFrameAssembler → Option (List ℕ) → ℕ → Result (PcmFrameAssembler × PcmFrameBatch)
process a input size =
    if size == 0
    then ok (a, [])
    else elim input [ none ↦ threw invalid_argument | some bytes ↦ ok (assemble a bytes size) ]

-- `Reset`.
unfoldable pub discard : PcmFrameAssembler → PcmFrameAssembler
discard a = record a { carry = []; completed_frame = [] }
