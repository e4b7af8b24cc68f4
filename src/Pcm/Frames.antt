-- ===== src/Pcm/Frames.antt =====
-- What one call of `PcmFrameAssembler::Process` gives.
use modern_sapi_adapter.Base.{
  ℕ, zero, suc, length-take_le, take-split, ltb→lt, ◌+◌, ◌-◌, ◌%◌, ◌≤◌, ◌<◌, ◌≡◌, refl, sym, ap,
  ◌∙◌, List, [], ◌∷◌, ◌++◌, some, none, ok, threw, arith, false, invalid_argument, ◌↔◌, ◌≢◌, ltb,
  length, take, drop, concat, length-append, length-drop, append_assoc, append-nil, Bool-cases, inl,
  inr,
}
use modern_sapi_adapter.Pcm.Assembler.{
  PcmFrameAssembler, PcmFrameBatch, calculate_aligned_bytes, slice_and_retain, retain_tail,
  assemble, process, has_carry,
}

-- The block alignment is positive, and less than one frame is retained.
pub record IsValid (a : PcmFrameAssembler) : Type 0 where
  pub positive : 0 < a.block_align
  pub partial : length a.carry < a.block_align

-- Every span is a whole number of frames.
abbrev pub AllAligned : ℕ → PcmFrameBatch → Type 0
AllAligned k [] = Unit {0}
AllAligned k (s ∷ ss) = (length s % k ≡ 0) × AllAligned k ss

aligned_mod : (k n : ℕ) → 0 < k → (n - n % k) % k ≡ 0
aligned_mod k n h = grind arith

mod_small : (k n : ℕ) → 0 < k → n - (n - n % k) < k
mod_small k n h = grind arith

retain_tail_carry :
    (a : PcmFrameAssembler) (current : List ℕ) (n : ℕ)
    → a.carry ≡ []
    → (retain_tail a current n).carry ≡ take n current
unfolding retain_tail
retain_tail_carry a current zero e = e
retain_tail_carry a current (suc n) e = ground arith

retain_tail_align :
    (a : PcmFrameAssembler) (current : List ℕ) (n : ℕ)
    → (retain_tail a current n).block_align ≡ a.block_align
unfolding retain_tail
retain_tail_align a current n = ground arith

retain_tail-IsValid :
    (a : PcmFrameAssembler) (current : List ℕ) (n : ℕ)
    → a.carry ≡ []
    → n ≤ length current
    → n < a.block_align
    → IsValid (retain_tail a current n)
retain_tail-IsValid a current n e h lt = record {
  positive = rw (retain_tail_align a current n) (omega arith);
  partial =
      rw
        (retain_tail_align a current n, retain_tail_carry a current n e, length-take_le n current h)
        lt;
}

concat-append : (xss yss : PcmFrameBatch) → concat (xss ++ yss) ≡ concat xss ++ concat yss
concat-append [] yss = refl
concat-append (xs ∷ xss) yss =
    rw (concat-append xss yss) (sym (append_assoc xs (concat xss) (concat yss)))

AllAligned-append :
    (k : ℕ) (xss yss : PcmFrameBatch)
    → AllAligned k xss
    → AllAligned k yss
    → AllAligned k (xss ++ yss)
AllAligned-append k [] yss h g = g
AllAligned-append k (xs ∷ xss) yss h g = (h.0, AllAligned-append k xss yss h.1 g)

aligned_facts :
    (a : PcmFrameAssembler) (l : ℕ)
    → 0 < a.block_align
    → (calculate_aligned_bytes a l % a.block_align ≡ 0)
      × (calculate_aligned_bytes a l ≤ l)
      × (l - calculate_aligned_bytes a l < a.block_align)
unfolding calculate_aligned_bytes
aligned_facts a l pos =
    (aligned_mod a.block_align l pos, omega arith, mod_small a.block_align l pos)

-- What a call leaves: a valid assembler of the same alignment, at most `n` whole-frame spans, and
-- every byte of `input` either in a span or in the carry.
pub record Emits (k n : ℕ) (input : List ℕ) (r : PcmFrameAssembler × PcmFrameBatch) : Type 0 where
  pub valid : IsValid r.0
  pub alignment : r.0.block_align ≡ k
  pub whole : AllAligned k r.1
  pub few : length r.1 ≤ n
  pub conserved : concat r.1 ++ r.0.carry ≡ input

slice_and_retain-Emits :
    (a : PcmFrameAssembler) (batch : PcmFrameBatch) (current : List ℕ) (m r : ℕ)
    → a.carry ≡ []
    → 0 < a.block_align
    → r ≤ length current
    → AllAligned a.block_align batch
    → length batch ≤ m
    → Emits a.block_align
        (m + 1)
        (concat batch ++ take r current)
        (slice_and_retain a batch current r)
unfolding slice_and_retain
slice_and_retain-Emits a batch current m r e pos inside al few =
    let n = calculate_aligned_bytes a r in
    let (whole, le, short) = aligned_facts a r pos in
    let cut = length-drop n current in
    let taken = length-take_le n current (omega arith) in
    elim (Bool-cases (ltb 0 n)) [
      | inl t ↦ record {
        valid =
            rw (t, slice_and_retain)
              (retain_tail-IsValid a (drop n current) (r - n) e (omega arith) short);
        alignment = rw (t, slice_and_retain) (retain_tail_align a _ _);
        whole =
            rw (t, slice_and_retain)
              (AllAligned-append a.block_align batch (take n current ∷ []) al (rw taken whole, tt));
        few = rw (t, slice_and_retain) (omega (arith, length-append batch (take n current ∷ [])));
        conserved =
            rw
              (
                t,
                slice_and_retain,
                concat-append batch (take n current ∷ []),
                append-nil (take n current),
                retain_tail_carry a (drop n current) (r - n) e,
              )
              (append_assoc (concat batch) _ _
                ∙ ap (◌++◌ (concat batch)) (take-split n r current le));
      }
      | inr f ↦ record {
        valid = rw (f, slice_and_retain) (retain_tail-IsValid a current r e inside (ground arith));
        alignment = rw (f, slice_and_retain) (retain_tail_align a _ _);
        whole = rw (f, slice_and_retain) al;
        few = rw (f, slice_and_retain) (omega arith);
        conserved =
            rw (f, slice_and_retain) (ap (◌++◌ (concat batch)) (retain_tail_carry a current r e));
      }
    ]

completed_aligned :
    (k c : ℕ) (carry current : List ℕ)
    → length carry ≡ c
    → c ≤ k
    → k - c ≤ length current
    → length (carry ++ take (k - c) current) % k ≡ 0
completed_aligned k c carry current e h g =
    grind (arith, length-append carry (take (k - c) current), length-take_le (k - c) current g)

-- Stage 1 where the input does not complete the frame.
grow-Emits :
    (a : PcmFrameAssembler) (current : List ℕ) (r : ℕ)
    → IsValid a
    → r ≤ length current
    → r < a.block_align - length a.carry
    → Emits a.block_align 2
        (a.carry ++ take r current)
        (record a { carry = a.carry ++ take r current }, [])
grow-Emits a current r v inside short =
    let taken = length-take_le r current inside in
    record {
      valid = record {
        positive = v.positive;
        partial = omega (arith, length-append a.carry (take r current));
      };
      alignment = refl;
      whole = tt;
      few = omega arith;
      conserved = refl;
    }

-- Stage 1 where it does: the completed frame is the first span.
complete-Emits :
    (a : PcmFrameAssembler) (current : List ℕ) (r : ℕ)
    → IsValid a
    → r ≤ length current
    → a.block_align - length a.carry ≤ r
    → let needed = a.block_align - length a.carry in
      let frame = a.carry ++ take needed current in
      Emits a.block_align 2 (a.carry ++ take r current) (
        slice_and_retain
          (record a { completed_frame = frame; carry = [] })
          (frame ∷ [])
          (drop needed current)
          (r - needed))
complete-Emits a current r v inside full =
    let needed = a.block_align - length a.carry in
    let frame = a.carry ++ take needed current in
    let input : concat (frame ∷ []) ++ take (r - needed) (drop needed current)
        ≡ a.carry ++ take r current =
      rw (append-nil frame)
        (append_assoc a.carry _ _ ∙ ap (◌++◌ a.carry) (take-split needed r current full)) in
    rw input at (
      slice_and_retain-Emits (record a { completed_frame = frame; carry = [] }) (frame ∷ [])
        (drop needed current) 1 (r - needed) refl v.positive
        (omega (arith, length-drop needed current))
        (
          completed_aligned a.block_align (length a.carry) a.carry current refl (omega arith)
              (omega arith),
          tt,
        )
        (omega arith))

no_carry : (a : PcmFrameAssembler) → has_carry a ≡ false → a.carry ≡ []
no_carry a h = go a.carry refl
  where
    go : (xs : List ℕ) → a.carry ≡ xs → a.carry ≡ []
    go [] e = e
    go (x ∷ xs) e = ground arith

pub assemble-Emits :
    (a : PcmFrameAssembler) (current : List ℕ) (r : ℕ)
    → IsValid a
    → r ≤ length current
    → Emits a.block_align 2 (a.carry ++ take r current) (assemble a current r)
unfolding assemble
assemble-Emits a current r v inside =
    let needed = a.block_align - length a.carry in
    elim (Bool-cases (has_carry a)) [
      | inl c ↦ elim (Bool-cases (ltb r needed)) [
        | inl short ↦
            rw (c, short, assemble) (grow-Emits a current r v inside (ltb→lt r needed short))
        | inr full ↦ rw (c, full, assemble) (complete-Emits a current r v inside (ground arith))
      ]
      | inr c ↦
          let nil = no_carry a c in
          let direct =
            slice_and_retain-Emits a [] current 0 r nil v.positive inside tt (omega arith) in
          rw (c, assemble)
            (record {
              valid = direct.valid;
              alignment = direct.alignment;
              whole = direct.whole;
              few = omega (arith, direct.few);
              conserved = direct.conserved ∙ sym (ap (λ xs. xs ++ take r current) nil);
            })
    ]

-- A call of `Process` on a buffer of at least `size` bytes succeeds for every valid assembler, and
-- leaves a valid one of the same alignment; it emits at most two spans, each a whole number of
-- frames; the spans and the new carry, in this order, are the old carry and the bytes read.
pub process-Emits :
    (a : PcmFrameAssembler) (buffer : List ℕ) (size : ℕ)
    → IsValid a
    → size ≤ length buffer
    → (r : PcmFrameAssembler × PcmFrameBatch) × (process a (some buffer) size ≡ ok r)
      × Emits a.block_align 2 (a.carry ++ take size buffer) r
unfolding process
process-Emits a buffer zero v inside = (
  (a, []),
  refl,
  record {
    valid = v;
    alignment = refl;
    whole = tt;
    few = omega arith;
    conserved = sym (append-nil a.carry);
  },
)
process-Emits a buffer (suc n) v inside =
    (assemble a buffer (suc n), ground arith, assemble-Emits a buffer (suc n) v inside)

-- A null buffer is refused exactly when its size is not zero.
pub process_null :
    (a : PcmFrameAssembler) (size : ℕ) → (process a none size ≡ threw invalid_argument) ↔ (size ≢ 0)
unfolding process
process_null a size = ground arith
