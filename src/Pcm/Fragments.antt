-- ===== src/Pcm/Fragments.antt =====
-- The audio that a sequence of pipe reads gives, however the pipe cuts the byte stream.
use native.Mathlib.Nat.{add-mod}
use modern_sapi_adapter.Base.{
  ℕ, ◌+◌, ◌-◌, ◌%◌, ◌<◌, ◌≡◌, refl, sym, ap, ◌∙◌, List, [], ◌∷◌, ◌++◌, some, ok, arith, length,
  take, drop, concat, length-append, append_assoc, append-nil, Result, ◌>>=◌, take_all, ◌≡⟨◌⟩◌, ◌∎,
}
use modern_sapi_adapter.Pcm.Assembler.{PcmFrameAssembler, PcmFrameBatch, process}
use modern_sapi_adapter.Pcm.Frames.{IsValid, AllAligned, process-Emits}

-- The reads of one request, each handed to `Process` whole; the second part is the audio emitted.
pub feed : PcmFrameAssembler → List (List ℕ) → Result (PcmFrameAssembler × List ℕ)
feed a [] = ok (a, [])
feed a (fragment ∷ rest) = do
  (a', batch) ← process a (some fragment) (length fragment)
  (b, audio) ← feed a' rest
  ok (b, concat batch ++ audio)

-- The longest prefix of a stream that is a whole number of frames, and what is left.
abbrev pub whole_frames : ℕ → List ℕ → List ℕ
whole_frames k xs = take (length xs - length xs % k) xs

abbrev pub partial_frame : ℕ → List ℕ → List ℕ
partial_frame k xs = drop (length xs - length xs % k) xs

take-append {ℓ} : {A : Type ℓ} (xs ys : List A) → take (length xs) (xs ++ ys) ≡ xs
take-append [] ys = refl
take-append (x ∷ xs) ys = ap (◌∷◌ x) (take-append xs ys)

drop-append {ℓ} : {A : Type ℓ} (xs ys : List A) → drop (length xs) (xs ++ ys) ≡ ys
drop-append [] ys = refl
drop-append (x ∷ xs) ys = drop-append xs ys

pub add-mod_zero : (k m n : ℕ) → 0 < k → m % k ≡ 0 → n % k ≡ 0 → (m + n) % k ≡ 0
add-mod_zero k m n h a b = rw (add-mod m n k, a, b) (grind arith)

prefix_length : (k m n : ℕ) → 0 < k → m % k ≡ 0 → n < k → m + n - (m + n) % k ≡ m
prefix_length k m n h a b = grind arith

pub concat-aligned :
    (k : ℕ) (batch : PcmFrameBatch) → 0 < k → AllAligned k batch → length (concat batch) % k ≡ 0
concat-aligned k [] h al = grind arith
concat-aligned k (s ∷ ss) h al =
    rw (length-append s (concat ss)) (add-mod_zero k _ _ h al.0 (concat-aligned k ss h al.1))

-- What a run owes: whole frames out, and every byte in the audio or in the carry.
record Streams (k : ℕ) (input : List ℕ) (a : PcmFrameAssembler) (audio : List ℕ) : Type 0 where
  valid : IsValid a
  alignment : a.block_align ≡ k
  whole : length audio % k ≡ 0
  conserved : audio ++ a.carry ≡ input

rejoin {ℓ} :
    {A : Type ℓ} (out audio left mid rest carry f : List A)
    → out ++ mid ≡ carry ++ f
    → audio ++ left ≡ mid ++ rest
    → (out ++ audio) ++ left ≡ carry ++ (f ++ rest)
rejoin out audio left mid rest carry f all next =
    (out ++ audio) ++ left
    ≡⟨ append_assoc out audio left ∙ ap (◌++◌ out) next ⟩ out ++ (mid ++ rest)
    ≡⟨ sym (append_assoc out mid rest) ∙ ap (λ xs. xs ++ rest) all ⟩ (carry ++ f) ++ rest
    ≡⟨ append_assoc carry f rest ⟩ carry ++ (f ++ rest) ∎

feed-Streams :
    (a : PcmFrameAssembler) (fragments : List (List ℕ))
    → IsValid a
    → (b : PcmFrameAssembler) × (audio : List ℕ) × (feed a fragments ≡ ok (b, audio))
      × Streams a.block_align (a.carry ++ concat fragments) b audio
unfolding feed
feed-Streams a [] v = (
  a,
  [],
  refl,
  record { valid = v; alignment = refl; whole = grind arith; conserved = sym (append-nil a.carry) },
)
feed-Streams a (f ∷ fs) v =
    let (r, e, s) = process-Emits a f (length f) v (omega arith) in
    let (b, audio, e', t) = feed-Streams r.0 fs s.valid in
    let all : concat r.1 ++ r.0.carry ≡ a.carry ++ f =
      s.conserved ∙ ap (◌++◌ a.carry) (take_all (length f) f (omega arith)) in
    (
      b,
      concat r.1 ++ audio,
      rw (e, e'),
      record {
        valid = t.valid;
        alignment = t.alignment ∙ s.alignment;
        whole = rw (length-append (concat r.1) audio) (
            add-mod_zero a.block_align _ _ v.positive
              (concat-aligned a.block_align r.1 v.positive s.whole) (rw s.alignment at t.whole));
        conserved =
            rejoin (concat r.1) audio b.carry r.0.carry (concat fs) a.carry f all t.conserved;
      },
    )

-- Whatever way a byte stream is cut into reads, an assembler without a carry accepts all of them,
-- emits the longest prefix of the stream that is a whole number of frames, and retains the rest,
-- which is shorter than a frame.
pub feed_stream :
    (a : PcmFrameAssembler) (fragments : List (List ℕ))
    → IsValid a
    → a.carry ≡ []
    → (b : PcmFrameAssembler) × (feed a fragments
        ≡ ok (b, whole_frames a.block_align (concat fragments)))
      × (b.carry ≡ partial_frame a.block_align (concat fragments))
      × (length b.carry < a.block_align)
feed_stream a fragments v e =
    let (b, audio, run, s) = feed-Streams a fragments v in
    let all : audio ++ b.carry ≡ concat fragments =
      s.conserved ∙ ap (λ xs. xs ++ concat fragments) e in
    let short : length b.carry < a.block_align = rw s.alignment at s.valid.partial in
    let cut : length (audio ++ b.carry) - length (audio ++ b.carry) % a.block_align ≡ length audio =
      rw (length-append audio b.carry)
        (prefix_length a.block_align (length audio) (length b.carry) v.positive s.whole short) in
    (
      b,
      run ∙ ap (λ xs. ok (b, xs)) (sym (rw (← all, cut) (take-append audio b.carry))),
      sym (rw (← all, cut) (drop-append audio b.carry)),
      short,
    )
