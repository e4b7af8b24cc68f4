-- ===== src/ControlStream/Lines.antt =====
-- What the control buffer promises: the lines of the byte stream, in order.
use mathlib.Core.Option
use modern_sapi_adapter.Base.{
  ℕ, zero, suc, ◌+◌, ◌-◌, ◌^◌, ◌≤◌, ◌<◌, ◌≡◌, refl, sym, ap, ◌∙◌, List, [], ◌∷◌, ◌++◌, Option, some,
  none, if◌then◌else◌, ◌==◌, nat_eq, length, take, drop, arith, Bool-cases, inl, inr,
  take-append-drop, length-drop, drop_all, Option-cases, length-take_le,
}
use modern_sapi_adapter.ControlStream.Buffer.{ControlStreamBuffer, find_newline}

-- The first line of a stream and what follows it, the specification.
unfoldable pub first_line : List ℕ → Option (List ℕ × List ℕ)
first_line [] = none
first_line (c ∷ cs) =
    let rest = Option.map (λ (r : List ℕ × List ℕ). (c ∷ r.0, r.1)) (first_line cs) in
    if c == 10 then some ([], cs) else rest

-- The bytes that are not given out yet.
abbrev pub pending : ControlStreamBuffer → List ℕ
pending b = drop b.read_offset b.buffer

-- The offsets are in order and within a buffer that a `size_t` measures, and the bytes that were
-- searched hold no line feed.
pub record IsValid (b : ControlStreamBuffer) : Type 0 where
  pub order : b.read_offset ≤ b.search_offset
  pub inside : b.search_offset ≤ length b.buffer
  pub word : length b.buffer < 2 ^ 64
  pub searched : find_newline (take (b.search_offset - b.read_offset) (pending b)) ≡ none

pub drop-drop : (m n : ℕ) (xs : List ℕ) → drop m (drop n xs) ≡ drop (n + m) xs
drop-drop m zero xs = ap (λ (k : ℕ). drop k xs) (omega arith)
drop-drop m (suc n) [] = drop_all m [] (omega arith) ∙ sym (drop_all (suc n + m) [] (omega arith))
drop-drop m (suc n) (x ∷ xs) =
    let same : suc (n + m) ≡ suc n + m = omega arith in
    drop-drop m n xs ∙ ap (λ (k : ℕ). drop k (x ∷ xs)) same

pub find_newline-lt : (xs : List ℕ) (k : ℕ) → find_newline xs ≡ some k → k < length xs
unfolding find_newline
find_newline-lt [] k e = ground arith
find_newline-lt (c ∷ cs) k e = elim (Option-cases (find_newline cs)) [
  | inl n ↦ ground arith
  | inr (j, n) ↦ let l = find_newline-lt cs j n in ground arith
]

-- The first line ends at the first line feed.
pub first_line-find :
    (xs : List ℕ)
    → first_line xs ≡ Option.map (λ (k : ℕ). (take k xs, drop (suc k) xs)) (find_newline xs)
unfolding first_line find_newline
first_line-find [] = refl
first_line-find (c ∷ cs) = elim (Bool-cases (c == 10)) [
  | inl t ↦ rw t refl
  | inr t ↦ elim (Option-cases (find_newline cs)) [
    | inl n ↦ rw (t, first_line-find cs, n) refl
    | inr (k, n) ↦ rw (t, first_line-find cs, n) refl
  ]
]

suc-map :
    (n : ℕ) (o : Option ℕ)
    → Option.map suc (Option.map (λ (k : ℕ). n + k) o) ≡ Option.map (λ (k : ℕ). suc n + k) o
suc-map n none = refl
suc-map n (some k) = ap some (omega arith)

find_newline-append :
    (xs ys : List ℕ)
    → find_newline xs ≡ none
    → find_newline (xs ++ ys) ≡ Option.map (λ (k : ℕ). length xs + k) (find_newline ys)
unfolding find_newline
find_newline-append [] ys e = elim (Option-cases (find_newline ys)) [
  | inl n ↦ rw n refl
  | inr (k, n) ↦ rw n (ap some (omega arith))
]
find_newline-append (c ∷ cs) ys e = elim (Bool-cases (c == 10)) [
  | inl t ↦ ground arith
  | inr t ↦ elim (Option-cases (find_newline cs)) [
    | inl n ↦ rw (t, find_newline-append cs ys n) (suc-map (length cs) (find_newline ys))
    | inr (k, n) ↦ ground arith
  ]
]

-- In a valid buffer the first line feed is where the search from `search_offset` finds it.
pub find-pending :
    (b : ControlStreamBuffer)
    → IsValid b
    → find_newline (pending b)
      ≡ Option.map
          (λ (k : ℕ). (b.search_offset - b.read_offset) + k)
          (find_newline (drop b.search_offset b.buffer))
find-pending b v =
    let n = b.search_offset - b.read_offset in
    let cut : drop n (pending b) ≡ drop b.search_offset b.buffer =
      drop-drop n b.read_offset b.buffer
      ∙ ap (λ (k : ℕ). drop k b.buffer) (omega (arith, v.order)) in
    let size : length (take n (pending b)) ≡ n =
      length-take_le n (pending b)
        (omega (arith, v.order, v.inside, length-drop b.read_offset b.buffer)) in
    ap find_newline (sym (take-append-drop n (pending b)))
    ∙ find_newline-append (take n (pending b)) (drop n (pending b)) v.searched
    ∙ rw (size, cut) refl

-- Nothing was searched yet.
pub nothing : (n : ℕ) (xs : List ℕ) → find_newline (take (n - n) xs) ≡ none
unfolding find_newline
nothing n xs = let z : n - n ≡ 0 = omega arith in rw z refl
