-- ===== src/ControlStream/Room.antt =====
-- `Append`, `Compact` and `CompactControlBuffer` keep the bytes that are not given out.
use modern_sapi_adapter.Base.{
  ℕ, zero, suc, ◌+◌, ◌-◌, ◌^◌, ◌≤◌, ◌<◌, ◌≡◌, refl, sym, ap, List, [], ◌∷◌, ◌++◌, ◌==◌, nat_eq, ltb,
  length, take, drop, arith, Bool-cases, inl, inr, length-append, length-drop, drop_all, ◌⊎◌, ◌||◌,
}
use modern_sapi_adapter.ControlStream.Buffer.{
  ControlStreamBuffer, append, compact, empty_buffer, compact_control_buffer,
}
use modern_sapi_adapter.ControlStream.Lines.{pending, IsValid, nothing}

drop-append : (n : ℕ) (xs ys : List ℕ) → n ≤ length xs → drop n (xs ++ ys) ≡ drop n xs ++ ys
drop-append zero xs ys h = refl
drop-append (suc n) [] ys h = absurd (omega arith)
drop-append (suc n) (x ∷ xs) ys h = drop-append n xs ys (omega arith)

take-append : (n : ℕ) (xs ys : List ℕ) → n ≤ length xs → take n (xs ++ ys) ≡ take n xs
take-append zero xs ys h = refl
take-append (suc n) [] ys h = absurd (omega arith)
take-append (suc n) (x ∷ xs) ys h = ap (◌∷◌ x) (take-append n xs ys (omega arith))

-- Appending to a valid buffer adds the bytes after those that are not given out.
pub append-pending :
    (b : ControlStreamBuffer) (bytes : List ℕ)
    → IsValid b
    → length b.buffer + length bytes < 2 ^ 64
    → (pending (append b bytes) ≡ pending b ++ bytes) × IsValid (append b bytes)
unfolding append
append-pending b bytes v h =
    let n = b.search_offset - b.read_offset in
    let moved = drop-append b.read_offset b.buffer bytes (omega (arith, v.order, v.inside)) in
    (
      moved,
      record {
        order = v.order;
        inside = omega (arith, v.inside, length-append b.buffer bytes);
        word = omega (arith, length-append b.buffer bytes);
        searched =
            rw
              (
                moved,
                take-append n (pending b) bytes
                    (omega (arith, v.order, v.inside, length-drop b.read_offset b.buffer)),
              )
              v.searched;
      },
    )

-- A buffer of unread bytes alone.
abbrev fresh : List ℕ → ControlStreamBuffer
fresh bytes = record { buffer = bytes; read_offset = 0; search_offset = 0 }

compact-cases :
    (b : ControlStreamBuffer)
    → IsValid b
    → (compact b ≡ fresh (pending b)) ⊎ ((compact b ≡ b) × (b.read_offset ≡ 0))
unfolding compact empty_buffer
compact-cases b v = elim (Bool-cases (b.read_offset == length b.buffer)) [
  | inl t ↦ let nil = drop_all b.read_offset b.buffer (ground arith) in inl (rw (t, nil) refl)
  | inr f ↦ elim (Bool-cases (ltb 0 b.read_offset)) [
    | inl t ↦ inl (rw (f, t) refl)
    | inr z ↦ inr (rw (f, z) refl, ground arith)
  ]
]

fresh-IsValid : (b : ControlStreamBuffer) → IsValid b → IsValid (fresh (pending b))
fresh-IsValid b v = record {
  order = omega arith;
  inside = omega arith;
  word = omega (arith, v.word, length-drop b.read_offset b.buffer);
  searched = nothing 0 (pending b);
}

compact_lem :
    (b : ControlStreamBuffer)
    → IsValid b
    → (pending (compact b) ≡ pending b) × IsValid (compact b) × ((compact b).buffer ≡ pending b)
compact_lem b v = elim (compact-cases b v) [
  | inl e ↦ rw e (refl, fresh-IsValid b v, refl)
  | inr (e, z) ↦ rw e (refl, v, ap (λ (k : ℕ). drop k b.buffer) (sym z))
]

-- `Compact` and `CompactControlBuffer` keep the bytes that are not given out, and a valid buffer
-- valid; the buffer that `Compact` leaves holds nothing else.
pub compact-pending :
    (b : ControlStreamBuffer)
    → IsValid b
    → (pending (compact b) ≡ pending b)
      × IsValid (compact b)
      × ((compact b).buffer ≡ pending b)
      × (pending (compact_control_buffer b) ≡ pending b)
      × IsValid (compact_control_buffer b)
unfolding compact_control_buffer
compact-pending b v =
    let (p, w, s) = compact_lem b v in
    elim (Bool-cases (b.read_offset == length b.buffer || ltb 4095 b.read_offset)) [
      | inl t ↦ (p, w, s, rw t p, rw t w)
      | inr f ↦ (p, w, s, rw f refl, rw f v)
    ]
