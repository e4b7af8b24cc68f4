-- ===== src/AudioFormat/Parsed.antt =====
-- Which formats the parser gives, and that it inverts `WaveFormatExToJson`.
use Prim.Native.String.{String}
use modern_sapi_adapter.Base.{
  ℕ, ◌*◌, ◌/◌, ◌^◌, ◌≤◌, ◌<◌, ◌≡◌, Bool, false, ◌||◌, none, some, List, [], ◌∷◌, ◌==◌, ◌!=◌, nat_eq,
  ltb, if◌then◌else◌, to_u16, to_u32, mul32, mul64, max_u16, max_u32, max_u64, arith, refl, inl,
  inr, Option-cases, Bool-cases, sym, ◌∙◌, ap, subst,
}
use native.Mathlib.Nat.{le-mul_of_pos_right, mul-le-mul, le-div_iff_mul-le}
use modern_sapi_adapter.Json.{Json}
use modern_sapi_adapter.Json.Laws.{IsLawful, unsigned_found, lookup}
use modern_sapi_adapter.AudioFormat.{
  WaveFormat, wave_format_pcm, pcm_format, positive_integer, try_parse_audio_format,
  wave_format_to_json,
}

-- A PCM format of whole-byte frames, whose numbers fit their types and agree.
pub record IsPcm (f : WaveFormat) : Type 0 where
  pub tag : f.format_tag ≡ wave_format_pcm
  pub size : f.cb_size ≡ 0
  pub channels_pos : 0 < f.channels
  pub channels_le : f.channels ≤ max_u16
  pub bits_pos : 0 < f.bits_per_sample
  pub bits_le : f.bits_per_sample ≤ max_u16
  pub rate_pos : 0 < f.samples_per_sec
  pub align_pos : 0 < f.block_align
  pub align_le : f.block_align ≤ max_u16
  pub whole_bytes : f.block_align * 8 ≡ f.channels * f.bits_per_sample
  pub rate : f.avg_bytes_per_sec ≡ f.samples_per_sec * f.block_align
  pub rate_le : f.avg_bytes_per_sec ≤ max_u32

-- What the parser is given for each of the three numbers.
abbrev InRange : ℕ → ℕ → Type 0
InRange n maximum = (0 < n) × (n ≤ maximum)

mul16_lt : (a b : ℕ) → a ≤ max_u16 → b ≤ max_u16 → a * b < 2 ^ 64
mul16_lt a b h k = let p : a * b ≤ max_u16 * max_u16 = mul-le-mul h k in omega arith

abbrev format_of : ℕ → ℕ → ℕ → ℕ → WaveFormat
format_of rate bits ch align = record {
  format_tag = wave_format_pcm;
  channels = ch;
  samples_per_sec = rate;
  avg_bytes_per_sec = rate * align;
  block_align = align;
  bits_per_sample = bits;
  cb_size = 0;
}

-- What the guards leave.
record Guarded (rate bits ch align : ℕ) : Type 0 where
  positive : 0 < align
  narrow : align ≤ max_u16
  whole : align * 8 ≡ ch * bits
  bounded : rate * align ≤ max_u32

-- The guards in one test.
abbrev refused : ℕ → ℕ → ℕ → Bool
refused rate product align =
    align == 0 || ltb max_u16 align || product != mul64 align 8 || ltb (max_u32 / align) rate

accepted-Guarded :
    (rate bits ch product align : ℕ)
    → ch * bits ≡ product
    → refused rate product align ≡ false
    → Guarded rate bits ch align
accepted-Guarded rate bits ch product align e h =
    let positive : 0 < align = ground arith in
    let narrow : align ≤ max_u16 = ground arith in
    let product_eq : product ≡ mul64 align 8 = ground arith in
    let quotient : rate ≤ max_u32 / align = ground arith in
    record {
      positive = positive;
      narrow = narrow;
      whole = omega arith;
      bounded = (le-div_iff_mul-le positive).0 quotient;
    }

Guarded-accepted :
    (rate bits ch product align : ℕ)
    → ch * bits ≡ product
    → Guarded rate bits ch align
    → refused rate product align ≡ false
Guarded-accepted rate bits ch product align e g =
    let quotient : rate ≤ max_u32 / align = (le-div_iff_mul-le g.positive).1 g.bounded in
    ground arith

module _ (rate bits ch : ℕ) (r : InRange rate max_u32) (b : InRange bits max_u16)
    (c : InRange ch max_u16) where
  -- The format is filled in exactly when no guard refuses it, and then no operation wraps.
  pcm_format_lem :
      (product align : ℕ)
      → ch * bits ≡ product
      → product / 8 ≡ align
      → pcm_format rate bits ch
        ≡ (if refused rate product align then none else some (format_of rate bits ch align))
  unfolding pcm_format
  pcm_format_lem product align e d =
      let small = mul16_lt ch bits c.1 b.1 in
      let exact : mul64 ch bits ≡ product = omega arith in
      elim (Bool-cases (refused rate product align)) [
        | inl bad ↦ rw (pcm_format, exact, d, bad)
        | inr good ↦
            let g = accepted-Guarded rate bits ch product align e good in
            let ch16 : to_u16 ch ≡ ch = omega arith in
            let bits16 : to_u16 bits ≡ bits = omega arith in
            let rate32 : to_u32 rate ≡ rate = omega arith in
            let align16 : to_u16 align ≡ align = omega (arith, g.narrow) in
            let avg : mul32 rate align ≡ rate * align = omega (arith, g.bounded) in
            rw (pcm_format, exact, d, good, rate32, align16, ch16, bits16, avg)
      ]

format_of-IsPcm :
    (rate bits ch align : ℕ)
    → InRange rate max_u32
    → InRange bits max_u16
    → InRange ch max_u16
    → Guarded rate bits ch align
    → IsPcm (format_of rate bits ch align)
format_of-IsPcm rate bits ch align r b c g = omega arith

pcm_format-IsPcm :
    (rate bits ch : ℕ) (f : WaveFormat)
    → InRange rate max_u32
    → InRange bits max_u16
    → InRange ch max_u16
    → pcm_format rate bits ch ≡ some f
    → IsPcm f
pcm_format-IsPcm rate bits ch f r b c e =
    let product = ch * bits in
    let align = product / 8 in
    let lem = pcm_format_lem rate bits ch r b c product align refl refl in
    elim (Bool-cases (refused rate product align)) [
      | inl bad ↦ let lost : pcm_format rate bits ch ≡ none = rw bad at lem in cc
      | inr good ↦
          let made : pcm_format rate bits ch ≡ some (format_of rate bits ch align) =
            rw good at lem in
          let same : format_of rate bits ch align ≡ f = cc in
          subst IsPcm same (
            format_of-IsPcm rate bits ch align r b c
              (accepted-Guarded rate bits ch product align refl good))
    ]

positive_integer-InRange :
    (j : Json) (v : j.Value) (name : String) (maximum n : ℕ)
    → positive_integer j v name maximum ≡ some n
    → InRange n maximum
unfolding positive_integer
positive_integer-InRange j v name maximum n e = ground arith

-- A format that is parsed is PCM, its numbers are positive and fit their types, its frame holds
-- whole bytes, and its byte rate is the product of sample rate and frame size, which does not wrap.
pub try_parse-IsPcm :
    (j : Json) (v : j.Value) (f : WaveFormat) → try_parse_audio_format j v ≡ some f → IsPcm f
unfolding try_parse_audio_format
try_parse-IsPcm j v f e = elim (Option-cases (positive_integer j v "sample_rate" max_u32)) [
  | inl lost ↦ ground arith
  | inr (rate, er) ↦ elim (Option-cases (positive_integer j v "bits_per_sample" max_u16)) [
    | inl lost ↦ ground arith
    | inr (bits, eb) ↦ elim (Option-cases (positive_integer j v "channels" max_u16)) [
      | inl lost ↦ ground arith
      | inr (ch, ec) ↦
          pcm_format-IsPcm rate bits ch f
            (positive_integer-InRange j v "sample_rate" max_u32 rate er)
            (positive_integer-InRange j v "bits_per_sample" max_u16 bits eb)
            (positive_integer-InRange j v "channels" max_u16 ch ec) (ground arith)
    ]
  ]
]

module _ (f : WaveFormat) (p : IsPcm f) where
  pub rate_fits : f.samples_per_sec ≤ max_u32
  rate_fits = omega (arith, p.rate, p.rate_le, le-mul_of_pos_right f.samples_per_sec p.align_pos)

  made_of_IsPcm :
      pcm_format f.samples_per_sec f.bits_per_sample f.channels
      ≡ some (format_of f.samples_per_sec f.bits_per_sample f.channels f.block_align)
  made_of_IsPcm =
      let product = f.block_align * 8 in
      let whole : f.channels * f.bits_per_sample ≡ product = sym p.whole_bytes in
      let accepted =
        Guarded-accepted f.samples_per_sec f.bits_per_sample f.channels product f.block_align whole
          (record {
            positive = p.align_pos;
            narrow = p.align_le;
            whole = p.whole_bytes;
            bounded = omega (arith, p.rate, p.rate_le);
          }) in
      let made =
        pcm_format_lem f.samples_per_sec f.bits_per_sample f.channels (p.rate_pos, rate_fits)
          (p.bits_pos, p.bits_le) (p.channels_pos, p.channels_le) product f.block_align whole
          (omega arith) in
      rw accepted at made

  format_of_IsPcm : format_of f.samples_per_sec f.bits_per_sample f.channels f.block_align ≡ f
  format_of_IsPcm = ground (arith, p.tag, p.size, p.rate)

positive_found :
    (j : Json) (fields : List (String × j.Value)) (name : String) (maximum n : ℕ)
    → IsLawful j
    → maximum ≤ max_u64
    → InRange n maximum
    → lookup name fields ≡ some (j.of_unsigned n)
    → positive_integer j (j.of_object fields) name maximum ≡ some n
unfolding positive_integer
positive_found j fields name maximum n laws w h e =
    let found = unsigned_found j fields name max_u64 n laws (omega arith) (omega arith) e in
    ground (arith, found)

abbrev wave_fields : (j : Json) → WaveFormat → List (String × j.Value)
wave_fields j f =
    ("type", j.of_string "raw")
    ∷ ("container", j.of_string "raw")
    ∷ ("encoding", j.of_string "pcm")
    ∷ ("sample_rate", j.of_unsigned f.samples_per_sec)
    ∷ ("bits_per_sample", j.of_unsigned f.bits_per_sample)
    ∷ ("channels", j.of_unsigned f.channels)
    ∷ []

-- The parser inverts `WaveFormatExToJson` on those formats.
pub try_parse-wave_format_to_json :
    (j : Json) (f : WaveFormat)
    → IsLawful j
    → IsPcm f
    → try_parse_audio_format j (wave_format_to_json j f) ≡ some f
unfolding try_parse_audio_format wave_format_to_json
try_parse-wave_format_to_json j f laws p =
    let fields = wave_fields j f in
    let rate =
      positive_found j fields "sample_rate" max_u32 f.samples_per_sec laws (omega arith)
        (p.rate_pos, rate_fits f p) refl in
    let bits =
      positive_found j fields "bits_per_sample" max_u16 f.bits_per_sample laws (omega arith)
        (p.bits_pos, p.bits_le) refl in
    let ch =
      positive_found j fields "channels" max_u16 f.channels laws (omega arith)
        (p.channels_pos, p.channels_le) refl in
    rw (try_parse_audio_format, wave_format_to_json, laws.object_of fields, rate, bits, ch)
      (made_of_IsPcm f p ∙ ap (λ (g : WaveFormat). some g) (format_of_IsPcm f p))
