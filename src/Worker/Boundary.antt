-- ===== src/Worker/Boundary.antt =====
-- `CheckTerminalBoundaryLocked`, case by case.
use modern_sapi_adapter.Base.{
  ◌≤◌, ◌<◌, ◌≡◌, ◌≢◌, ◌⊎◌, inl, inr, Bool, true, false, not, ◌&&◌, ◌||◌, ltb, leb, ◌==◌, nat_eq,
  Bool-cases, arith,
}
use modern_sapi_adapter.Request.{UpstreamState, DownstreamState, upstream_eq, downstream_eq}
use modern_sapi_adapter.Pcm.Assembler.{has_carry}
use modern_sapi_adapter.Pcm.Delivery.{evaluate_terminal_boundary_facts}
use modern_sapi_adapter.StatePolicy.{evaluate_terminal_boundary}
use modern_sapi_adapter.Worker.State.{SpeechWorker, reset_to_idle, check_terminal_boundary}

-- Every declared byte was read and accepted, and no partial frame is left.
pub record IsDelivered (w : SpeechWorker) : Type 0 where
  pub finished : w.context.upstream_finished ≡ true
  pub speaking : w.context.downstream_state ≡ DownstreamState.speaking
  pub read : w.context.raw_audio_bytes_read ≡ w.context.upstream_terminal_bytes
  pub accepted : w.context.delivered_audio_bytes ≡ w.context.upstream_terminal_bytes
  pub no_carry : has_carry w.frame_assembler ≡ false

-- Every declared byte of a cancelled request was read.
pub record IsDrained (w : SpeechWorker) : Type 0 where
  pub finished : w.context.upstream_finished ≡ true
  pub cancelling : w.context.downstream_state ≡ DownstreamState.cancelling
  pub read : w.context.upstream_terminal_bytes ≤ w.context.raw_audio_bytes_read

pub record IsOverrun (w : SpeechWorker) : Type 0 where
  pub finished : w.context.upstream_finished ≡ true
  pub speaking : w.context.downstream_state ≡ DownstreamState.speaking
  pub past :
      (w.context.upstream_terminal_bytes < w.context.raw_audio_bytes_read)
      ⊎ (w.context.upstream_terminal_bytes < w.context.delivered_audio_bytes)

-- Why a check resets the request.
pub data Resets (w : SpeechWorker) : Type 0 where
  by_failure : w.context.upstream_state ≡ UpstreamState.failed → Resets w
  by_delivery : w.context.upstream_state ≢ UpstreamState.failed → IsDelivered w → Resets w
  by_drain : w.context.upstream_state ≢ UpstreamState.failed → IsDrained w → Resets w

-- None of the boundaries is reached or passed.
pub record IsOpen (w : SpeechWorker) : Type 0 where
  pub undelivered : ¬ IsDelivered w
  pub undrained : ¬ IsDrained w
  pub inside : ¬ IsOverrun w

-- The three outcomes of a check, with their conditions.
pub data Checked (w : SpeechWorker) (r : SpeechWorker × Bool) : Type 0 where
  goes_on :
      w.context.upstream_state ≢ UpstreamState.failed → IsOpen w → r ≡ (w, false) → Checked w r
  overruns :
      w.context.upstream_state ≢ UpstreamState.failed → IsOverrun w → r ≡ (w, true) → Checked w r
  resets : Resets w → r ≡ (reset_to_idle w, false) → Checked w r

abbrev overrun_test : SpeechWorker → Bool
overrun_test w =
    w.context.downstream_state == DownstreamState.speaking
    && (ltb w.context.upstream_terminal_bytes w.context.raw_audio_bytes_read
        || ltb w.context.upstream_terminal_bytes w.context.delivered_audio_bytes)

abbrev delivered_test : SpeechWorker → Bool
delivered_test w =
    w.context.downstream_state == DownstreamState.speaking
    && (w.context.raw_audio_bytes_read == w.context.upstream_terminal_bytes
        && w.context.delivered_audio_bytes == w.context.upstream_terminal_bytes
        && not (has_carry w.frame_assembler))

abbrev drained_test : SpeechWorker → Bool
drained_test w =
    w.context.downstream_state == DownstreamState.cancelling
    && leb w.context.upstream_terminal_bytes w.context.raw_audio_bytes_read

overrun_test-IsOverrun :
    (w : SpeechWorker) → w.context.upstream_finished ≡ true → overrun_test w ≡ true → IsOverrun w
overrun_test-IsOverrun w f t = record { finished = f; speaking = ground arith; past = ground arith }

delivered_test-IsDelivered :
    (w : SpeechWorker)
    → w.context.upstream_finished ≡ true
    → delivered_test w ≡ true
    → IsDelivered w
delivered_test-IsDelivered w f t = record {
  finished = f;
  speaking = ground arith;
  read = ground arith;
  accepted = ground arith;
  no_carry = ground arith;
}

drained_test-IsDrained :
    (w : SpeechWorker) → w.context.upstream_finished ≡ true → drained_test w ≡ true → IsDrained w
drained_test-IsDrained w f t = record {
  finished = f;
  cancelling = ground arith;
  read = ground arith;
}

tests-IsOpen :
    (w : SpeechWorker)
    → overrun_test w ≡ false
    → delivered_test w ≡ false
    → drained_test w ≡ false
    → IsOpen w
tests-IsOpen w o d c = record {
  undelivered = λ h. ground (arith, h.speaking, h.read, h.accepted, h.no_carry);
  undrained = λ h. ground (arith, h.cancelling, h.read);
  inside = λ h. ground (arith, h.speaking, h.past);
}

unfinished-IsOpen : (w : SpeechWorker) → w.context.upstream_finished ≡ false → IsOpen w
unfinished-IsOpen w f = record {
  undelivered = λ h. cc (h.finished, f);
  undrained = λ h. cc (h.finished, f);
  inside = λ h. cc (h.finished, f);
}

-- The tests that a check makes, in its order, when the utterance has not failed.
check_finished :
    (w : SpeechWorker)
    → w.context.upstream_state ≢ UpstreamState.failed
    → w.context.upstream_finished ≡ true
    → Checked w (check_terminal_boundary w)
unfolding check_terminal_boundary evaluate_terminal_boundary evaluate_terminal_boundary_facts
check_finished w n f = elim (Bool-cases (overrun_test w)) [
  | inl t ↦ overruns n (overrun_test-IsOverrun w f t) (ground arith)
  | inr o ↦ elim (Bool-cases (delivered_test w)) [
    | inl t ↦ resets (by_delivery n (delivered_test-IsDelivered w f t)) (ground arith)
    | inr d ↦ elim (Bool-cases (drained_test w)) [
      | inl t ↦ resets (by_drain n (drained_test-IsDrained w f t)) (ground arith)
      | inr c ↦ goes_on n (tests-IsOpen w o d c) (ground arith)
    ]
  ]
]

-- A check of the terminal boundary has one of three outcomes: it resets the request, and reports no
-- failure, because the utterance failed, or because every declared byte was read and accepted with
-- no partial frame left, or because the declared bytes of a cancelled request were read; it reports
-- a failure and changes nothing on an overrun of an utterance that has not failed; or it changes
-- nothing and reports none, where the utterance has not failed and none of these holds.
pub check-Checked : (w : SpeechWorker) → Checked w (check_terminal_boundary w)
unfolding check_terminal_boundary evaluate_terminal_boundary
check-Checked w = elim (Bool-cases (w.context.upstream_state == UpstreamState.failed)) [
  | inl t ↦ resets (by_failure (ground arith)) (ground arith)
  | inr n ↦ elim (Bool-cases w.context.upstream_finished) [
    | inl f ↦ check_finished w (ground arith) f
    | inr f ↦ goes_on (ground arith) (unfinished-IsOpen w f) (ground arith)
  ]
]
