-- ===== src/Pcm/Delivery.antt =====
-- CoreEngine/PcmDeliveryPolicy.h and .cpp: what a chunk, a span and a batch of audio do to a request.
use modern_sapi_adapter.Base.{
  ℕ, ◌%◌, Bool, true, false, not, ◌&&◌, ◌||◌, ltb, leb, ◌==◌, nat_eq, if◌then◌else◌, min, sub64,
  to_u32,
}
use modern_sapi_adapter.Request.{
  RequestContext, RequestToken, DownstreamState, downstream_eq, matches,
}

pub data ChunkAction : Type 0 where
  assemble_speaking_audio drain_cancellation_audio fault_unexpected_idle_audio : ChunkAction
  drain_faulted_session_audio : ChunkAction

pub record ChunkDecision : Type 0 where
  pub action : ChunkAction
  pub bytes_to_frame : ℕ
  pub refresh_progress : Bool
  pub count_raw_bytes : Bool

pub data SpanAdmission : Type 0 where
  allow reject : SpanAdmission

pub data BatchAction : Type 0 where
  ignore_stale_or_inactive credit_and_check_boundary credit_and_begin_cancellation : BatchAction
  check_cancellation_boundary : BatchAction

pub record BatchDecision : Type 0 where
  pub action : BatchAction
  pub accepted_bytes_to_credit : ℕ

pub record TerminalBoundaryFacts : Type 0 where
  pub speaking_audio_overrun : Bool
  pub speaking_terminal_reached : Bool
  pub cancellation_terminal_reached : Bool

-- How many of the bytes read go to the frame assembler while the request speaks.
unfoldable pub speaking_bytes_to_frame : RequestContext → ℕ → ℕ
speaking_bytes_to_frame c bytes_read =
    if c.upstream_finished
    then if leb c.upstream_terminal_bytes c.raw_audio_bytes_read
      then 0
      else to_u32 (min bytes_read (sub64 c.upstream_terminal_bytes c.raw_audio_bytes_read))
    else bytes_read

abbrev chunk_decision : ChunkAction → ℕ → Bool → Bool → ChunkDecision
chunk_decision action bytes refresh count = record {
  action = action;
  bytes_to_frame = bytes;
  refresh_progress = refresh;
  count_raw_bytes = count;
}

unfoldable pub evaluate_chunk_ingest : RequestContext → ℕ → ChunkDecision
unfolding speaking_bytes_to_frame
evaluate_chunk_ingest c bytes_read = elim c.downstream_state [
  | DownstreamState.speaking ↦
      chunk_decision assemble_speaking_audio (speaking_bytes_to_frame c bytes_read) true true
  | DownstreamState.cancelling ↦ chunk_decision drain_cancellation_audio 0 true true
  | DownstreamState.idle ↦ chunk_decision fault_unexpected_idle_audio 0 false false
  | DownstreamState.faulted ↦ chunk_decision drain_faulted_session_audio 0 false false
]

unfoldable pub evaluate_span_admission : RequestContext → RequestToken → SpanAdmission
evaluate_span_admission c batch_token =
    if matches c.token batch_token
      && c.downstream_state == DownstreamState.speaking
      && not c.fault_pending
    then allow
    else reject

abbrev batch_decision : BatchAction → ℕ → BatchDecision
batch_decision action bytes = record { action = action; accepted_bytes_to_credit = bytes }

unfoldable pub evaluate_batch_outcome : RequestContext → RequestToken → ℕ → Bool → BatchDecision
evaluate_batch_outcome c batch_token fully_accepted_bytes sapi_write_rejected =
    if not (matches c.token batch_token)
    then batch_decision ignore_stale_or_inactive 0
    else elim c.downstream_state [
      | DownstreamState.speaking ↦
          if sapi_write_rejected
          then batch_decision credit_and_begin_cancellation fully_accepted_bytes
          else batch_decision credit_and_check_boundary fully_accepted_bytes
      | DownstreamState.cancelling ↦ batch_decision check_cancellation_boundary 0
      | DownstreamState.idle ↦ batch_decision ignore_stale_or_inactive 0
      | DownstreamState.faulted ↦ batch_decision ignore_stale_or_inactive 0
    ]

unfoldable pub evaluate_terminal_boundary_facts : RequestContext → Bool → TerminalBoundaryFacts
evaluate_terminal_boundary_facts c assembler_has_carry = record {
  speaking_audio_overrun =
      ltb c.upstream_terminal_bytes c.raw_audio_bytes_read
      || ltb c.upstream_terminal_bytes c.delivered_audio_bytes;
  speaking_terminal_reached =
      c.raw_audio_bytes_read == c.upstream_terminal_bytes
      && c.delivered_audio_bytes == c.upstream_terminal_bytes
      && not assembler_has_carry;
  cancellation_terminal_reached = leb c.upstream_terminal_bytes c.raw_audio_bytes_read;
}

unfoldable pub is_terminal_byte_count_frame_aligned : ℕ → ℕ → Bool
is_terminal_byte_count_frame_aligned bytes block_align =
    if block_align == 0 then false else bytes % block_align == 0
