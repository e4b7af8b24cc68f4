-- ===== src/Request.antt =====
-- CoreEngine/SpeechWorkerTypes.h: the state of one speech request.
use modern_sapi_adapter.Base.{ℕ, ◌≡◌, ◌↔◌, Bool, true, false, ◌&&◌, arith, Eq, ◌==◌, ◌!=◌, nat_eq}
use modern_sapi_adapter.Windows.{s_ok}

pub data UpstreamState : Type 0 where
  idle active completed cancelled failed faulted : UpstreamState

pub data DownstreamState : Type 0 where
  idle speaking cancelling faulted : DownstreamState

abbrev pub upstream_beq : UpstreamState → UpstreamState → Bool
upstream_beq UpstreamState.idle UpstreamState.idle = true
upstream_beq UpstreamState.active UpstreamState.active = true
upstream_beq UpstreamState.completed UpstreamState.completed = true
upstream_beq UpstreamState.cancelled UpstreamState.cancelled = true
upstream_beq UpstreamState.failed UpstreamState.failed = true
upstream_beq UpstreamState.faulted UpstreamState.faulted = true
upstream_beq _ _ = false

abbrev pub downstream_beq : DownstreamState → DownstreamState → Bool
downstream_beq DownstreamState.idle DownstreamState.idle = true
downstream_beq DownstreamState.speaking DownstreamState.speaking = true
downstream_beq DownstreamState.cancelling DownstreamState.cancelling = true
downstream_beq DownstreamState.faulted DownstreamState.faulted = true
downstream_beq _ _ = false

pub upstream_beq_iff : (a b : UpstreamState) → (upstream_beq a b ≡ true) ↔ (a ≡ b)
upstream_beq_iff a b = ground arith

pub downstream_beq_iff : (a b : DownstreamState) → (downstream_beq a b ≡ true) ↔ (a ≡ b)
downstream_beq_iff a b = ground arith

instance abbrev pub upstream_eq : Eq UpstreamState
upstream_eq = record { beq = upstream_beq; beq_iff = upstream_beq_iff }

instance abbrev pub downstream_eq : Eq DownstreamState
downstream_eq = record { beq = downstream_beq; beq_iff = downstream_beq_iff }

pub record RequestToken : Type 0 where
  pub speak_id : ℕ
  pub generation : ℕ

unfoldable pub token_valid : RequestToken → Bool
token_valid t = t.speak_id != 0 && t.generation != 0

abbrev pub matches : RequestToken → RequestToken → Bool
matches t other = t.speak_id == other.speak_id && t.generation == other.generation

pub record RequestContext : Type 0 where
  pub token : RequestToken
  pub upstream_state : UpstreamState
  pub downstream_state : DownstreamState
  pub raw_audio_bytes_read : ℕ
  pub delivered_audio_bytes : ℕ
  pub upstream_terminal_bytes : ℕ
  pub upstream_finished : Bool
  pub fault_pending : Bool
  pub cancellation_deadline_tick : ℕ
  pub completion_hr : ℕ

-- A context as its member initialisers leave it.
unfoldable pub new_context : RequestContext
new_context = record {
  token = record { speak_id = 0; generation = 0 };
  upstream_state = UpstreamState.idle;
  downstream_state = DownstreamState.idle;
  raw_audio_bytes_read = 0;
  delivered_audio_bytes = 0;
  upstream_terminal_bytes = 0;
  upstream_finished = false;
  fault_pending = false;
  cancellation_deadline_tick = 0;
  completion_hr = s_ok;
}

-- `RequestContext::Reset`: all but the generation of the token.
unfoldable pub reset : RequestContext → RequestContext
reset c = record {
  token = record { speak_id = 0; generation = c.token.generation };
  upstream_state = UpstreamState.idle;
  downstream_state = DownstreamState.idle;
  raw_audio_bytes_read = 0;
  delivered_audio_bytes = 0;
  upstream_terminal_bytes = 0;
  upstream_finished = false;
  fault_pending = false;
  cancellation_deadline_tick = 0;
  completion_hr = s_ok;
}

unfoldable pub transition_to_cancelling : RequestContext → ℕ → RequestContext
transition_to_cancelling c deadline = record c {
  upstream_finished = false;
  upstream_terminal_bytes = 0;
  cancellation_deadline_tick = deadline;
  downstream_state = DownstreamState.cancelling;
}

unfoldable pub is_awaiting_terminal_audio : RequestContext → Bool
is_awaiting_terminal_audio c = c.upstream_finished && c.downstream_state == DownstreamState.speaking

unfoldable pub is_actively_synthesizing : RequestContext → Bool
is_actively_synthesizing c = c.upstream_state == UpstreamState.active

unfoldable pub is_draining_cancellation : RequestContext → Bool
is_draining_cancellation c = c.downstream_state == DownstreamState.cancelling
