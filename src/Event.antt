-- ===== src/Event.antt =====
-- CoreEngine/SpeechEventTypes.h: a control event of the provider. A `string_view` is the text that
-- it views.
use Prim.Native.String.{String}
use text.Mathlib.Text.{◌==◌ as str_beq}
use text.Mathlib.TextEquality.{eq_iff}
use modern_sapi_adapter.Base.{
  ℕ, ◌≡◌, ◌↔◌, Bool, false, ◌||◌, arith, Eq, ◌==◌, nat_beq, nat_beq_iff, ap, true,
}

pub data ProviderEventType : Type 0 where
  word_boundary sentence_boundary bookmark synthesis_complete synthesis_cancelled :
      ProviderEventType
  log legacy_completed unknown : ProviderEventType

-- The enumerators' values.
abbrev pub event_code : ProviderEventType → ℕ
event_code word_boundary = 0
event_code sentence_boundary = 1
event_code bookmark = 2
event_code synthesis_complete = 3
event_code synthesis_cancelled = 4
event_code log = 5
event_code legacy_completed = 6
event_code unknown = 7

pub event_code-injective : (a b : ProviderEventType) → event_code a ≡ event_code b → a ≡ b
event_code-injective a b h = ground arith

pub event_code_iff :
    (a b : ProviderEventType) → (nat_beq (event_code a) (event_code b) ≡ true) ↔ (a ≡ b)
event_code_iff a b = (
  λ h. event_code-injective a b ((nat_beq_iff _ _).0 h),
  λ e. (nat_beq_iff _ _).1 (ap event_code e),
)

instance abbrev pub event_type_eq : Eq ProviderEventType
event_type_eq = record {
  beq = λ a b. nat_beq (event_code a) (event_code b);
  beq_iff = event_code_iff;
}

instance abbrev pub string_eq : Eq String
string_eq = record { beq = str_beq; beq_iff = eq_iff }

pub record SpeechEventOffsets : Type 0 where
  pub audio_offset_ms : ℕ
  pub text_offset : ℕ
  pub text_length : ℕ

pub record ProviderControlEvent : Type 0 where
  pub type : ProviderEventType
  pub speak_id : ℕ
  pub speech_offsets : SpeechEventOffsets
  pub terminal_audio_bytes : ℕ
  pub has_valid_speech_offsets : Bool
  pub has_valid_terminal_bytes : Bool
  pub raw_event_name : String
  pub log_severity : String
  pub log_message : String
  pub bookmark_name : String
  pub log_friendly_text : String

abbrev pub no_offsets : SpeechEventOffsets
no_offsets = record { audio_offset_ms = 0; text_offset = 0; text_length = 0 }

-- An event as its member initialisers leave it.
unfoldable pub new_event : ProviderControlEvent
new_event = record {
  type = unknown;
  speak_id = 0;
  speech_offsets = no_offsets;
  terminal_audio_bytes = 0;
  has_valid_speech_offsets = false;
  has_valid_terminal_bytes = false;
  raw_event_name = "";
  log_severity = "";
  log_message = "";
  bookmark_name = "";
  log_friendly_text = "";
}

unfoldable pub is_speech_boundary : ProviderEventType → Bool
is_speech_boundary t = t == word_boundary || t == sentence_boundary || t == bookmark

unfoldable pub is_terminal : ProviderEventType → Bool
is_terminal t = t == synthesis_complete || t == synthesis_cancelled

unfoldable pub is_progress : ProviderEventType → Bool
unfolding is_speech_boundary is_terminal
is_progress t = is_speech_boundary t || is_terminal t
