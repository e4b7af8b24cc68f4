-- ===== src/Pipe.antt =====
-- The client of the provider's pipes: CoreEngine/PipeClient.h and .cpp. What the calls of Windows
-- answer enters as arguments.
pub mod Connect
pub mod Probing
pub mod Transfer
pub mod Sending
pub mod Reading
pub mod Examples
use modern_sapi_adapter.Base.{
  ℕ, suc, Bool, true, false, not, ◌&&◌, Option, none, some, List, [], ◌∷◌, ◌==◌, nat_eq,
  if◌then◌else◌,
}
use modern_sapi_adapter.Windows.{
  s_ok, hresult_from_win32, error_file_not_found, error_access_denied,
}
use modern_sapi_adapter.ControlStream.Buffer.{ControlStreamBuffer, empty_buffer}

-- A handle is there or not; `launches` counts the calls of `CreateProcessW`.
pub record PipeClient : Type 0 where
  pub control_pipe : Bool
  pub audio_pipe : Bool
  pub provider_process : Bool
  pub control_buffer : ControlStreamBuffer
  pub launches : ℕ

-- The constructor.
unfoldable pub new_client : PipeClient
unfolding empty_buffer
new_client = record {
  control_pipe = false;
  audio_pipe = false;
  provider_process = false;
  control_buffer = empty_buffer;
  launches = 0;
}

-- `LaunchProviderProcess`, by the error of `CreateProcessW`, `none` where it succeeds.
unfoldable pub launch_provider_process : PipeClient → Option ℕ → PipeClient × ℕ
launch_provider_process c none =
    (record c { provider_process = true; launches = suc c.launches }, s_ok)
launch_provider_process c (some error) =
    (record c { launches = suc c.launches }, hresult_from_win32 error)

-- The errors of the two `CreateFileW` and of `SetNamedPipeHandleState`, `none` for success.
pub record Opens : Type 0 where
  pub control : Option ℕ
  pub audio : Option ℕ
  pub mode : Option ℕ

-- `TryConnectPipes`: the client, the result, and `controlPipeOpened`.
unfoldable pub try_connect_pipes : PipeClient → Opens → PipeClient × ℕ × Bool
try_connect_pipes c o = elim o.control [
  | some error ↦ (c, hresult_from_win32 error, false)
  | none ↦ elim o.audio [
    | some error ↦ (c, hresult_from_win32 error, true)
    | none ↦ elim o.mode [
      | some error ↦ (c, hresult_from_win32 error, true)
      | none ↦ (record c { control_pipe = true; audio_pipe = true }, s_ok, true)
    ]
  ]
]

-- `ShouldSpawnProvider`.
unfoldable pub should_spawn_provider : ℕ → Bool → List ℕ → Bool
should_spawn_provider connect_error control_pipe_opened [] = false
should_spawn_provider connect_error control_pipe_opened (c ∷ cs) =
    not control_pipe_opened && connect_error == error_file_not_found
