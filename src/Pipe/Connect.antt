-- ===== src/Pipe/Connect.antt =====
-- `PipeClient::Connect`.
use modern_sapi_adapter.Base.{
  ℕ, zero, suc, Bool, true, not, ◌&&◌, Option, none, some, List, ◌==◌, nat_eq, if◌then◌else◌, leb,
  ltb, add64, sub64,
}
use modern_sapi_adapter.Windows.{
  s_ok, failed, hresult_from_win32, hresult_code, error_access_denied, error_process_aborted,
}
use modern_sapi_adapter.ControlStream.Buffer.{clear}
use modern_sapi_adapter.Pipe.{
  PipeClient, Opens, launch_provider_process, try_connect_pipes, should_spawn_provider,
}

-- How a probe ends: `Connect` returns, or goes on to the next one.
pub data Outcome : Type 0 where
  returns : PipeClient → ℕ → Outcome
  goes_on : PipeClient → ℕ → Outcome

-- A launch: `Connect` returns its failure.
unfoldable pub after_launch : PipeClient × ℕ → ℕ → Outcome
after_launch r hr = if failed r.1 then returns r.0 r.1 else goes_on r.0 hr

-- What follows `TryConnectPipes`; `may_launch` is the further condition of the loop.
unfoldable pub after_probe : Bool → List ℕ → PipeClient × ℕ × Bool → Option ℕ → Outcome
after_probe may_launch exe_path r launch_error =
    let (c, hr, opened) = r in
    if not (failed hr)
    then returns c s_ok
    else if hresult_code hr == error_access_denied
    then returns c hr
    else if may_launch && should_spawn_provider (hresult_code hr) opened exe_path
    then after_launch (launch_provider_process c launch_error) hr
    else goes_on c hr

-- What one turn of the loop meets: the tick of its condition, whether the launched process has
-- ended, the answers of the probe after the wait, and the error of a launch.
pub record Turn : Type 0 where
  pub tick : ℕ
  pub exited : Bool
  pub opens : Opens
  pub launch_error : Option ℕ

-- `pipeReadyTimeoutMs` and `pipeProbeIntervalMs`.
abbrev pub pipe_ready_timeout_ms : ℕ
pipe_ready_timeout_ms = 1000

abbrev pub pipe_probe_interval_ms : ℕ
pipe_probe_interval_ms = 10

-- The wait between two probes, by a second reading of the tick. It gives no value.
unfoldable pub wait_ms : ℕ → ℕ → ℕ
wait_ms deadline now =
    let remaining = sub64 deadline now in
    if ltb remaining pipe_probe_interval_ms then remaining else pipe_probe_interval_ms

-- The body of the loop.
unfoldable pub probe : List ℕ → PipeClient → Turn → Outcome
probe exe_path c t =
    if c.provider_process && t.exited
    then returns c (hresult_from_win32 error_process_aborted)
    else after_probe (not c.provider_process) exe_path (try_connect_pipes c t.opens) t.launch_error

unfoldable pub and_then :
    Outcome → (PipeClient → ℕ → Option (PipeClient × ℕ)) → Option (PipeClient × ℕ)
and_then (returns c hr) rest = some (c, hr)
and_then (goes_on c hr) rest = rest c hr

-- The loop from turn `k` on; `none` where the fuel runs out. `hr` is the last result.
unfoldable pub connect_loop :
    ℕ → List ℕ → ℕ → (ℕ → Turn) → ℕ → PipeClient → ℕ → Option (PipeClient × ℕ)
unfolding probe and_then
connect_loop zero exe_path deadline turns k c hr = none
connect_loop (suc fuel) exe_path deadline turns k c hr =
    let rest = connect_loop fuel exe_path deadline turns (suc k) in
    if leb deadline (turns k).tick then some (c, hr) else and_then (probe exe_path c (turns k)) rest

-- `Connect`, by the first probe, the error of the first launch, and the tick after it.
unfoldable pub connect :
    ℕ → List ℕ → PipeClient → Opens → Option ℕ → ℕ → (ℕ → Turn) → Option (PipeClient × ℕ)
unfolding connect_loop and_then
connect fuel exe_path c first launch_error start_tick turns =
    let cleared = record c { control_buffer = clear c.control_buffer } in
    let deadline = add64 start_tick pipe_ready_timeout_ms in
    and_then (after_probe true exe_path (try_connect_pipes cleared first) launch_error)
      (connect_loop fuel exe_path deadline turns 0)
