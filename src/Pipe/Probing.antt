-- ===== src/Pipe/Probing.antt =====
-- `Connect` returns, launches the provider once at most, and holds both pipes or none.
use modern_sapi_adapter.Base.{
  ℕ, zero, suc, ◌+◌, ◌≤◌, ◌<◌, ◌≡◌, ◌⊎◌, inl, inr, refl, sym, ap, subst, ◌∙◌, Bool, true, false,
  not, ◌&&◌, Option, none, some, List, ◌==◌, nat_eq, if◌then◌else◌, leb, add64, arith, Bool-cases,
  if_keeps, zero-add,
}
use modern_sapi_adapter.Windows.{
  s_ok, failed, hresult_from_win32, hresult_code, error_access_denied,
}
use modern_sapi_adapter.ControlStream.Buffer.{clear}
use modern_sapi_adapter.Pipe.{
  PipeClient, Opens, new_client, launch_provider_process, try_connect_pipes, should_spawn_provider,
}
use modern_sapi_adapter.Pipe.Connect.{
  Outcome, returns, goes_on, after_launch, after_probe, Turn, probe, and_then, connect_loop,
  connect, pipe_ready_timeout_ms,
}

-- The loop ends at the first tick at or past the deadline.
and_then-returns :
    (o : Outcome) (rest : PipeClient → ℕ → Option (PipeClient × ℕ))
    → ((c : PipeClient) (hr : ℕ) → (r : PipeClient × ℕ) × (rest c hr ≡ some r))
    → (r : PipeClient × ℕ) × (and_then o rest ≡ some r)
unfolding and_then
and_then-returns (returns c hr) rest h = ((c, hr), refl)
and_then-returns (goes_on c hr) rest h = h c hr

loop_returns :
    (fuel : ℕ) (exe_path : List ℕ) (deadline : ℕ) (turns : ℕ → Turn) (k : ℕ)
    → deadline ≤ (turns (k + fuel)).tick
    → (c : PipeClient) (hr : ℕ)
    → (r : PipeClient × ℕ) × (connect_loop (suc fuel) exe_path deadline turns k c hr ≡ some r)
unfolding connect_loop
loop_returns zero exe_path deadline turns k late c hr =
    let now : deadline ≤ (turns k).tick =
      subst (λ (n : ℕ). deadline ≤ (turns n).tick) (omega arith) late in
    let out : leb deadline (turns k).tick ≡ true = ground arith in ((c, hr), rw out)
loop_returns (suc fuel) exe_path deadline turns k late c hr =
    let later : deadline ≤ (turns (suc k + fuel)).tick =
      subst (λ (n : ℕ). deadline ≤ (turns n).tick) (omega arith) late in
    elim (Bool-cases (leb deadline (turns k).tick)) [
      | inl out ↦ ((c, hr), rw out)
      | inr more ↦
          let (r, e) =
            and_then-returns (probe exe_path c (turns k))
              (connect_loop (suc fuel) exe_path deadline turns (suc k))
              (loop_returns fuel exe_path deadline turns (suc k) later) in
          (r, rw more e)
    ]

-- A client between two probes.
record IsIdle (c : PipeClient) : Type 0 where
  no_control : c.control_pipe ≡ false
  no_audio : c.audio_pipe ≡ false
  unlaunched : c.provider_process ≡ false → c.launches ≡ 0
  once : c.launches ≤ 1

-- A client that `Connect` returned with a result: it holds both pipes exactly on success, and the
-- provider was launched once at most.
pub record IsSettled (c : PipeClient) (hr : ℕ) : Type 0 where
  pub once : c.launches ≤ 1
  pub pipes :
      ((hr ≡ s_ok) × (c.control_pipe ≡ true) × (c.audio_pipe ≡ true))
      ⊎ ((failed hr ≡ true) × (c.control_pipe ≡ false) × (c.audio_pipe ≡ false))

-- The code of a call that failed is not `ERROR_SUCCESS`.
abbrev pub IsError : Option ℕ → Type 0
IsError none = Unit {0}
IsError (some e) = 0 < e

pub record AreErrors (o : Opens) : Type 0 where
  pub control : IsError o.control
  pub audio : IsError o.audio
  pub mode : IsError o.mode

error_failed : (e : ℕ) → IsError (some e) → failed (hresult_from_win32 e) ≡ true
error_failed e h = ground arith

-- The next step is sound.
abbrev Sound : Outcome → Type 0
Sound (returns c hr) = IsSettled c hr
Sound (goes_on c hr) = IsIdle c × (failed hr ≡ true)

-- A probe either connects, or fails and leaves the client alone.
Probed : PipeClient → PipeClient × ℕ × Bool → Type 0
Probed c r =
    ((r.1 ≡ s_ok) × (r.0 ≡ record c { control_pipe = true; audio_pipe = true }))
    ⊎ ((failed r.1 ≡ true) × (r.0 ≡ c))

try_connect-Probed : (c : PipeClient) (o : Opens) → AreErrors o → Probed c (try_connect_pipes c o)
unfolding try_connect_pipes Probed
try_connect-Probed c o errors = go o.control o.audio o.mode errors.control errors.audio errors.mode
  where
    go :
        (x y z : Option ℕ)
        → IsError x
        → IsError y
        → IsError z
        → Probed c (try_connect_pipes c (record { control = x; audio = y; mode = z }))
    go (some e) y z p q r = inr (error_failed e p, refl)
    go none (some e) z p q r = inr (error_failed e q, refl)
    go none none (some e) p q r = inr (error_failed e r, refl)
    go none none none p q r = inl (refl, refl)

launch-Sound :
    (c : PipeClient) (launch_error : Option ℕ) (hr : ℕ)
    → IsIdle c
    → c.provider_process ≡ false
    → IsError launch_error
    → failed hr ≡ true
    → Sound (after_launch (launch_provider_process c launch_error) hr)
unfolding after_launch launch_provider_process
launch-Sound c none hr i p x h =
    let first = i.unlaunched p in
    (
      record {
        no_control = i.no_control;
        no_audio = i.no_audio;
        unlaunched = λ k. cc;
        once = omega arith;
      },
      h,
    )
launch-Sound c (some e) hr i p x h =
    let first = i.unlaunched p in
    let bad = error_failed e x in
    rw bad (record { once = omega arith; pipes = inr (bad, i.no_control, i.no_audio) })

failed-IsSettled : (c : PipeClient) (hr : ℕ) → IsIdle c → failed hr ≡ true → IsSettled c hr
failed-IsSettled c hr i bad = record { once = i.once; pipes = inr (bad, i.no_control, i.no_audio) }

after_probe-Sound :
    (may_launch : Bool) (exe_path : List ℕ) (c : PipeClient) (r : PipeClient × ℕ × Bool)
    (launch_error : Option ℕ)
    → IsIdle c
    → (may_launch ≡ true → c.provider_process ≡ false)
    → IsError launch_error
    → Probed c r
    → Sound (after_probe may_launch exe_path r launch_error)
unfolding after_probe Probed
after_probe-Sound may_launch exe_path c r launch_error i m x (inl (ok, made)) =
    rw (ok, made) (record { once = i.once; pipes = inl (refl, refl, refl) })
after_probe-Sound may_launch exe_path c r launch_error i m x (inr (bad, same)) =
    let (d, hr, opened) = r in
    let idle : IsIdle d = subst IsIdle (sym same) i in
    let denied = failed-IsSettled d hr idle bad in
    let spawns = may_launch && should_spawn_provider (hresult_code hr) opened exe_path in
    let onward : Sound (
        if spawns then after_launch (launch_provider_process d launch_error) hr else goes_on d hr) =
      elim (Bool-cases spawns) [
        | inl yes_spawn ↦
            let allowed : may_launch ≡ true = ground arith in
            let unheld : d.provider_process ≡ false =
              ap (λ (k : PipeClient). k.provider_process) same ∙ m allowed in
            rw yes_spawn (launch-Sound d launch_error hr idle unheld x bad)
        | inr no_spawn ↦ rw no_spawn (idle, bad)
      ] in
    rw bad (if_keeps Sound (hresult_code hr == error_access_denied) denied onward)

probe-Sound :
    (exe_path : List ℕ) (c : PipeClient) (t : Turn)
    → IsIdle c
    → AreErrors t.opens
    → IsError t.launch_error
    → Sound (probe exe_path c t)
unfolding probe
probe-Sound exe_path c t i errors x =
    if_keeps Sound (c.provider_process && t.exited) (failed-IsSettled c _ i refl) (
      after_probe-Sound (not c.provider_process) exe_path c (try_connect_pipes c t.opens)
        t.launch_error i (λ h. ground arith) x (try_connect-Probed c t.opens errors))

-- Every turn meets errors as documented.
pub record Documented (t : Turn) : Type 0 where
  pub opens : AreErrors t.opens
  pub launch : IsError t.launch_error

Returned : Option (PipeClient × ℕ) → Type 0
Returned none = Unit {0}
Returned (some (c, hr)) = IsSettled c hr

and_then-Returned :
    (o : Outcome) (rest : PipeClient → ℕ → Option (PipeClient × ℕ))
    → Sound o
    → ((c : PipeClient) (hr : ℕ) → IsIdle c → failed hr ≡ true → Returned (rest c hr))
    → Returned (and_then o rest)
unfolding and_then Returned
and_then-Returned (returns c hr) rest s h = s
and_then-Returned (goes_on c hr) rest s h = h c hr s.0 s.1

loop-Returned :
    (fuel : ℕ) (exe_path : List ℕ) (deadline : ℕ) (turns : ℕ → Turn) (k : ℕ)
    → ((n : ℕ) → Documented (turns n))
    → (c : PipeClient) (hr : ℕ) → IsIdle c
    → failed hr ≡ true
    → Returned (connect_loop fuel exe_path deadline turns k c hr)
unfolding connect_loop Returned
loop-Returned zero exe_path deadline turns k d c hr i bad = tt
loop-Returned (suc fuel) exe_path deadline turns k d c hr i bad =
    if_keeps Returned (leb deadline (turns k).tick) (failed-IsSettled c hr i bad) (
      and_then-Returned (probe exe_path c (turns k))
        (connect_loop fuel exe_path deadline turns (suc k))
        (probe-Sound exe_path c (turns k) i (d k).opens (d k).launch)
        (loop-Returned fuel exe_path deadline turns (suc k) d))

new_client-IsIdle :
    (exe_path : List ℕ)
    → IsIdle (record new_client { control_buffer = clear new_client.control_buffer })
unfolding new_client
new_client-IsIdle exe_path = record {
  no_control = refl;
  no_audio = refl;
  unlaunched = λ h. refl;
  once = omega arith;
}

connect_total :
    (exe_path : List ℕ) (first : Opens) (launch_error : Option ℕ) (start_tick : ℕ)
    (turns : ℕ → Turn) (late : ℕ)
    → add64 start_tick pipe_ready_timeout_ms ≤ (turns late).tick
    → (r : PipeClient × ℕ) × (connect
          (suc late)
          exe_path
          new_client
          first
          launch_error
          start_tick
          turns
        ≡ some r)
unfolding connect
connect_total exe_path first launch_error start_tick turns late h =
    and_then-returns _
      (connect_loop (suc late) exe_path (add64 start_tick pipe_ready_timeout_ms) turns 0)
      (loop_returns late exe_path (add64 start_tick pipe_ready_timeout_ms) turns 0
        (rw (zero-add late) h))

connect-Returned :
    (fuel : ℕ) (exe_path : List ℕ) (first : Opens) (launch_error : Option ℕ) (start_tick : ℕ)
    (turns : ℕ → Turn)
    → AreErrors first
    → IsError launch_error
    → ((n : ℕ) → Documented (turns n))
    → Returned (connect fuel exe_path new_client first launch_error start_tick turns)
unfolding connect new_client
connect-Returned fuel exe_path first launch_error start_tick turns errors x d =
    let c = record new_client { control_buffer = clear new_client.control_buffer } in
    let idle = new_client-IsIdle exe_path in
    and_then-Returned _
      (connect_loop fuel exe_path (add64 start_tick pipe_ready_timeout_ms) turns 0)
      (after_probe-Sound true exe_path c (try_connect_pipes c first) launch_error idle (λ h. refl) x
        (try_connect-Probed c first errors))
      (loop-Returned fuel exe_path (add64 start_tick pipe_ready_timeout_ms) turns 0 d)

-- `Connect` of a new client returns by the first turn whose tick has reached the deadline, a second
-- after the first probe, whatever the pipes, the provider and its process do; it then holds both
-- pipes exactly when it succeeded, and has launched the provider once at most.
pub connect_returns :
    (exe_path : List ℕ) (first : Opens) (launch_error : Option ℕ) (start_tick : ℕ)
    (turns : ℕ → Turn) (late : ℕ)
    → AreErrors first
    → IsError launch_error
    → ((n : ℕ) → Documented (turns n))
    → add64 start_tick pipe_ready_timeout_ms ≤ (turns late).tick
    → (r : PipeClient × ℕ) × (connect
          (suc late)
          exe_path
          new_client
          first
          launch_error
          start_tick
          turns
        ≡ some r)
      × IsSettled r.0 r.1
unfolding Returned
connect_returns exe_path first launch_error start_tick turns late errors x d h =
    let (r, e) = connect_total exe_path first launch_error start_tick turns late h in
    let settled =
      connect-Returned (suc late) exe_path first launch_error start_tick turns errors x d in
    (r, e, subst Returned e settled)
