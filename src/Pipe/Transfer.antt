-- ===== src/Pipe/Transfer.antt =====
-- Overlapped reads and writes, and the control messages.
use modern_sapi_adapter.Base.{
  ℕ, Bool, not, ◌&&◌, ◌||◌, Option, none, some, List, [], ◌∷◌, ◌++◌, ◌==◌, ◌!=◌, nat_eq,
  if◌then◌else◌, length, ltb, leb, add64, sub64, to_u32, max_u32,
}
use modern_sapi_adapter.Windows.{
  s_ok, e_unexpected, failed, hresult_from_win32, wait_timeout, error_success, error_io_incomplete,
  error_io_pending, error_operation_aborted, error_not_found, error_timeout, error_write_fault,
  error_buffer_overflow,
}
use modern_sapi_adapter.Json.{Json}
use modern_sapi_adapter.Pipe.{PipeClient}

-- The end of an operation: the bytes transferred, or an error.
pub data Completion : Type 0 where
  transferred : ℕ → Completion
  error : ℕ → Completion

-- What `CompleteOverlappedOperation` meets: the end of the wait, the error of `CancelIoEx` or
-- `ERROR_SUCCESS`, and the end of the operation after the cancellation.
pub record Operation : Type 0 where
  pub waited : Completion
  pub cancellation_error : ℕ
  pub reaped : Completion

-- The end after a time-out: the result, and the bytes.
unfoldable pub after_cancellation : ℕ → ℕ → Completion → ℕ × ℕ
after_cancellation before cancellation_error (transferred n) = (s_ok, n)
after_cancellation before cancellation_error (error reap_error) =
    if reap_error != error_operation_aborted
    then (hresult_from_win32 reap_error, before)
    else if cancellation_error != error_success && cancellation_error != error_not_found
    then (hresult_from_win32 cancellation_error, before)
    else (hresult_from_win32 error_timeout, 0)

-- `CompleteOverlappedOperation`, with the value that `bytesTransferred` has before.
unfoldable pub complete_overlapped_operation : Completion → ℕ → Operation → ℕ × ℕ
unfolding after_cancellation
complete_overlapped_operation (transferred n) before o = (s_ok, n)
complete_overlapped_operation (error completion_error) before o =
    if completion_error != wait_timeout && completion_error != error_io_incomplete
    then (hresult_from_win32 completion_error, before)
    else after_cancellation before o.cancellation_error o.reaped

-- `ReadFile` or `WriteFile` with its operation: `ScopedOverlapped`'s result, and the error of the
-- call, `none` where it is done or goes on.
pub record Io : Type 0 where
  pub creation_result : ℕ
  pub start_error : Option ℕ
  pub operation : Operation

-- The start of the call and its completion, with nothing transferred before.
unfoldable pub transfer : Io → ℕ × ℕ
unfolding complete_overlapped_operation
transfer io = if failed io.creation_result then (io.creation_result, 0) else elim io.start_error [
  | none ↦ complete_overlapped_operation io.operation.waited 0 io.operation
  | some e ↦
      if e != error_io_pending
      then (hresult_from_win32 e, 0)
      else complete_overlapped_operation io.operation.waited 0 io.operation
]

-- `SendControlMessageUtf8`.
unfoldable pub send_control_message_utf8 : List ℕ → Io → ℕ
unfolding transfer
send_control_message_utf8 utf8 io =
    let (hr, bytes_written) = transfer io in
    if ltb max_u32 (length utf8)
    then hresult_from_win32 error_buffer_overflow
    else if failed hr
    then hr
    else if bytes_written != length utf8
    then hresult_from_win32 error_write_fault
    else s_ok

-- `ReadAudioChunk`: the result, and the bytes read; the caller's count is left alone where nothing
-- is started.
unfoldable pub read_audio_chunk : PipeClient → ℕ → Io → ℕ × ℕ
unfolding transfer
read_audio_chunk c before io =
    if not c.audio_pipe
    then (e_unexpected, before)
    else if failed io.creation_result
    then (io.creation_result, before)
    else transfer io

-- What `SendControlMessage` meets: three readings of the tick, whether the write lock is taken in
-- the time that is left, and the write for the time that is left then.
pub record SendAnswers : Type 0 where
  pub entry_tick : ℕ
  pub lock_tick : ℕ
  pub locks : ℕ → Bool
  pub write_tick : ℕ
  pub write : ℕ → Io

-- `INFINITE`.
abbrev pub infinite : ℕ
infinite = 0xffffffff

-- Whether the write lock is held in time.
unfoldable pub takes_lock : ℕ → SendAnswers → Bool
takes_lock timeout_ms a =
    let deadline = add64 a.entry_tick timeout_ms in
    timeout_ms == infinite
    || (not (leb deadline a.lock_tick) && a.locks (sub64 deadline a.lock_tick))

-- The time that is left for the write; `none` where there is none.
unfoldable pub write_timeout : ℕ → SendAnswers → Option ℕ
write_timeout timeout_ms a =
    let deadline = add64 a.entry_tick timeout_ms in
    if timeout_ms == infinite
    then some infinite
    else if leb deadline a.write_tick
    then none
    else some (to_u32 (sub64 deadline a.write_tick))

module _ (j : Json) where
  -- `SendControlMessage`: the result, and the bytes given to the pipe. `none` where `dump` throws.
  unfoldable pub send_control_message : PipeClient → j.Value → ℕ → SendAnswers → Option (ℕ × List ℕ)
  send_control_message c message timeout_ms a =
      if not (takes_lock timeout_ms a)
      then some (hresult_from_win32 error_timeout, [])
      else if not c.control_pipe
      then some (e_unexpected, [])
      else elim (j.dump message) [
        | none ↦ none
        | some bytes ↦ elim (write_timeout timeout_ms a) [
          | none ↦ some (hresult_from_win32 error_timeout, [])
          | some ms ↦
              let utf8 = bytes ++ 10 ∷ [] in
              some (send_control_message_utf8 utf8 (a.write ms), utf8)
        ]
      ]
