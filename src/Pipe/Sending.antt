-- ===== src/Pipe/Sending.antt =====
-- What a successful `SendControlMessage` means.
use modern_sapi_adapter.Base.{
  ℕ, ◌<◌, ◌≡◌, ◌⊎◌, inl, inr, sym, ap, ◌∙◌, true, some, List, [], ◌∷◌, ◌++◌, ◌==◌, nat_eq, length,
  add64, arith, Bool-cases, Option-cases,
}
use modern_sapi_adapter.Windows.{s_ok}
use modern_sapi_adapter.Json.{Json}
use modern_sapi_adapter.Pipe.{PipeClient}
use modern_sapi_adapter.Pipe.Transfer.{
  Io, transfer, send_control_message_utf8, SendAnswers, infinite, takes_lock, write_timeout,
  send_control_message,
}

-- The bytes are the message with its line feed, the pipe took all of them, and what was done before
-- the write was done before the deadline.
pub record IsSent (j : Json) (c : PipeClient) (message : j.Value) (timeout_ms : ℕ) (a : SendAnswers)
    (given : List ℕ) : Type 0 where
  pub bytes : List ℕ
  pub printed : j.dump message ≡ some bytes
  pub line : given ≡ bytes ++ 10 ∷ []
  pub connected : c.control_pipe ≡ true
  pub write_ms : ℕ
  pub granted : write_timeout timeout_ms a ≡ some write_ms
  pub taken : (transfer (a.write write_ms)).1 ≡ length given
  pub timely :
      (timeout_ms ≡ infinite)
      ⊎ ((a.lock_tick < add64 a.entry_tick timeout_ms)
          × (a.write_tick < add64 a.entry_tick timeout_ms))

utf8_taken :
    (utf8 : List ℕ) (io : Io)
    → send_control_message_utf8 utf8 io ≡ s_ok
    → (transfer io).1 ≡ length utf8
unfolding send_control_message_utf8
utf8_taken utf8 io h = ground arith

timely_of :
    (timeout_ms : ℕ) (a : SendAnswers) (ms : ℕ)
    → takes_lock timeout_ms a ≡ true
    → write_timeout timeout_ms a ≡ some ms
    → (timeout_ms ≡ infinite)
      ⊎ ((a.lock_tick < add64 a.entry_tick timeout_ms)
          × (a.write_tick < add64 a.entry_tick timeout_ms))
unfolding takes_lock write_timeout
timely_of timeout_ms a ms l w = elim (Bool-cases (timeout_ms == infinite)) [
  | inl e ↦ inl (ground arith)
  | inr e ↦ inr (ground arith, ground arith)
]

-- `SendControlMessage` reports success only when the pipe took the whole message and its line feed,
-- and, unless it may wait for ever, when both the lock and the write were begun before the deadline.
pub send_ok-IsSent :
    (j : Json) (c : PipeClient) (message : j.Value) (timeout_ms : ℕ) (a : SendAnswers)
    (given : List ℕ)
    → send_control_message j c message timeout_ms a ≡ some (s_ok, given)
    → IsSent j c message timeout_ms a given
unfolding send_control_message
send_ok-IsSent j c message timeout_ms a given h =
    let locked : takes_lock timeout_ms a ≡ true = ground arith in
    let connected : c.control_pipe ≡ true = ground arith in
    elim (Option-cases (j.dump message)) [
      | inl lost ↦ ground arith
      | inr (bytes, printed) ↦ elim (Option-cases (write_timeout timeout_ms a)) [
        | inl late ↦ ground arith
        | inr (ms, granted) ↦
            let utf8 = bytes ++ 10 ∷ [] in
            let line : given ≡ utf8 = ground arith in
            let sent : send_control_message_utf8 utf8 (a.write ms) ≡ s_ok = ground arith in
            record {
              bytes = bytes;
              printed = printed;
              line = line;
              connected = connected;
              write_ms = ms;
              granted = granted;
              taken = utf8_taken utf8 (a.write ms) sent ∙ ap length (sym line);
              timely = timely_of timeout_ms a ms locked granted;
            }
      ]
    ]
