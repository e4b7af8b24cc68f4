-- ===== src/Pipe/Examples.antt =====
-- A provider that never comes up, a message that is sent, and a line that is read.
use modern_sapi_adapter.Base.{ℕ, ◌*◌, ◌≡◌, refl, true, false, none, some, [], ◌∷◌, ◌++◌, arith}
use modern_sapi_adapter.Windows.{s_ok}
use modern_sapi_adapter.Json.Tree.{Tree, tree_json, null_tree}
use modern_sapi_adapter.ControlStream.Buffer.{strip_cr}
use modern_sapi_adapter.ControlStream.Messages.{data_of}
use modern_sapi_adapter.ControlStream.Lines.{pending, IsValid}
use modern_sapi_adapter.ControlStream.Examples.{held, reads, first, held-IsValid, stream_first}
use modern_sapi_adapter.Pipe.{PipeClient, Opens, new_client}
use modern_sapi_adapter.Pipe.Connect.{Turn, connect}
use modern_sapi_adapter.Pipe.Probing.{AreErrors, IsSettled, connect_returns}
use modern_sapi_adapter.Pipe.Transfer.{
  transferred, complete_overlapped_operation, transfer, send_control_message_utf8, SendAnswers,
  takes_lock, write_timeout, send_control_message,
}
use modern_sapi_adapter.Pipe.Sending.{IsSent, send_ok-IsSent}
use modern_sapi_adapter.Pipe.Reading.{Answers, read_json, json_delivered}

-- The control pipe is never found.
abbrev missing : Opens
missing = record { control = some 2; audio = none; mode = none }

abbrev turns : ℕ → Turn
turns n = record { tick = n * 1000; exited = false; opens = missing; launch_error = none }

missing-AreErrors : AreErrors missing
missing-AreErrors = record { control = omega arith; audio = tt; mode = tt }

connect_returns_example :
    (r : PipeClient × ℕ) × (connect 3 (101 ∷ []) new_client missing none 100 turns ≡ some r)
    × IsSettled r.0 r.1
connect_returns_example =
    connect_returns (101 ∷ []) missing none 100 turns 2 missing-AreErrors tt
      (λ n. record { opens = missing-AreErrors; launch = tt }) (omega arith)

abbrev connected : PipeClient
connected = record {
  control_pipe = true;
  audio_pipe = true;
  provider_process = true;
  control_buffer = held;
  launches = 1;
}

abbrev prompt : SendAnswers
prompt = record {
  entry_tick = 1000;
  lock_tick = 1001;
  locks = λ ms. true;
  write_tick = 1002;
  write = λ ms. record {
    creation_result = 0;
    start_error = none;
    operation = record { waited = transferred 3; cancellation_error = 0; reaped = transferred 0 };
  };
}

sent :
    send_control_message tree_json connected null_tree 1500 prompt
    ≡ some (s_ok, 123 ∷ 125 ∷ 10 ∷ [])
unfolding send_control_message takes_lock write_timeout send_control_message_utf8 transfer
    complete_overlapped_operation
sent = refl

send_ok-IsSent_example : IsSent tree_json connected null_tree 1500 prompt (123 ∷ 125 ∷ 10 ∷ [])
send_ok-IsSent_example =
    send_ok-IsSent tree_json connected null_tree 1500 prompt (123 ∷ 125 ∷ 10 ∷ []) sent

json_delivered_example :
    let (result, left) = read_json tree_json connected null_tree none reads in
    (d : PipeClient) × (hr : ℕ) × (v : Tree) × Answers tree_json null_tree (strip_cr first) hr v
    × (result ≡ some (d, hr, v))
    × IsValid d.control_buffer
    × (pending d.control_buffer ++ data_of left ≡ 100 ∷ 101 ∷ [])
json_delivered_example =
    json_delivered tree_json connected null_tree reads first (100 ∷ 101 ∷ []) refl held-IsValid
      (omega arith, (omega arith, (omega arith, tt))) (omega arith) (omega arith) stream_first
