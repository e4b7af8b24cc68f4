-- ===== src/Logger/Runs.antt =====
-- Schedules of a few callers and one or two workers, as the later examples use them.
use modern_sapi_adapter.Base.{refl, true, false, [], ◌∷◌, nat_eq}
use modern_sapi_adapter.Logger.Sections.{
  Message, new_logger, Starting, log_first, log_again, log_rest, log_start, push, start_locked,
  refuses, cleanup_file_stream, worker_turn, take_message, report_stop, begin_unload, end_unload,
  begin_resume,
}
use modern_sapi_adapter.Logger.Threads.{
  LoggerThreads, new_threads, log_ends, worker_ends, logs, log_joins, works, begins_unload,
  ends_unload, begins_resume, Reach, here, next,
}

pub record Run : Type 0 where
  pub last : LoggerThreads
  pub reach : Reach new_threads last

abbrev pub hello : Message
hello = 104 ∷ 105 ∷ []

-- Caller 0 is in the join of `ResumeAfterUnloadRejected` while caller 1 logs, the worker delivers and
-- waits, and caller 2 begins to unload.
abbrev pub lost : Run
unfolding new_logger log_first log_again refuses log_rest log_start push start_locked log_ends
    begin_unload end_unload begin_resume worker_turn take_message report_stop cleanup_file_stream
    worker_ends
lost = record {
  last = _;
  reach =
      next
        (next
          (next
            (next (next here (begins_resume 0 refl refl))
              (logs 1 hello Starting.made true true true _ refl refl refl))
            (works 0 false true _ refl refl))
          (works 0 false true _ refl refl))
        (begins_unload 2 refl refl);
}

-- Caller 1 logs twice, caller 2 begins to unload, and the worker delivers both and ends.
abbrev pub drained : Run
unfolding new_logger log_first log_again refuses log_rest log_start push start_locked log_ends
    begin_unload end_unload begin_resume worker_turn take_message report_stop cleanup_file_stream
    worker_ends
drained = record {
  last = _;
  reach =
      next
        (next
          (next
            (next
              (next
                (next
                  (next
                    (next
                      (next (next here (logs 1 hello Starting.made true true true _ refl refl refl))
                        (logs 1 hello Starting.made true false true _ refl refl refl))
                      (begins_unload 2 refl refl))
                    (works 0 false true _ refl refl))
                  (works 0 false true _ refl refl))
                (works 0 false true _ refl refl))
              (works 0 false true _ refl refl))
            (works 0 false true _ refl refl))
          (works 0 false true _ refl refl))
        (works 0 false true _ refl refl);
}

-- Two workers end after caller 1 has given up on unloading; caller 2 is joining the first in `Log`, and
-- the second is still joinable.
abbrev pub joining : Run
unfolding new_logger log_first log_again refuses log_rest log_start push start_locked log_ends
    begin_unload end_unload begin_resume worker_turn take_message report_stop cleanup_file_stream
    worker_ends
joining = record {
  last = _;
  reach =
      next
        (next
          (next
            (next
              (next
                (next
                  (next
                    (next
                      (next
                        (next
                          (next
                            (next
                              (next
                                (next
                                  (next
                                    (next
                                      (next here (
                                        logs 0 hello Starting.made true true true _ refl refl refl))
                                      (works 0 false true _ refl refl))
                                    (works 0 false true _ refl refl))
                                  (begins_unload 1 refl refl))
                                (ends_unload 1 refl refl))
                              (works 0 false true _ refl refl))
                            (works 0 false true _ refl refl))
                          (works 0 false true _ refl refl))
                        (log_joins 2 hello Starting.made true _ 0 refl refl refl))
                      (logs 3 hello Starting.made true true true _ refl refl refl))
                    (works 1 false true _ refl refl))
                  (works 1 false true _ refl refl))
                (begins_unload 1 refl refl))
              (ends_unload 1 refl refl))
            (works 1 false true _ refl refl))
          (works 1 false true _ refl refl))
        (works 1 false true _ refl refl);
}

-- The same before the worker's first step.
abbrev pub asked : Run
unfolding new_logger log_first log_again refuses log_rest log_start push start_locked log_ends
    begin_unload end_unload begin_resume worker_turn take_message report_stop cleanup_file_stream
    worker_ends
asked = record {
  last = _;
  reach =
      next
        (next (next here (logs 1 hello Starting.made true true true _ refl refl refl))
          (logs 1 hello Starting.made true false true _ refl refl refl))
        (begins_unload 2 refl refl);
}

-- The same before anything asks the logger to stop.
abbrev pub logged : Run
unfolding new_logger log_first log_again refuses log_rest log_start push start_locked log_ends
    begin_unload end_unload begin_resume worker_turn take_message report_stop cleanup_file_stream
    worker_ends
logged = record {
  last = _;
  reach =
      next (next here (logs 1 hello Starting.made true true true _ refl refl refl))
        (logs 1 hello Starting.made true false true _ refl refl refl);
}
