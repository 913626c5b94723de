-- ===== src/Worker/Start.antt =====
-- worker.go: how a process or a goroutine becomes a worker. The operating system is a record of
-- operations.
use sticky_overseer.Base.{
  ℕ, String, Bool, true, false, Option, none, some, List, ◌⊎◌, inl, inr, ℤ, pos, negsuc,
}
use sticky_overseer.Worker.{Worker, new_worker}

pub record WorkerConfig : Type 0 where
  pub task_id : String
  pub command : String
  pub args : List String
  pub include_stdout : Bool
  pub include_stderr : Bool

-- What `StdoutPipe`, `StderrPipe` and `Start` of the command return, the first two their errors.
pub record OsLibrary : Type 0 where
  pub stdout_pipe : WorkerConfig → Option String
  pub stderr_pipe : WorkerConfig → Option String
  pub start : WorkerConfig → String ⊎ ℕ

-- `StartWorker`, as far as the start of its goroutines.
unfoldable pub start_worker : OsLibrary → ℕ → WorkerConfig → String ⊎ Worker
start_worker os now cfg = elim (os.stdout_pipe cfg) [
  | some err ↦ inl err
  | none ↦ elim (os.stderr_pipe cfg) [
    | some err ↦ inl err
    | none ↦ elim (os.start cfg) [
      | inl err ↦ inl err
      | inr pid ↦ inr (new_worker false pid cfg.task_id now)
    ]
  ]
]

-- `StartVirtualWorker`
abbrev pub start_virtual_worker : String → ℕ → Worker
start_virtual_worker task_id now = new_worker true 0 task_id now

-- What `cmd.Wait` returns: nil, an `ExitError` with its code, or another error.
pub data WaitResult : Type 0 where
  finished : WaitResult
  exit_error : ℤ → WaitResult
  wait_failed : String → WaitResult

unfoldable pub exit_code_of : WaitResult → ℤ
exit_code_of finished = pos 0
exit_code_of (exit_error code) = code
exit_code_of (wait_failed err) = negsuc 0
