-- ===== src/Queue/Purge/Trace.antt =====
-- registry.py: the queue after a run was purged, over sequences of operations of any length.
use codex_remote_runner.Prelude.{string_eq, nat_eq}
use codex_remote_runner.Queue.Job.{workload_eq, priority_eq}
use codex_remote_runner.Queue.State.{status_eq}
use codex_remote_runner.Queue.Purge.Laws.{Steps}
