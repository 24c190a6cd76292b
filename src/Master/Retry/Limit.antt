-- ===== src/Master/Retry/Limit.antt =====
-- `retry_task` and the limit of each row (apps/master/application/services/workflow_service.py).
use vanguard_runner.Base.{◌+◌, ◌≤◌, ◌<◌, String, eq_iff, ◌≡◌, ap, inl, inr, some, List, arith}
use vanguard_runner.Model.{TaskExecution, World, Outcome, return, raise}
use vanguard_runner.Model.Post.{Post}
use vanguard_runner.Database.{apply_update}
use vanguard_runner.Database.Rows.{row, updated, row-updated}
use vanguard_runner.Master.Retry.{
  RetryResult, not_found, bad_status, exhausted, was_retried, reset_with, retry_task,
}
use vanguard_runner.Master.Retry.Safety.{
  retries, limit, RetriesOnly, RetryReport, retry_task-RetryReport,
}

-- Every row that the table holds under its key has at most as many retries as its limit.
pub record WithinLimits (rows : List TaskExecution) : Type 0 where
  pub at : (j : String) (t : TaskExecution) → row j rows ≡ some t → retries t ≤ limit t

reset-limits :
    (t : TaskExecution)
    → retries t < limit t
    → (retries (apply_update (reset_with (retries t + 1)) t)
        ≤ limit (apply_update (reset_with (retries t + 1)) t))
unfolding apply_update
reset-limits t few = ground arith

same_key : (id j : String) (rows : List TaskExecution) → id ≡ j → row id rows ≡ row j rows
same_key id j rows e = ap (λ k. row k rows) e

RetriesOnly-WithinLimits :
    (id : String) (before after : List TaskExecution)
    → RetriesOnly id before after
    → WithinLimits before
    → WithinLimits after
RetriesOnly-WithinLimits id before after (inl e) h = record { at = λ j t r. h.at j t (rw (← e) r) }
RetriesOnly-WithinLimits id before after (inr (t, found, is, few, e)) h = record {
  at = λ j u r.
      let q : row j (updated id (reset_with (retries t + 1)) before) ≡ some u = rw (← e) r in
      ground (
        arith,
        row-updated j id (reset_with (retries t + 1)) before,
        eq_iff id j,
        same_key id j before,
        h.at j u,
        reset-limits t few,
      );
}

-- From a new session and whatever the stores and the broker do, a retry leaves every durable row
-- within its limit if it found them so, also where it raises.
pub retry_task-WithinLimits :
    (id : String) (w : World)
    → w.session ≡ w.committed
    → WithinLimits w.committed
    → WithinLimits (retry_task id w).1.committed
retry_task-WithinLimits id w s h = ends (retry_task id w) (retry_task-RetryReport id w s)
  where
    answered :
        (r : RetryResult) (v : World) → RetryReport id w.committed r v → WithinLimits v.committed
    answered not_found v q = rw q h
    answered (bad_status b) v q = rw q.0 h
    answered (exhausted b) v q = rw q.0 h
    answered (was_retried n) v q = RetriesOnly-WithinLimits id w.committed v.committed q.0 h

    ends :
        (o : Outcome RetryResult × World)
        → Post o (RetryReport id w.committed) (λ v. RetriesOnly id w.committed v.committed)
        → WithinLimits o.1.committed
    ends (return r, v) q = answered r v q
    ends (raise e, v) q = RetriesOnly-WithinLimits id w.committed v.committed q h
