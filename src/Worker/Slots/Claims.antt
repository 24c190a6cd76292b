-- ===== src/Worker/Slots/Claims.antt =====
-- `execute_task_with_semaphore` for a task that is claimed or has ended.
use vanguard_runner.Base.{
  ℕ, ◌≡◌, refl, String, true, ◌⊎◌, inl, inr, Option, none, some, List, [], ◌∷◌, ◌++◌,
}
use vanguard_runner.Model.{Status, is_claimed, Offset, World, Action, try_except, message_of}
use vanguard_runner.Model.Post.{Returns, Post-try_except}
use vanguard_runner.Worker.Store.{commit_offset}
use vanguard_runner.Worker.Execution.{TaskData}
use vanguard_runner.Worker.Slots.{
  Received, next_offset, commit_message, status_of, read_status, is_claimed_already, run_unclaimed,
  fail_slot, execute_task_with_semaphore,
}

-- The next call of a store does not fail.
abbrev pub Answers : List (Option String) → Type 0
Answers [] = Unit
Answers (none ∷ fs) = Unit
Answers (some e ∷ fs) = ⊥

-- the offset that a message commits
abbrev pub offset_of : Option Received → List Offset
offset_of none = []
offset_of (some m) = next_offset m ∷ []

-- Only the offset of the message may have been committed.
pub record OnlyCommits (msg : Option Received) (before after : World) : Type 0 where
  pub same_rows : after.committed ≡ before.committed
  pub same_redis : after.redis ≡ before.redis
  pub same_workers : after.workers ≡ before.workers
  pub same_sent : after.sent ≡ before.sent
  pub same_background : after.background ≡ before.background
  pub offsets : (after.offsets ≡ before.offsets) ⊎ (after.offsets ≡ before.offsets ++ offset_of msg)

module _ (msg : Option Received) (w : World) (fs : List (Option String)) (os : List Offset) where
  only_commits :
      (os ≡ w.offsets) ⊎ (os ≡ w.offsets ++ offset_of msg)
      → OnlyCommits msg w (record w { offsets = os; faults = fs })
  only_commits o = record {
    same_rows = refl;
    same_redis = refl;
    same_workers = refl;
    same_sent = refl;
    same_background = refl;
    offsets = o;
  }

commit_message-OnlyCommits :
    (msg : Option Received) (w : World) (fs : List (Option String))
    → Returns (commit_message msg (record w { faults = fs })) (λ _. OnlyCommits msg w)
unfolding commit_message commit_offset
commit_message-OnlyCommits none w fs = only_commits none w fs _ (inl refl)
commit_message-OnlyCommits (some m) w [] = only_commits (some m) w [] _ (inr refl)
commit_message-OnlyCommits (some m) w (none ∷ fs) = only_commits (some m) w fs _ (inr refl)
commit_message-OnlyCommits (some m) w (some e ∷ fs) = only_commits (some m) w fs _ (inl refl)

module _ (seconds : ℕ) (run : String → TaskData → Action Unit)
    (deadline : TaskData → Option (World → World)) (worker : String) (d : TaskData)
    (msg : Option Received) (w : World) (s : Status) (has : status_of (w.redis d.task_id) ≡ some s)
    (claims : is_claimed s ≡ true) where
  claimed : is_claimed_already (status_of (w.redis d.task_id)) ≡ true
  claimed = rw (has, claims) refl

  skips :
      (fs : List (Option String))
      → Returns
          (try_except
            (commit_message msg)
            (λ e. fail_slot worker d.task_id msg (message_of e))
            (record w { faults = fs }))
          (λ _. OnlyCommits msg w)
  skips fs =
      Post-try_except (λ _. OnlyCommits msg w) (λ v. ⊥) (λ v. ⊥) (commit_message msg) _
        (record w { faults = fs }) (commit_message-OnlyCommits msg w fs) (λ e v b. elim b [ ])

  claimed_with :
      (fs : List (Option String))
      → Answers fs
      → Returns
          (execute_task_with_semaphore seconds run deadline worker d msg (record w { faults = fs }))
          (λ _. OnlyCommits msg w)
  unfolding execute_task_with_semaphore read_status run_unclaimed
  claimed_with [] a = rw claimed (skips [])
  claimed_with (none ∷ fs) a = rw claimed (skips fs)
  claimed_with (some e ∷ fs) a = elim a [ ]

  -- Where Redis answers the read of the status, and the status is `running` or a terminal one, the
  -- task is not run: the call returns, the rows, Redis, the workers and Kafka's records are as they
  -- were, and at most the offset behind its message has been committed.
  pub execute_task_with_semaphore-OnlyCommits :
      Answers w.faults
      → Returns
          (execute_task_with_semaphore seconds run deadline worker d msg w)
          (λ _. OnlyCommits msg w)
  execute_task_with_semaphore-OnlyCommits a = claimed_with w.faults a
