-- ===== src/Worker/Consumer/Starts.antt =====
-- What a poll has done at its end: the tasks that it started and the offsets that it committed
-- (apps/worker/runtime/main.py).
use vanguard_runner.Base.{
  ℕ, ◌+◌, ◌<◌, ◌≤◌, ltb, ◌≡◌, refl, sym, ap, String, Bool, true, false, ◌⊎◌, inl, inr, Option, none,
  some, List, [], ◌∷◌, ◌++◌, arith,
}
use mathlib.Core.Path.{subst}
use mathlib.Core.List.{append-nil}
use vanguard_runner.Model.{Offset, World}
use vanguard_runner.Model.Post.{Returns, Post-bind, Post-weaken}
use vanguard_runner.Worker.Execution.{TaskData}
use vanguard_runner.Worker.Consumer.{
  Polled, Sorted, sort_partitions, offsets_of, tasks_of_round, commit_offsets, Round,
  commit_positions, commit_if_due, commit_all, end_round, consume_round,
}
use vanguard_runner.Worker.Consumer.Sorting.{
  Fails, Polls, Behind, Behind-next, Unmoved, PollsSorted, sort_partitions-Polls,
}

module _ (w : World) where
  -- What the commit of the marked messages leaves: it added an offset for each of them, or failed.
  abbrev Commits : List Offset → List Offset → Type 0
  Commits os new = (new ≡ os) ⊎ ((new ≡ []) × Fails w)

  abbrev Committed : List Offset → World → Type 0
  Committed os w' =
      (new : List Offset) × ((fs : List (Option String)) × ((w'
            ≡ record w { offsets = w.offsets ++ new; faults = fs })
          × (Behind w fs × Commits os new)))

  same_offsets :
      (fs : List (Option String))
      → record w { faults = fs } ≡ record w { offsets = w.offsets ++ []; faults = fs }
  same_offsets fs = ap (λ os. record w { offsets = os; faults = fs }) (sym (append-nil w.offsets))

  commits :
      (os : List Offset) (fs : List (Option String))
      → Behind w fs
      → Returns (commit_offsets os (record w { faults = fs })) (λ _. Committed os)
  unfolding commit_offsets
  commits [] fs b = ([], (fs, (same_offsets fs, (b, inl refl))))
  commits (o ∷ os) [] b = (o ∷ os, ([], (refl, (b, inl refl))))
  commits (o ∷ os) (none ∷ fs) b = (o ∷ os, (fs, (refl, (Behind-next w none fs b, inl refl))))
  commits (o ∷ os) (some x ∷ fs) b = (
    [],
    (fs, (same_offsets fs, (Behind-next w (some x) fs b, inr (refl, (b.0, (x, (fs, b.1))))))),
  )

  commit_offsets-Committed :
      (os : List Offset) (v : World)
      → Unmoved w v
      → Returns (commit_offsets os v) (λ _. Committed os)
  commit_offsets-Committed os v (fs, (e, b)) =
      subst (λ u. Returns (commit_offsets os u) (λ _. Committed os)) (sym e) (commits os fs b)

-- The periodic commit of a poll: all positions are committed only where no task was started and more
-- than ten seconds have passed since the last such commit, and then its time is the clock's;
-- otherwise, or where the commit fails, nothing is.
pub data Periodic (positions : List Offset) (last_commit : ℕ) (w : World) (out : Round)
    : List Offset → Type 0 where
  all_positions :
      out.tasks ≡ []
      → last_commit + 10 < w.clock
      → out.last_commit ≡ w.clock
      → Periodic positions last_commit w out positions
  nothing :
      ¬ (out.tasks ≡ []) ⊎ ((w.clock ≤ last_commit + 10) ⊎ Fails w)
      → out.last_commit ≡ last_commit
      → Periodic positions last_commit w out []

-- What a poll has done: the tasks it started and the offsets it committed.
pub record RoundReport (positions : List Offset) (last_commit : ℕ) (ps : List (List Polled))
    (w : World) (out : Round) (w' : World) : Type 0 where
  pub following : List Offset
  pub polls : Polls w ps out.tasks following
  pub new : List Offset
  pub commits_marked : (new ≡ following) ⊎ ((new ≡ []) × Fails w)
  pub later : List Offset
  pub commits_positions : Periodic positions last_commit w out later
  pub offsets : w'.offsets ≡ (w.offsets ++ new) ++ later
  pub same_rows : w'.committed ≡ w.committed
  pub same_redis : w'.redis ≡ w.redis

module _ (positions : List Offset) (last_commit : ℕ) (w : World) (os : List Offset) where
  -- what the end of a poll adds to the offsets of `os`
  pub record Ended (tasks : List (Polled × TaskData)) (out : Round) (w' : World) : Type 0 where
    pub given : out.tasks ≡ tasks
    pub later : List Offset
    pub periodic : Periodic positions last_commit w out later
    pub offsets : w'.offsets ≡ os ++ later
    pub same_rows : w'.committed ≡ w.committed
    pub same_redis : w'.redis ≡ w.redis

  abbrev world_at : List (Option String) → World
  world_at fs = record w { offsets = os; faults = fs }

  commit_due :
      (fs : List (Option String)) (b : Bool)
      → Behind w fs
      → ltb (last_commit + 10) w.clock ≡ b
      → Returns (end_round positions last_commit [] (world_at fs)) (Ended [])
  unfolding end_round commit_positions commit_if_due commit_all
  commit_due fs false b e = rw e (record {
    given = refl;
    later = [];
    periodic = nothing (inr (inl (ground (arith, e)))) refl;
    offsets = sym (append-nil os);
    same_rows = refl;
    same_redis = refl;
  })
  commit_due [] true b e = rw e (record {
    given = refl;
    later = positions;
    periodic = all_positions refl (ground (arith, e)) refl;
    offsets = refl;
    same_rows = refl;
    same_redis = refl;
  })
  commit_due (none ∷ fs) true b e = rw e (record {
    given = refl;
    later = positions;
    periodic = all_positions refl (ground (arith, e)) refl;
    offsets = refl;
    same_rows = refl;
    same_redis = refl;
  })
  commit_due (some x ∷ fs) true b e = rw e (record {
    given = refl;
    later = [];
    periodic = nothing (inr (inr (b.0, (x, (fs, b.1))))) refl;
    offsets = sym (append-nil os);
    same_rows = refl;
    same_redis = refl;
  })

  end_round-Ended :
      (tasks : List (Polled × TaskData)) (fs : List (Option String))
      → Behind w fs
      → Returns (end_round positions last_commit tasks (world_at fs)) (Ended tasks)
  unfolding end_round
  end_round-Ended [] fs b = commit_due fs (ltb (last_commit + 10) w.clock) b refl
  end_round-Ended (t ∷ ts) fs b = record {
    given = refl;
    later = [];
    periodic = nothing (inl (λ e. ground (arith, e))) refl;
    offsets = sym (append-nil os);
    same_rows = refl;
    same_redis = refl;
  }

-- Whatever Redis and Kafka do, a poll returns. Each of its messages is started or marked, in order: a
-- started task was decoded from its message, is a workflow and is not claimed in Redis; a marked
-- message does not decode, or its task is no workflow or is claimed, or some call fails. The poll
-- commits, for each partition with a marked message, the offset that follows its last marked message,
-- or none of these where a call fails. After that it commits all positions, only where it started no
-- task and more than ten seconds have passed since the last such commit; where that does not happen,
-- one of these conditions does not hold or a call fails. The rows and Redis are as they were.
pub consume_round-RoundReport :
    (positions : List Offset) (last_commit : ℕ) (ps : List (List Polled)) (w : World)
    → Returns (consume_round positions last_commit ps w) (RoundReport positions last_commit ps w)
unfolding consume_round
consume_round-RoundReport positions last_commit ps w =
    Post-bind (PollsSorted w ps) Report (λ v. ⊥) (sort_partitions ps) _ w
      (sort_partitions-Polls w ps w (w.faults, (refl, ([], refl))))
      (λ ss v1 h.
        Post-bind (λ _. Committed w (offsets_of ss)) Report (λ v. ⊥)
          (commit_offsets (offsets_of ss)) _ v1 (commit_offsets-Committed w (offsets_of ss) v1 h.1)
          (λ _ v2 c. report ss v2 h.0 c))
  where
    Report : Round → World → Type 0
    Report = RoundReport positions last_commit ps w

    report :
        (ss : List Sorted) (v : World)
        → Polls w ps (tasks_of_round ss) (offsets_of ss)
        → Committed w (offsets_of ss) v
        → Returns (end_round positions last_commit (tasks_of_round ss) v) Report
    report ss v p (new, (fs, (e, (b, c)))) =
        subst (λ u. Returns (end_round positions last_commit (tasks_of_round ss) u) Report) (sym e)
          (Post-weaken _ _ (λ x. ⊥) (λ x. ⊥)
            (end_round positions last_commit (tasks_of_round ss)
              (record w { offsets = w.offsets ++ new; faults = fs }))
            (end_round-Ended positions last_commit w (w.offsets ++ new) (tasks_of_round ss) fs b)
            (λ out v2 x. record {
              following = offsets_of ss;
              polls = subst (λ ts. Polls w ps ts (offsets_of ss)) (sym x.given) p;
              new = new;
              commits_marked = c;
              later = x.later;
              commits_positions = x.periodic;
              offsets = x.offsets;
              same_rows = x.same_rows;
              same_redis = x.same_redis;
            })
            (λ v2 x. x))
