-- ===== src/Master/Cancel/Batch.antt =====
-- `cancel_batch_tasks`: its counts, and the rows that it changes, whatever the stores do.
use vanguard_runner.Base.{
  ℕ, ◌+◌, ◌≡◌, refl, sym, ap, ◌∙◌, ◌⊎◌, inl, inr, Bool, true, ◌==◌, eq_iff, Option, none, some,
  List, [], ◌∷◌, arith, length, count, select, All, All-select, Bool-cases, String,
}
use mathlib.Core.Path.{subst}
use native.Mathlib.Nat.{zero-add}
use vanguard_runner.Model.{is_pending, cancelled_before_execution, TaskExecution, World}
use vanguard_runner.Model.Post.{Post, Post-bind, Post-step, Post-weaken, Post-Preserves}
use vanguard_runner.Database.{apply_update, update_task_status, query_tasks_by_parent_id, commit}
use vanguard_runner.Database.Rows.{
  row, updated, row-updated, map_row, update_task_status-Post, query_tasks_by_parent_id-Post,
  commit-Post,
}
use vanguard_runner.Master.Compensation.{get_redis_client}
use vanguard_runner.Master.Compensation.Frame.{get_redis_client-Preserves}
use vanguard_runner.Master.Cancel.{
  BatchCount, cancellation, cancel_one, cancel_each, cancel_and_commit, cancel_batch_found,
  cancel_batch_tasks, mark_task_cancelled_in_redis,
}
use vanguard_runner.Master.Cancel.Safety.{mark_task_cancelled_in_redis-Preserves}

abbrev pub task_is_pending : TaskExecution → Bool
task_is_pending t = is_pending t.status

-- The primary key: each row is the one that its key finds.
abbrev pub IsKeyed : List TaskExecution → Type 0
IsKeyed rows = All (λ t. row t.task_id rows ≡ some t) rows

-- One row after a cancellation of pending rows: as before, or pending before and cancelled now.
abbrev pub RowCancelled : ℕ → Option TaskExecution → Option TaskExecution → Type 0
RowCancelled now before after =
    (after ≡ before)
    ⊎ ((t : TaskExecution) × (before ≡ some t)
        × (is_pending t.status ≡ true)
        × (after ≡ some (apply_update (cancellation now) t)))

pub record CancelsPending (now : ℕ) (before after : List TaskExecution) : Type 0 where
  pub at : (j : String) → RowCancelled now (row j before) (row j after)

-- A second cancellation of a row at the same instant changes nothing.
cancellation_twice :
    (now : ℕ) (t : TaskExecution)
    → apply_update (cancellation now) (apply_update (cancellation now) t)
      ≡ apply_update (cancellation now) t
unfolding apply_update
cancellation_twice now t = ground arith

module _ (now : ℕ) (before : List TaskExecution) (t : TaskExecution)
    (is : is_pending t.status ≡ true) (found : row t.task_id before ≡ some t) where
  row_cancelled :
      (j : String) (o : Option TaskExecution)
      → t.task_id ≡ j
      → RowCancelled now (row j before) o
      → RowCancelled now (row j before) (map_row (apply_update (cancellation now)) o)
  row_cancelled j o e (inl same) = inr (t, rw (← e) found, is, rw (same, ← e, found) refl)
  row_cancelled j o e (inr (s, b, p, a)) = inr (s, b, p, rw a (ap some (cancellation_twice now s)))

  updated-CancelsPending :
      (rows : List TaskExecution)
      → CancelsPending now before rows
      → CancelsPending now before (updated t.task_id (cancellation now) rows)
  updated-CancelsPending rows h = record {
    at = λ j. rw row-updated (elim (Bool-cases (t.task_id == j)) [
      | inl e ↦ rw e (row_cancelled j (row j rows) ((eq_iff t.task_id j).0 e) (h.at j))
      | inr e ↦ rw e (h.at j)
    ]);
  }

-- The counts after more tasks: the pending ones are done, the others skipped.
pub record Counted (c : BatchCount) (tasks : List TaskExecution) (c' : BatchCount) : Type 0 where
  pub more_done : c'.done ≡ c.done + count task_is_pending tasks
  pub all_counted : c'.done + c'.skipped ≡ c.done + c.skipped + length tasks
  pub same_total : c'.total ≡ c.total

module _ (now : ℕ) (before : List TaskExecution) where
  -- the durable rows before the commit, and what the session makes of them
  pub record Uncommitted (w : World) : Type 0 where
    pub durable : w.committed ≡ before
    pub cancels : CancelsPending now before w.session

  pub record Working (c : BatchCount) (tasks : List TaskExecution) (c' : BatchCount) (w : World)
      : Type 0 where
    pub counted : Counted c tasks c'
    pub uncommitted : Uncommitted w

  cancel_one-Working :
      (c : BatchCount) (t : TaskExecution) (w : World)
      → row t.task_id before ≡ some t
      → Uncommitted w
      → Post (cancel_one now c t w) (Working c (t ∷ [])) Uncommitted
  unfolding cancel_one
  cancel_one-Working c t w found u = elim (Bool-cases (is_pending t.status)) [
    | inl is ↦ rw is (
        Post-bind (λ _. Uncommitted) (Working c (t ∷ [])) Uncommitted
          (update_task_status t.task_id (cancellation now)) _ w
          (update_task_status-Post t.task_id (cancellation now) w (λ _. Uncommitted) Uncommitted
            (λ fs. record { durable = u.durable; cancels = u.cancels })
            (λ fs. record {
              durable = u.durable;
              cancels = updated-CancelsPending now before t is found w.session u.cancels;
            }))
          (λ _ w' u'.
            Post-step Uncommitted (Working c (t ∷ []))
              (mark_task_cancelled_in_redis t.task_id cancelled_before_execution) _ w'
              (mark_task_cancelled_in_redis-Preserves Uncommitted
                (λ _ _ _ h. record { durable = h.durable; cancels = h.cancels }) t.task_id)
              u'
              (λ _ w'' u''. record {
                counted = record {
                  more_done = rw is;
                  all_counted = omega arith;
                  same_total = refl;
                };
                uncommitted = u'';
              })))
    | inr isnt ↦ rw isnt (record {
      counted = record {
        more_done = rw isnt (omega arith);
        all_counted = omega arith;
        same_total = refl;
      };
      uncommitted = u;
    })
  ]

  Counted-trans :
      (c c' c'' : BatchCount) (t : TaskExecution) (ts : List TaskExecution)
      → Counted c (t ∷ []) c'
      → Counted c' ts c''
      → Counted c (t ∷ ts) c''
  Counted-trans c c' c'' t ts h k = record {
    more_done = ground (arith, h.more_done, k.more_done);
    all_counted = omega (arith, h.all_counted, k.all_counted);
    same_total = k.same_total ∙ h.same_total;
  }

  cancel_each-Working :
      (c : BatchCount) (ts : List TaskExecution) (w : World)
      → All (λ t. row t.task_id before ≡ some t) ts
      → Uncommitted w
      → Post (cancel_each now c ts w) (Working c ts) Uncommitted
  unfolding cancel_each
  cancel_each-Working c [] w found u = record {
    counted = record { more_done = omega arith; all_counted = omega arith; same_total = refl };
    uncommitted = u;
  }
  cancel_each-Working c (t ∷ ts) w found u =
      Post-bind (Working c (t ∷ [])) (Working c (t ∷ ts)) Uncommitted (cancel_one now c t) _ w
        (cancel_one-Working c t w found.0 u)
        (λ c' w' k.
          Post-weaken (Working c' ts) (Working c (t ∷ ts)) Uncommitted Uncommitted
            (cancel_each now c' ts w') (cancel_each-Working c' ts w' found.1 k.uncommitted)
            (λ c'' w'' k'. record {
              counted = Counted-trans c c' c'' t ts k.counted k'.counted;
              uncommitted = k'.uncommitted;
            })
            (λ w'' h. h))

-- What each answer of `cancel_batch_tasks` says, of the durable rows before it and of those among
-- them that have the parent's id.
abbrev pub BatchReport :
    ℕ → List TaskExecution → List TaskExecution → Option BatchCount → World → Type 0
BatchReport now before children none w = w.committed ≡ before
BatchReport now before children (some c) w =
    (c.total ≡ length children)
    × (c.done ≡ count task_is_pending children)
    × (c.done + c.skipped ≡ c.total)
    × CancelsPending now before w.committed

module _ (tracer_id : String) (w₀ : World) (keyed : IsKeyed w₀.committed) where
  abbrev children : List TaskExecution
  children = select (λ t. t.parent_task_id == tracer_id) w₀.committed

  abbrev Report : Option BatchCount → World → Type 0
  Report = BatchReport w₀.clock w₀.committed children

  abbrev Spared : World → Type 0
  Spared w = CancelsPending w₀.clock w₀.committed w.committed

  pub record Started (w : World) : Type 0 where
    pub durable : w.committed ≡ w₀.committed
    pub fresh_session : w.session ≡ w₀.committed
    pub instant : w.clock ≡ w₀.clock

  unchanged : (w : World) → w.committed ≡ w₀.committed → Spared w
  unchanged w e = record { at = λ j. inl (rw e refl) }

  cancel_and_commit-Post :
      (t : TaskExecution) (ts : List TaskExecution) (w : World)
      → children ≡ t ∷ ts
      → Started w
      → Post (cancel_and_commit w₀.clock (t ∷ ts) w) Report Spared
  unfolding cancel_and_commit
  cancel_and_commit-Post t ts w e s =
      Post-bind (Working w₀.clock w₀.committed start (t ∷ ts)) Report Spared
        (cancel_each w₀.clock start (t ∷ ts)) _ w
        (Post-weaken (Working w₀.clock w₀.committed start (t ∷ ts))
          (Working w₀.clock w₀.committed start (t ∷ ts)) (Uncommitted w₀.clock w₀.committed) Spared
          (cancel_each w₀.clock start (t ∷ ts) w)
          (cancel_each-Working w₀.clock w₀.committed start (t ∷ ts) w
            (subst (All (λ t. row t.task_id w₀.committed ≡ some t)) e (
              All-select (λ t. row t.task_id w₀.committed ≡ some t)
                (λ t. t.parent_task_id == tracer_id) w₀.committed keyed))
            (record {
              durable = s.durable;
              cancels = record { at = λ j. inl (rw s.fresh_session refl) };
            }))
          (λ _ _ h. h) (λ w' u. unchanged w' u.durable))
        (λ c w' k.
          Post-bind (λ _. Spared) Report Spared commit _ w'
            (commit-Post w' (λ _. Spared) Spared (λ fs. k.uncommitted.cancels)
              (λ fs. unchanged w' k.uncommitted.durable))
            (λ _ w'' q. rw e (
              k.counted.same_total,
              k.counted.more_done ∙ zero-add _,
              omega (arith, k.counted.all_counted, k.counted.same_total),
              q,
            )))
    where
      start : BatchCount
      start = record { done = 0; skipped = 0; total = length (t ∷ ts) }

  cancel_batch_found-Post :
      (ts : List TaskExecution) (w : World)
      → (ts ≡ []) ⊎ (ts ≡ children)
      → Started w
      → Post (cancel_batch_found ts w) Report Spared
  unfolding cancel_batch_found
  cancel_batch_found-Post [] w a s = s.durable
  cancel_batch_found-Post (t ∷ ts) w (inl e) s = absurd (cc)
  cancel_batch_found-Post (t ∷ ts) w (inr e) s =
      Post-bind (λ _. Started) Report Spared get_redis_client _ w
        (Post-weaken (λ _. Started) (λ _. Started) Started Spared (get_redis_client w)
          (Post-Preserves Started get_redis_client w
            (get_redis_client-Preserves Started (λ _ _ _ h. record {
              durable = h.durable;
              fresh_session = h.fresh_session;
              instant = h.instant;
            }))
            s)
          (λ _ _ h. h) (λ w' h. unchanged w' h.durable))
        (λ _ w' s'.
          subst (λ now. Post (cancel_and_commit now (t ∷ ts) w') Report Spared) (sym s'.instant)
            (cancel_and_commit-Post t ts w' (sym e) s'))

  -- From a new session over keyed rows and whatever the stores do: a batch cancellation counts as
  -- done exactly the pending tasks of the batch and as skipped all others, together the total; a
  -- durable row that it changes was pending and has been cancelled, also where it raises; and where
  -- it answers "not found" no durable row has changed.
  pub cancel_batch_tasks-BatchReport :
      w₀.session ≡ w₀.committed
      → Post
          (cancel_batch_tasks tracer_id w₀)
          (BatchReport w₀.clock w₀.committed children)
          (λ w. CancelsPending w₀.clock w₀.committed w.committed)
  unfolding cancel_batch_tasks
  cancel_batch_tasks-BatchReport s =
      Post-bind Asked Report Spared (query_tasks_by_parent_id tracer_id) cancel_batch_found w₀
        (query_tasks_by_parent_id-Post tracer_id w₀ Asked Spared
          (λ fs. (inl refl, record { durable = refl; fresh_session = s; instant = refl }))
          (λ fs. (
            inr (ap (select (λ t. t.parent_task_id == tracer_id)) s),
            record { durable = refl; fresh_session = s; instant = refl },
          )))
        (λ ts w a. cancel_batch_found-Post ts w a.0 a.1)
    where
      Asked : List TaskExecution → World → Type 0
      Asked ts w = ((ts ≡ []) ⊎ (ts ≡ children)) × Started w
