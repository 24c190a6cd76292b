-- ===== src/Kafka/Batch.antt =====
-- `send_tasks_batch`: its counts and details against the tasks and what Kafka acknowledged.
use mathlib.Core.List.{append-nil, append_assoc, map-append}
use vanguard_runner.Base.{
  ◌+◌, ◌≡◌, refl, sym, Bool, Option, none, some, List, [], ◌∷◌, ◌++◌, map, arith, length, select,
  count, String, length-append,
}
use vanguard_runner.Model.{World, Exception, TaskMessage}
use vanguard_runner.Kafka.{
  TaskInfo, Detail, SendResult, send_one, send_each, send_tasks_batch, nothing_sent, message_for,
  add_success, add_failure,
}
use vanguard_runner.Model.Post.{Returns, Post-bind}

abbrev pub detail_id : Detail → String
detail_id d = d.task_id

abbrev pub is_delivered : Detail → Bool
is_delivered d = d.delivered

abbrev pub message_id : TaskMessage → String
message_id m = m.task_id

abbrev pub info_id : TaskInfo → String
info_id t = t.task_id

-- What a result says of the tasks handled so far, in a world that began with `base` acknowledged.
pub record Accounts (base tasks : List String) (r : SendResult) (w : World) : Type 0 where
  pub total : r.success + r.failed ≡ length tasks
  pub all_named : map detail_id r.details ≡ tasks
  pub successes : r.success ≡ count is_delivered r.details
  pub acknowledged : map message_id w.sent ≡ base ++ map detail_id (select is_delivered r.details)

module _ {A : Type 0} where
  select-append : (p : A → Bool) (xs ys : List A) → select p (xs ++ ys) ≡ select p xs ++ select p ys
  select-append p [] ys = refl
  select-append p (x ∷ xs) ys = ground (arith, select-append p xs ys)

  count-append : (p : A → Bool) (xs ys : List A) → count p (xs ++ ys) ≡ count p xs + count p ys
  count-append p [] ys = omega arith
  count-append p (x ∷ xs) ys = ground (arith, count-append p xs ys)

module _ (base done : List String) (r : SendResult) (w : World) (h : Accounts base done r w) where
  Accounts-success :
      (m : TaskMessage) (fs : List (Option String))
      → Accounts base
          (done ++ m.task_id ∷ [])
          (add_success r m)
          (record w { sent = w.sent ++ m ∷ []; faults = fs })
  Accounts-success m fs = record {
    total = omega (arith, length-append done (m.task_id ∷ []), h.total);
    all_named = simp (map-append, h.all_named);
    successes = simp count-append (omega (arith, h.successes));
    acknowledged = simp (map-append, select-append, h.acknowledged, append_assoc);
  }

  Accounts-failure :
      (m : TaskMessage) (e : Exception) (fs : List (Option String))
      → Accounts base (done ++ m.task_id ∷ []) (add_failure r m e) (record w { faults = fs })
  Accounts-failure m e fs = record {
    total = omega (arith, length-append done (m.task_id ∷ []), h.total);
    all_named = simp (map-append, h.all_named);
    successes = simp count-append (omega (arith, h.successes));
    acknowledged = simp (select-append, h.acknowledged, append-nil);
  }

module _ (base done : List String) (r : SendResult) (t : TaskInfo) where
  -- One entry is handled, and is delivered exactly if the broker did not raise.
  send_one-Accounts :
      (w : World) (fs : List (Option String))
      → Accounts base done r w
      → Returns (send_one r t (record w { faults = fs })) (Accounts base (done ++ t.task_id ∷ []))
  unfolding send_one message_for
  send_one-Accounts w [] h = Accounts-success base done r w h (message_for t w.clock) []
  send_one-Accounts w (none ∷ fs) h = Accounts-success base done r w h (message_for t w.clock) fs
  send_one-Accounts w (some s ∷ fs) h =
      Accounts-failure base done r w h (message_for t w.clock) (Exception.fault s) fs

module _ (base : List String) where
  send_each-Accounts :
      (ts : List TaskInfo) (done : List String) (r : SendResult) (w : World)
      → Accounts base done r w
      → Returns (send_each r ts w) (Accounts base (done ++ map info_id ts))
  unfolding send_each
  send_each-Accounts [] done r w h = rw append-nil h
  send_each-Accounts (t ∷ ts) done r w h =
      Post-bind (Accounts base (done ++ t.task_id ∷ []))
        (Accounts base (done ++ map info_id (t ∷ ts))) (λ w. ⊥) (send_one r t)
        (λ r'. send_each r' ts) w (send_one-Accounts base done r t w w.faults h)
        (λ r' w' k.
          rw (← append_assoc done (t.task_id ∷ []) (map info_id ts))
            (send_each-Accounts ts (done ++ t.task_id ∷ []) r' w' k))

-- Whatever the broker does, `send_tasks_batch` returns; its details name the tasks in their order,
-- `success` and `failed` add up to their number, and Kafka has acknowledged, after what it had
-- before, exactly the tasks that the details call delivered.
pub send_tasks_batch-Accounts :
    (tasks : List TaskInfo) (w : World)
    → Returns (send_tasks_batch tasks w) (Accounts (map message_id w.sent) (map info_id tasks))
unfolding send_tasks_batch
send_tasks_batch-Accounts tasks w =
    send_each-Accounts (map message_id w.sent) tasks [] nothing_sent w (record {
      total = refl;
      all_named = refl;
      successes = refl;
      acknowledged = sym (append-nil (map message_id w.sent));
    })
