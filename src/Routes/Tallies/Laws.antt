-- ===== src/Routes/Tallies/Laws.antt =====
-- The counts of a batch against its tasks, and the overall status against a description by tests of
-- the tasks.
use vanguard_runner.Base.{
  ℕ, ◌+◌, ◌≡◌, refl, ◌∙◌, String, Bool, true, false, not, ◌||◌, List, [], ◌∷◌, length, count, any,
  All, arith, ltb, nat_eq, ◌≤◌, length-take, take_all, count≤length, if◌then◌else◌,
}
use vanguard_runner.Model.{
  Status, pending, running, success, failed, timeout, cancelled, other, is_pending, is_running,
  TaskExecution,
}
use vanguard_runner.Routes.Tallies.{
  StatusCount, no_tasks, count_status, tally, completed, overall_status, batch_status, sum_counts,
}

abbrev pub is_success : Status → Bool
is_success success = true
is_success _ = false

abbrev pub is_failed : Status → Bool
is_failed failed = true
is_failed _ = false

abbrev pub is_timeout : Status → Bool
is_timeout timeout = true
is_timeout _ = false

abbrev pub is_cancelled : Status → Bool
is_cancelled cancelled = true
is_cancelled _ = false

abbrev pub is_known : Status → Bool
is_known (other s) = false
is_known _ = true

abbrev pub has : (Status → Bool) → TaskExecution → Bool
has p t = p t.status

-- The counts of a list of tasks, over what they start from.
abbrev pub counted_from : StatusCount → List TaskExecution → StatusCount
counted_from c ts = record {
  pendings = c.pendings + count (has is_pending) ts;
  runnings = c.runnings + count (has is_running) ts;
  successes = c.successes + count (has is_success) ts;
  failures = c.failures + count (has is_failed) ts;
  timeouts = c.timeouts + count (has is_timeout) ts;
  cancellations = c.cancellations + count (has is_cancelled) ts;
}

count_next :
    (c : StatusCount) (s : Status) (t : TaskExecution) (ts : List TaskExecution)
    → t.status ≡ s
    → counted_from (count_status c s) ts ≡ counted_from c (t ∷ ts)
unfolding count_status
count_next c pending t ts e = rw e (ground arith)
count_next c running t ts e = rw e (ground arith)
count_next c success t ts e = rw e (ground arith)
count_next c failed t ts e = rw e (ground arith)
count_next c timeout t ts e = rw e (ground arith)
count_next c cancelled t ts e = rw e (ground arith)
count_next c (other s) t ts e = rw e (ground arith)

tally-counted_from : (c : StatusCount) (ts : List TaskExecution) → tally c ts ≡ counted_from c ts
unfolding tally
tally-counted_from c [] = ground arith
tally-counted_from c (t ∷ ts) =
    tally-counted_from (count_status c t.status) ts ∙ count_next c t.status t ts refl

any-count : (p : TaskExecution → Bool) (ts : List TaskExecution) → ltb 0 (count p ts) ≡ any p ts
any-count p [] = refl
any-count p (t ∷ ts) = ground (arith, any-count p ts)

known_next :
    (s : Status) (t : TaskExecution) (ts : List TaskExecution)
    → t.status ≡ s
    → is_known s ≡ true
    → sum_counts (counted_from no_tasks ts) ≡ length ts
    → sum_counts (counted_from no_tasks (t ∷ ts)) ≡ length (t ∷ ts)
known_next pending t ts e k h = rw e (omega (arith, h))
known_next running t ts e k h = rw e (omega (arith, h))
known_next success t ts e k h = rw e (omega (arith, h))
known_next failed t ts e k h = rw e (omega (arith, h))
known_next timeout t ts e k h = rw e (omega (arith, h))
known_next cancelled t ts e k h = rw e (omega (arith, h))
known_next (other s) t ts e k h = ground arith

known-sum :
    (ts : List TaskExecution)
    → All (λ t. is_known t.status ≡ true) ts
    → sum_counts (counted_from no_tasks ts) ≡ length ts
known-sum [] h = refl
known-sum (t ∷ ts) h = known_next t.status t ts refl h.0 (known-sum ts h.1)

abbrev pub counted : List TaskExecution → StatusCount
counted ts = record {
  pendings = count (has is_pending) ts;
  runnings = count (has is_running) ts;
  successes = count (has is_success) ts;
  failures = count (has is_failed) ts;
  timeouts = count (has is_timeout) ts;
  cancellations = count (has is_cancelled) ts;
}

tally-counted : (ts : List TaskExecution) → tally no_tasks ts ≡ counted ts
tally-counted ts = tally-counted_from no_tasks ts ∙ ground arith

-- The overall status, by tests of the tasks alone.
abbrev pub described_status : List TaskExecution → String
described_status ts =
    if any (has is_running) ts || any (has is_pending) ts
    then "running"
    else if not (any (λ t. not (is_cancelled t.status)) ts)
    then "cancelled"
    else if any (has is_failed) ts || any (has is_timeout) ts
    then if any (has is_success) ts || any (has is_cancelled) ts
      then "completed_with_errors"
      else "failed"
    else if any (has is_cancelled) ts
    then "completed_with_cancellations"
    else "success"

all-count :
    (ts : List TaskExecution)
    → nat_eq (count (has is_cancelled) ts) (length ts)
      ≡ not (any (λ t. not (is_cancelled t.status)) ts)
all-count [] = refl
all-count (t ∷ ts) = ground (arith, all-count ts, count≤length (has is_cancelled) ts)

module _ (a b c d e f n : ℕ) (sum : a + b + c + d + e + f ≡ n) where
  -- the status by the counts, whose last test but one is never false
  overall_counts :
      overall_status
        (record {
          pendings = a;
          runnings = b;
          successes = c;
          failures = d;
          timeouts = e;
          cancellations = f;
        })
        n
      ≡ (if ltb 0 b || ltb 0 a
          then "running"
          else if nat_eq f n
          then "cancelled"
          else if ltb 0 d || ltb 0 e
          then if ltb 0 c || ltb 0 f then "completed_with_errors" else "failed"
          else if ltb 0 f
          then "completed_with_cancellations"
          else "success")
  unfolding overall_status
  overall_counts = ground arith

pub overall_status-described :
    (ts : List TaskExecution)
    → All (λ t. is_known t.status ≡ true) ts
    → overall_status (tally no_tasks ts) (length ts) ≡ described_status ts
overall_status-described ts k =
    rw
      (
        tally-counted ts,
        ← any-count (has is_running) ts,
        ← any-count (has is_pending) ts,
        ← any-count (has is_failed) ts,
        ← any-count (has is_timeout) ts,
        ← any-count (has is_success) ts,
        ← any-count (has is_cancelled) ts,
        ← all-count ts,
      )
      (overall_counts (count (has is_pending) ts) (count (has is_running) ts)
        (count (has is_success) ts) (count (has is_failed) ts) (count (has is_timeout) ts)
        (count (has is_cancelled) ts) (length ts) (omega (arith, known-sum ts k)))

-- What the reply for a batch says.
pub record Described (ts : List TaskExecution) : Type 0 where
  pub overall : (batch_status ts).overall ≡ described_status ts
  pub all_counted :
      (batch_status ts).done + count (has is_pending) ts + count (has is_running) ts ≡ length ts
  pub first_hundred : length (batch_status ts).tasks ≤ 100
  pub rest : (batch_status ts).has_more ≡ false → (batch_status ts).tasks ≡ ts

-- Where every task has one of the six statuses: the overall status of a batch is the one that tests
-- of its tasks describe, its `completed` count and the pending and running tasks make up the total,
-- and the tasks shown are at most a hundred, and all of them where `has_more` is false.
pub batch_status-Described :
    (ts : List TaskExecution) → All (λ t. is_known t.status ≡ true) ts → Described ts
unfolding batch_status completed
batch_status-Described ts k = record {
  overall = overall_status-described ts k;
  all_counted = rw (tally-counted ts) (omega (arith, known-sum ts k));
  first_hundred = omega (arith, length-take 100 ts);
  rest = λ h. take_all 100 ts (ground arith);
}
