-- ===== src/Routes/Stream/Ending.antt =====
-- How the stream of a workflow's events ends.
use vanguard_runner.Base.{
  ℕ, ◌+◌, ◌≡◌, refl, Bool, true, false, Option, none, some, List, [], ◌∷◌, ◌++◌, map, count, take,
  arith, Bool-cases, inl, inr, if◌then◌else◌,
}
use native.Mathlib.Nat.{zero-add}
use vanguard_runner.Model.{Status, running, success, failed, timeout}
use vanguard_runner.Routes.Stream.{
  Step, Poll, nothing, snapshot, raises, Event, workflow_end, workflow_start, node_end, Seen,
  nothing_seen, Tick, changed_status, changed, is_terminal, is_running_status, all_done,
  step_events, tick_steps, tick_progress, tick, stream_from, stream_workflow_status, max_polls,
}

abbrev pub is_end : Event → Bool
is_end (workflow_end s) = true
is_end _ = false

-- whether a terminal status is polled before an exception
abbrev pub reaches_end : List Poll → Bool
reaches_end [] = false
reaches_end (nothing ∷ ps) = reaches_end ps
reaches_end (raises e ∷ ps) = false
reaches_end (snapshot s n digest steps ∷ ps) = if is_terminal s then true else reaches_end ps

abbrev pub once : Bool → ℕ
once b = if b then 1 else 0

abbrev terminal_before : Option Status → Bool
terminal_before none = false
terminal_before (some s) = is_terminal s

count-append : (xs ys : List Event) → count is_end (xs ++ ys) ≡ count is_end xs + count is_end ys
count-append [] ys = omega arith
count-append (x ∷ xs) ys = ground (arith, count-append xs ys)

count-nodes : (xs : List Step) → count is_end (map node_end xs) ≡ 0
count-nodes [] = refl
count-nodes (x ∷ xs) = count-nodes xs

-- What a poll with a status that is not terminal does.
record Quiet (t : Tick) : Type 0 where
  no_end : count is_end t.events ≡ 0
  on : t.goes_on ≡ true
  before : terminal_before t.seen.last_status ≡ false

not_done : (s : Status) (steps : List Step) → is_terminal s ≡ false → all_done s steps ≡ false
not_done success steps h = ground arith
not_done failed steps h = ground arith
not_done timeout steps h = ground arith
not_done Status.pending steps h = ground arith
not_done running steps h = ground arith
not_done Status.cancelled steps h = ground arith
not_done (Status.other s) steps h = ground arith

tick_steps-Quiet :
    (seen : Seen) (s : Status) (n digest : ℕ) (steps : List Step)
    → is_terminal s ≡ false
    → terminal_before seen.last_status ≡ false
    → Quiet (tick_steps seen s n digest steps)
unfolding tick_steps step_events
tick_steps-Quiet seen s n digest [] h b = record { no_end = refl; on = refl; before = b }
tick_steps-Quiet seen s n digest (x ∷ xs) h b = rw (not_done s (x ∷ xs) h) (record {
  no_end = elim (Bool-cases (changed seen.last_hash digest)) [
    | inl e ↦ rw (e, count-append, count-append, count-nodes) refl
    | inr e ↦ rw e refl
  ];
  on = refl;
  before = ground (arith, b);
})

tick_progress-Quiet :
    (seen : Seen) (s : Status) (n digest : ℕ) (steps : List Step) (before : List Event)
    → is_terminal s ≡ false
    → terminal_before seen.last_status ≡ false
    → count is_end before ≡ 0
    → Quiet (tick_progress seen s n digest steps before)
unfolding tick_progress
tick_progress-Quiet seen s n digest steps before h b z =
    let q = tick_steps-Quiet (record seen { last_progress = some n }) s n digest steps h b in
    record {
      no_end = rw (count-append, count-append, q.no_end, z) (ground arith);
      on = q.on;
      before = q.before;
    }

tick-Quiet :
    (seen : Seen) (s : Status) (n digest : ℕ) (steps : List Step)
    → is_terminal s ≡ false
    → terminal_before seen.last_status ≡ false
    → Quiet (tick seen s n digest steps)
unfolding tick
tick-Quiet seen s n digest steps h b = elim (Bool-cases (changed_status seen.last_status s)) [
  | inl c ↦ rw c (elim (Bool-cases (is_running_status s)) [
    | inl r ↦ rw r (
        tick_progress-Quiet (record seen { last_status = some s }) s n digest steps
          (workflow_start ∷ []) h h refl)
    | inr r ↦
        rw (r, h)
          (tick_progress-Quiet (record seen { last_status = some s }) s n digest steps [] h h refl)
  ])
  | inr c ↦ rw c (tick_progress-Quiet seen s n digest steps [] h b refl)
]

changed-terminal :
    (o : Option Status) (s : Status)
    → is_terminal s ≡ true
    → terminal_before o ≡ false
    → changed_status o s ≡ true
changed-terminal none s h b = refl
changed-terminal (some success) s h b = ground arith
changed-terminal (some failed) s h b = ground arith
changed-terminal (some timeout) s h b = ground arith
changed-terminal (some t) success h b = ground arith
changed-terminal (some t) failed h b = ground arith
changed-terminal (some t) timeout h b = ground arith
changed-terminal (some t) Status.pending h b = ground arith
changed-terminal (some t) running h b = ground arith
changed-terminal (some t) Status.cancelled h b = ground arith
changed-terminal (some t) (Status.other r) h b = ground arith

not_running : (s : Status) → is_terminal s ≡ true → is_running_status s ≡ false
not_running success h = refl
not_running failed h = refl
not_running timeout h = refl
not_running running h = ground arith
not_running Status.pending h = ground arith
not_running Status.cancelled h = ground arith
not_running (Status.other r) h = ground arith

tick-terminal :
    (seen : Seen) (s : Status) (n digest : ℕ) (steps : List Step)
    → is_terminal s ≡ true
    → terminal_before seen.last_status ≡ false
    → tick seen s n digest steps
      ≡ record { events = workflow_end s ∷ []; seen = seen; goes_on = false }
unfolding tick
tick-terminal seen s n digest steps h b =
    rw (changed-terminal seen.last_status s h b, not_running s h, h) refl

stream_from-once :
    (seen : Seen) (ps : List Poll)
    → terminal_before seen.last_status ≡ false
    → count is_end (stream_from seen ps) ≡ once (reaches_end ps)
unfolding stream_from
stream_from-once seen [] b = refl
stream_from-once seen (nothing ∷ ps) b = stream_from-once seen ps b
stream_from-once seen (raises e ∷ ps) b = refl
stream_from-once seen (snapshot s n digest steps ∷ ps) b = elim (Bool-cases (is_terminal s)) [
  | inl h ↦ rw (tick-terminal seen s n digest steps h b, h) refl
  | inr h ↦
      let q = tick-Quiet seen s n digest steps h b in
      let later = stream_from-once (tick seen s n digest steps).seen ps q.before in
      rw (h, count-append, q.no_end, q.on, later) (zero-add _)
]

-- A stream tells the end of the workflow exactly once where one of its first 7200 polls, before
-- Redis raises, gives `success`, `failed` or `timeout`, and otherwise never.
pub stream_workflow_status-once :
    (polls : List Poll)
    → count is_end (stream_workflow_status polls) ≡ once (reaches_end (take max_polls polls))
unfolding stream_workflow_status
stream_workflow_status-once polls = stream_from-once nothing_seen (take max_polls polls) refl
