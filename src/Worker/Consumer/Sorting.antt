-- ===== src/Worker/Consumer/Sorting.antt =====
-- Which tasks a poll starts, which messages it marks, and the offsets that follow the marked ones
-- (apps/worker/runtime/main.py).
use vanguard_runner.Base.{
  ◌+◌, ◌≡◌, refl, sym, ap, ◌∙◌, String, ◌==◌, Bool, true, false, inl, inr, Option, none, some, List,
  [], ◌∷◌, ◌++◌, Bool-cases, if◌then◌else◌,
}
use mathlib.Core.Path.{subst}
use mathlib.Core.List.{append_assoc}
use vanguard_runner.Model.{Offset, World, pure, try_except}
use vanguard_runner.Model.Post.{Returns, Post-bind}
use vanguard_runner.Worker.Execution.{TaskData}
use vanguard_runner.Worker.Slots.{status_of, read_status, is_claimed_already}
use vanguard_runner.Worker.Consumer.{
  Polled, Verdict, started, skipped, judge_decoded, judge_message, Sorted, sort_one, sort_messages,
  sort_partitions, last, offsets_of, tasks_of_round,
}

-- A call of a store or of the broker fails at some time.
abbrev pub Fails : World → Type 0
Fails w =
    (before : List (Option String)) × ((e : String) × ((later : List (Option String)) × (w.faults
          ≡ before ++ (some e ∷ later))))

-- A task that a message may start: decoded from it, a workflow, and not claimed in Redis.
pub record MayStart (w : World) (m : Polled) (d : TaskData) : Type 0 where
  pub decodes : m.decoded ≡ some d
  pub is_workflow : d.task_type == "workflow" ≡ true
  pub unclaimed : is_claimed_already (status_of (w.redis d.task_id)) ≡ false

-- Why a message is marked for the commit instead.
pub data MayMark (w : World) (m : Polled) : Type 0 where
  undecoded : m.decoded ≡ none → MayMark w m
  no_workflow :
      {d : TaskData} → m.decoded ≡ some d → d.task_type == "workflow" ≡ false → MayMark w m
  claimed :
      {d : TaskData}
      → m.decoded ≡ some d
      → is_claimed_already (status_of (w.redis d.task_id)) ≡ true
      → MayMark w m
  unread : Fails w → MayMark w m

-- The messages of a partition, the tasks that they start, and the messages that are marked, each in
-- the order of the messages.
pub data Sorts (w : World) : List Polled → List (Polled × TaskData) → List Polled → Type 0 where
  no_message : Sorts w [] [] []
  starts :
      {m : Polled} {d : TaskData} {ms ks : List Polled} {ts : List (Polled × TaskData)}
      → MayStart w m d
      → Sorts w ms ts ks
      → Sorts w (m ∷ ms) ((m, d) ∷ ts) ks
  marks :
      {m : Polled} {ms ks : List Polled} {ts : List (Polled × TaskData)}
      → MayMark w m
      → Sorts w ms ts ks
      → Sorts w (m ∷ ms) ts (m ∷ ks)

-- The partitions of a poll, the tasks that they start, and for each partition with a marked message
-- the offset that follows its last one.
pub data Polls (w : World)
    : List (List Polled) → List (Polled × TaskData) → List Offset → Type 0 where
  no_partition : Polls w [] [] []
  unmarked :
      {ms : List Polled} {ts us : List (Polled × TaskData)} {ps : List (List Polled)}
      {os : List Offset}
      → Sorts w ms ts []
      → Polls w ps us os
      → Polls w (ms ∷ ps) (ts ++ us) os
  marked :
      {ms : List Polled} {ts us : List (Polled × TaskData)} {ps : List (List Polled)}
      {os : List Offset} (before : List Polled) (m : Polled)
      → Sorts w ms ts (before ++ (m ∷ []))
      → Polls w ps us os
      → Polls w (ms ∷ ps) (ts ++ us) (
          record {
            topic = m.received.topic;
            partition = m.received.partition;
            position = m.received.offset + 1;
          }
          ∷ os)

-- A world where some of the faults to come have passed.
abbrev pub Behind : World → List (Option String) → Type 0
Behind w fs = (before : List (Option String)) × (w.faults ≡ before ++ fs)

pub Behind-next :
    (w : World) (f : Option String) (fs : List (Option String)) → Behind w (f ∷ fs) → Behind w fs
Behind-next w f fs (before, e) = (before ++ (f ∷ []), e ∙ sym (append_assoc before (f ∷ []) fs))

-- Nothing but the schedule of faults has changed.
abbrev pub Unmoved : World → World → Type 0
Unmoved w w' = (fs : List (Option String)) × ((w' ≡ record w { faults = fs }) × Behind w fs)

abbrev Judged : World → Polled → Verdict → Type 0
Judged w m (started d) = MayStart w m d
Judged w m skipped = MayMark w m

abbrev verdict_for : TaskData → Bool → Verdict
verdict_for d b = if b then skipped else started d

module _ (w : World) where
  module _ (m : Polled) where
    Judged-for :
        (d : TaskData)
        → m.decoded ≡ some d
        → d.task_type == "workflow" ≡ true
        → (b : Bool) → is_claimed_already (status_of (w.redis d.task_id)) ≡ b
        → Judged w m (verdict_for d b)
    Judged-for d e f true g = claimed e g
    Judged-for d e f false g = record { decodes = e; is_workflow = f; unclaimed = g }

    abbrev Judgement : Verdict → World → Type 0
    Judgement v w' = Judged w m v × Unmoved w w'

    judge_some :
        (d : TaskData) (fs : List (Option String))
        → Behind w fs
        → m.decoded ≡ some d
        → d.task_type == "workflow" ≡ true
        → Returns
            (try_except (judge_decoded (some d)) (λ _. pure skipped) (record w { faults = fs }))
            Judgement
    unfolding judge_decoded read_status
    judge_some d [] b e f = rw f (Judged-for d e f _ refl, ([], (refl, b)))
    judge_some d (none ∷ fs) b e f =
        rw f (Judged-for d e f _ refl, (fs, (refl, Behind-next w none fs b)))
    judge_some d (some x ∷ fs) b e f =
        rw f (unread (b.0, (x, (fs, b.1))), (fs, (refl, Behind-next w (some x) fs b)))

    judge_as :
        (o : Option TaskData) (fs : List (Option String))
        → Behind w fs
        → m.decoded ≡ o
        → Returns
            (try_except (judge_decoded o) (λ _. pure skipped) (record w { faults = fs }))
            Judgement
    unfolding judge_decoded
    judge_as none fs b e = (undecoded e, (fs, (refl, b)))
    judge_as (some d) fs b e = elim (Bool-cases (d.task_type == "workflow")) [
      | inl f ↦ judge_some d fs b e f
      | inr f ↦ rw f (no_workflow e f, (fs, (refl, b)))
    ]

    judge_message-Judged : (v : World) → Unmoved w v → Returns (judge_message m v) Judgement
    unfolding judge_message
    judge_message-Judged v (fs, (e, b)) =
        subst (λ u. Returns (judge_message m u) Judgement) (sym e) (judge_as m.decoded fs b refl)

  abbrev SortsOut : List Polled → Sorted → World → Type 0
  SortsOut ms s w' = Sorts w ms s.tasks s.marked × Unmoved w w'

  sort_one-Sorts :
      (m : Polled) (v : Verdict) (ms : List Polled) (s : Sorted)
      → Judged w m v
      → Sorts w ms s.tasks s.marked
      → Sorts w (m ∷ ms) (sort_one m v s).tasks (sort_one m v s).marked
  sort_one-Sorts m (started d) ms s j h = starts j h
  sort_one-Sorts m skipped ms s j h = marks j h

  sort_messages-SortsOut :
      (ms : List Polled) (v : World) → Unmoved w v → Returns (sort_messages ms v) (SortsOut ms)
  unfolding sort_messages
  sort_messages-SortsOut [] v u = (no_message, u)
  sort_messages-SortsOut (m ∷ ms) v u =
      Post-bind (Judgement m) (SortsOut (m ∷ ms)) (λ x. ⊥) (judge_message m) _ v
        (judge_message-Judged m v u)
        (λ k v1 j.
          Post-bind (SortsOut ms) (SortsOut (m ∷ ms)) (λ x. ⊥) (sort_messages ms) _ v1
            (sort_messages-SortsOut ms v1 j.1) (λ s v2 h. (sort_one-Sorts m k ms s j.0 h.0, h.1)))

  -- the last of the marked messages
  last_of :
      (m : Polled) (ms : List Polled)
      → (before : List Polled) × ((l : Polled) × ((m ∷ ms ≡ before ++ (l ∷ []))
            × (last (m ∷ ms) ≡ some l)))
  last_of m [] = ([], (m, (refl, refl)))
  last_of m (n ∷ ms) =
      let (before, (l, (e, f))) = last_of n ms in (m ∷ before, (l, (ap (λ ks. m ∷ ks) e, f)))

  Polls-cons :
      (ms ks : List Polled) (s : Sorted) (ps : List (List Polled)) (ss : List Sorted)
      → s.marked ≡ ks
      → Sorts w ms s.tasks ks
      → Polls w ps (tasks_of_round ss) (offsets_of ss)
      → Polls w (ms ∷ ps) (tasks_of_round (s ∷ ss)) (offsets_of (s ∷ ss))
  Polls-cons ms [] s ps ss e h p = rw e (unmarked h p)
  Polls-cons ms (k ∷ ks) s ps ss e h p =
      let (before, (l, (f, g))) = last_of k ks in
      rw (e, g) (marked before l (subst (λ xs. Sorts w ms s.tasks xs) f h) p)

  abbrev pub PollsSorted : List (List Polled) → List Sorted → World → Type 0
  PollsSorted ps ss w' = Polls w ps (tasks_of_round ss) (offsets_of ss) × Unmoved w w'

  pub sort_partitions-Polls :
      (ps : List (List Polled)) (v : World)
      → Unmoved w v
      → Returns (sort_partitions ps v) (PollsSorted ps)
  unfolding sort_partitions
  sort_partitions-Polls [] v u = (no_partition, u)
  sort_partitions-Polls (ms ∷ ps) v u =
      Post-bind (SortsOut ms) (PollsSorted (ms ∷ ps)) (λ x. ⊥) (sort_messages ms) _ v
        (sort_messages-SortsOut ms v u)
        (λ s v1 h.
          Post-bind (PollsSorted ps) (PollsSorted (ms ∷ ps)) (λ x. ⊥) (sort_partitions ps) _ v1
            (sort_partitions-Polls ps v1 h.1)
            (λ ss v2 k. (Polls-cons ms s.marked s ps ss refl h.0 k.0, k.1)))
