-- ===== src/Kafka/Messages.antt =====
-- Which messages `send_tasks_batch` (packages/shared/infrastructure/kafka_producer.py) gives Kafka, as
-- a part of the tasks in their order.
use mathlib.Core.List.{append-nil, append_assoc}
use vanguard_runner.Base.{
  ℕ, ◌+◌, ◌≡◌, refl, sym, ap, ◌∙◌, length-append, Bool, true, false, Option, none, some, List, [],
  ◌∷◌, ◌++◌, map, length, select, arith, String, if◌then◌else◌,
}
use vanguard_runner.Model.{World, TaskMessage}
use vanguard_runner.Model.Post.{Returns, Post-bind, Post-weaken}
use vanguard_runner.Kafka.{
  TaskInfo, SendResult, send_one, send_each, send_tasks_batch, nothing_sent, message_for,
}

-- The second list belongs to a part of the first, one by one and in its order.
pub data Part {A B : Type 0} (R : A → B → Type 0) : List A → List B → Type 0 where
  ended : Part R [] []
  left_out : {a : A} {xs : List A} {ys : List B} → Part R xs ys → Part R (a ∷ xs) ys
  taken :
      {a : A} {b : B} {xs : List A} {ys : List B} → R a b → Part R xs ys → Part R (a ∷ xs) (b ∷ ys)

module _ {A B C : Type 0} (f : A → C) (R : C → B → Type 0) (S : A → B → Type 0)
    (h : (a : A) (b : B) → R (f a) b → S a b) where
  pub Part-map : (xs : List A) (ys : List B) → Part R (map f xs) ys → Part S xs ys
  Part-map [] [] ended = ended
  Part-map [] (y ∷ ys) p = elim p [ ]
  Part-map (x ∷ xs) ys (left_out p) = left_out (Part-map xs ys p)
  Part-map (x ∷ xs) (y ∷ ys) (taken r p) = taken (h x y r) (Part-map xs ys p)

module _ {A B : Type 0} (p : A → Bool) (R S : A → B → Type 0)
    (h : (a : A) (b : B) → p a ≡ true → R a b → S a b) where
  taken_if :
      (x : A) (b : Bool) (xs rest : List A) (ys : List B)
      → p x ≡ b
      → ((zs : List B) → Part R rest zs → Part S xs zs)
      → Part R (if b then x ∷ rest else rest) ys
      → Part S (x ∷ xs) ys
  taken_if x true xs rest ys e f (left_out q) = left_out (f ys q)
  taken_if x true xs rest (y ∷ ys) e f (taken r q) = taken (h x y e r) (f ys q)
  taken_if x false xs rest ys e f q = left_out (f ys q)

  pub Part-select : (xs : List A) (ys : List B) → Part R (select p xs) ys → Part S xs ys
  Part-select [] [] ended = ended
  Part-select [] (y ∷ ys) q = elim q [ ]
  Part-select (x ∷ xs) ys q = taken_if x (p x) xs (select p xs) ys refl (Part-select xs) q

-- The message of a task, made at some time.
abbrev pub MessageOf : TaskInfo → TaskMessage → Type 0
MessageOf t m = (now : ℕ) × (m ≡ message_for t now)

-- What sending some tasks adds to the acknowledged messages and to the counts.
pub record Sends (ts : List TaskInfo) (r : SendResult) (w : World) (r' : SendResult) (w' : World)
    : Type 0 where
  pub messages : List TaskMessage
  pub acknowledged : w'.sent ≡ w.sent ++ messages
  pub for_tasks : Part MessageOf ts messages
  pub successes : r'.success ≡ r.success + length messages
  pub total : r'.success + r'.failed ≡ r.success + r.failed + length ts

module _ (r : SendResult) (t : TaskInfo) where
  send_one-Sends :
      (w : World) (fs : List (Option String))
      → Returns (send_one r t (record w { faults = fs })) (Sends (t ∷ []) r w)
  unfolding send_one
  send_one-Sends w [] = record {
    messages = message_for t w.clock ∷ [];
    acknowledged = refl;
    for_tasks = taken (w.clock, refl) ended;
    successes = omega arith;
    total = omega arith;
  }
  send_one-Sends w (none ∷ fs) = record {
    messages = message_for t w.clock ∷ [];
    acknowledged = refl;
    for_tasks = taken (w.clock, refl) ended;
    successes = omega arith;
    total = omega arith;
  }
  send_one-Sends w (some e ∷ fs) = record {
    messages = [];
    acknowledged = sym (append-nil w.sent);
    for_tasks = left_out ended;
    successes = omega arith;
    total = omega arith;
  }

  Sends-cons :
      (ts : List TaskInfo) (w w1 w2 : World) (r1 r2 : SendResult)
      → Sends (t ∷ []) r w r1 w1
      → Sends ts r1 w1 r2 w2
      → Sends (t ∷ ts) r w r2 w2
  Sends-cons ts w w1 w2 r1 r2 a b = record {
    messages = a.messages ++ b.messages;
    acknowledged =
        b.acknowledged
        ∙ (ap (λ ms. ms ++ b.messages) a.acknowledged ∙ append_assoc w.sent a.messages b.messages);
    for_tasks = Part-cons a.messages b.messages a.for_tasks b.for_tasks;
    successes = omega (arith, a.successes, b.successes, length-append a.messages b.messages);
    total = omega (arith, a.total, b.total);
  }
    where
      Part-cons :
          (xs ys : List TaskMessage)
          → Part MessageOf (t ∷ []) xs
          → Part MessageOf ts ys
          → Part MessageOf (t ∷ ts) (xs ++ ys)
      Part-cons [] ys (left_out ended) q = left_out q
      Part-cons (x ∷ []) ys (taken m ended) q = taken m q
      Part-cons (x ∷ []) ys (left_out p) q = elim p [ ]
      Part-cons (x ∷ y ∷ xs) ys (left_out p) q = elim p [ ]
      Part-cons (x ∷ y ∷ xs) ys (taken m p) q = elim p [ ]

send_each-Sends :
    (ts : List TaskInfo) (r : SendResult) (w : World) → Returns (send_each r ts w) (Sends ts r w)
unfolding send_each
send_each-Sends [] r w = record {
  messages = [];
  acknowledged = sym (append-nil w.sent);
  for_tasks = ended;
  successes = omega arith;
  total = omega arith;
}
send_each-Sends (t ∷ ts) r w =
    Post-bind (Sends (t ∷ []) r w) (Sends (t ∷ ts) r w) (λ v. ⊥) (send_one r t)
      (λ r'. send_each r' ts) w (send_one-Sends r t w w.faults)
      (λ r1 w1 a.
        Post-weaken (Sends ts r1 w1) (Sends (t ∷ ts) r w) (λ v. ⊥) (λ v. ⊥) (send_each r1 ts w1)
          (send_each-Sends ts r1 w1) (λ r2 w2 b. Sends-cons r t ts w w1 w2 r1 r2 a b) (λ v b. b))

pub send_tasks_batch-Sends :
    (ts : List TaskInfo) (w : World) → Returns (send_tasks_batch ts w) (Sends ts nothing_sent w)
unfolding send_tasks_batch
send_tasks_batch-Sends ts w = send_each-Sends ts nothing_sent w
