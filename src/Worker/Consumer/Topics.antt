-- ===== src/Worker/Consumer/Topics.antt =====
-- The topics that the producer chooses and those that the Worker reads.
use vanguard_runner.Base.{ℕ, String, Bool, true, false, ◌==◌, ◌≡◌, refl, any, Bool-cases, inl, inr}
use vanguard_runner.Kafka.{TaskInfo, get_topic, message_for}
use vanguard_runner.Worker.Consumer.{topics}

abbrev pub is_read : String → Bool
is_read topic = any (λ k. k == topic) topics

get_topic-is_read : (priority : String) (b : Bool) → is_read (get_topic priority b) ≡ b
unfolding get_topic
get_topic-is_read priority true = elim (Bool-cases (priority == "urgent")) [
  | inl e ↦ rw e refl
  | inr e ↦ elim (Bool-cases (priority == "high")) [
    | inl f ↦ rw (e, f) refl
    | inr f ↦ rw (e, f) refl
  ]
]
get_topic-is_read priority false = elim (Bool-cases (priority == "urgent")) [
  | inl e ↦ rw e refl
  | inr e ↦ elim (Bool-cases (priority == "high")) [
    | inl f ↦ rw (e, f) refl
    | inr f ↦ rw (e, f) refl
  ]
]

-- Whatever its priority, a task's message goes to a topic that the Worker reads exactly if the
-- producer was asked for a workflow topic.
pub message_for-is_read :
    (t : TaskInfo) (now : ℕ) → is_read (message_for t now).topic ≡ t.use_workflow_topic
unfolding message_for
message_for-is_read t now = get_topic-is_read t.priority t.use_workflow_topic
