-- ===== src/Callback/Batches.antt =====
-- `_send_batch_callback` of WorkflowCallbackService. `send` is `_send_request` for a batch's payload.
pub mod Cover
use vanguard_runner.Base.{
  ℕ, zero, suc, ◌+◌, ◌-◌, ◌*◌, ◌/◌, min, ltb, nat_eq, String, Bool, true, false, not, ◌&&◌, ◌==◌,
  Option, none, some, List, [], ◌∷◌, ◌++◌, length, slice, select, if◌then◌else◌,
}
use vanguard_runner.Callback.Delivery.{
  DeliveryError, batches_failed, batches_failed_for_no_reason, CallbackResult,
}

-- A step and a log of the callback's model, by the id that relates them: the empty text is none.
pub record StepModel : Type 0 where
  pub step_id : String
  pub title : String

pub record LogModel : Type 0 where
  pub run_step_id : String
  pub content : String

-- The payload of one batch; `is_complete` says that it has the fields of the whole result too.
pub record BatchPayload : Type 0 where
  pub batch_index : ℕ
  pub total_batches : ℕ
  pub is_first : Bool
  pub is_last : Bool
  pub is_complete : Bool
  pub steps : List StepModel
  pub logs : List LogModel

abbrev pub is_empty {ℓ} : {A : Type ℓ} → List A → Bool
is_empty [] = true
is_empty (x ∷ xs) = false

-- `(n + batch_size - 1) // batch_size`
abbrev pub batches_for : ℕ → ℕ → ℕ
batches_for n batch_size = (n + batch_size - 1) / batch_size

unfoldable pub total_batches : List StepModel → List LogModel → ℕ → ℕ
total_batches [] [] batch_size = 1
total_batches [] (l ∷ ls) batch_size = batches_for (length (l ∷ ls)) batch_size
total_batches (s ∷ ss) logs batch_size = batches_for (length (s ∷ ss)) batch_size

-- `xs[start:min(start + batch_size, len(xs))]` for the batch with the index `b`, from zero
unfoldable pub batch_of {ℓ} : {A : Type ℓ} → ℕ → ℕ → List A → List A
batch_of batch_size b xs = slice (b * batch_size) (min (b * batch_size + batch_size) (length xs)) xs

-- the logs of one step: those with its id, if it has one
unfoldable pub logs_of : List LogModel → String → List LogModel
logs_of logs id = if id == "" then [] else select (λ l. l.run_step_id == id) logs

unfoldable pub logs_of_steps : List LogModel → List StepModel → List LogModel
unfolding logs_of
logs_of_steps logs [] = []
logs_of_steps logs (s ∷ ss) = logs_of logs s.step_id ++ logs_of_steps logs ss

-- the logs of a batch: of its steps, or a slice of all where it has no step
abbrev pub batch_logs : List LogModel → List StepModel → List LogModel → List LogModel
batch_logs logs [] part = part
batch_logs logs (s ∷ ss) part = logs_of_steps logs (s ∷ ss)

unfoldable pub batch_payload : List StepModel → List LogModel → ℕ → ℕ → ℕ → BatchPayload
unfolding batch_of logs_of_steps
batch_payload steps logs batch_size total b =
    let part = batch_of batch_size b steps in
    record {
      batch_index = b + 1;
      total_batches = total;
      is_first = nat_eq (b + 1) 1;
      is_last = nat_eq (b + 1) total;
      is_complete = not (ltb 1 (b + 1));
      steps = part;
      logs = batch_logs logs part (batch_of batch_size b logs);
    }

-- the payloads of the batches that are left, from the index `b` on
unfoldable pub payloads_from : List StepModel → List LogModel → ℕ → ℕ → ℕ → ℕ → List BatchPayload
unfolding batch_payload
payloads_from steps logs batch_size total zero b = []
payloads_from steps logs batch_size total (suc left) b =
    batch_payload steps logs batch_size total b
    ∷ payloads_from steps logs batch_size total left (b + 1)

unfoldable pub payloads : List StepModel → List LogModel → ℕ → List BatchPayload
unfolding total_batches payloads_from
payloads steps logs batch_size =
    let total = total_batches steps logs batch_size in
    payloads_from steps logs batch_size total total 0

module _ (send : BatchPayload → CallbackResult) where
  -- `all_success` and `last_error` after the batches
  unfoldable pub send_each :
      List BatchPayload → Bool × Option DeliveryError → Bool × Option DeliveryError
  send_each [] so_far = so_far
  send_each (p ∷ ps) so_far =
      let r = send p in send_each ps (if r.success then so_far else (false, r.error))

  abbrev pub batch_result : ℕ → Bool × Option DeliveryError → CallbackResult
  batch_result total (true, e) = record {
    success = true;
    status_code = some 200;
    response_body = none;
    error = none;
    attempts = total;
  }
  batch_result total (false, e) = record {
    success = false;
    status_code = none;
    response_body = none;
    error = some (elim e [ none ↦ batches_failed_for_no_reason | some m ↦ batches_failed m ]);
    attempts = total;
  }

  unfoldable pub send_batch_callback : List StepModel → List LogModel → ℕ → CallbackResult
  unfolding payloads send_each
  send_batch_callback steps logs batch_size =
      batch_result (total_batches steps logs batch_size)
        (send_each (payloads steps logs batch_size) (true, none))
