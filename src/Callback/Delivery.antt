-- ===== src/Callback/Delivery.antt =====
-- `_send_request` of WorkflowCallbackService. `respond k` is how the attempt with the index `k` ends,
-- and `prefix` is `response_body[:200]`.
pub mod Retries
use vanguard_runner.Base.{
  ℕ, zero, suc, ◌+◌, String, Bool, true, false, ◌||◌, nat_eq, ◌⊎◌, inl, inr, Option, none, some,
  if◌then◌else◌,
}

pub data Attempt : Type 0 where
  responded : ℕ → String → Attempt
  client_error : String → Attempt
  timed_out : Attempt
  unknown_error : String → Attempt

-- the texts of `last_error`
pub data DeliveryError : Type 0 where
  http_error : ℕ → String → DeliveryError
  network_error : String → DeliveryError
  request_timeout : ℕ → DeliveryError
  other_error : String → DeliveryError
  no_callback_url : DeliveryError
  batches_failed : DeliveryError → DeliveryError
  batches_failed_for_no_reason : DeliveryError

-- `CallbackResult`, less the duration
pub record CallbackResult : Type 0 where
  pub success : Bool
  pub status_code : Option ℕ
  pub response_body : Option String
  pub error : Option DeliveryError
  pub attempts : ℕ

-- `response.status in [200, 201, 202, 204]`
abbrev pub is_accepted : ℕ → Bool
is_accepted n = nat_eq n 200 || nat_eq n 201 || nat_eq n 202 || nat_eq n 204

abbrev pub delivered : ℕ → ℕ × String → CallbackResult
delivered attempts r = record {
  success = true;
  status_code = some r.0;
  response_body = some r.1;
  error = none;
  attempts = attempts;
}

abbrev pub undelivered : ℕ → Option DeliveryError → CallbackResult
undelivered attempts last_error = record {
  success = false;
  status_code = none;
  response_body = none;
  error = last_error;
  attempts = attempts;
}

module _ (timeout : ℕ) (prefix : String → String) where
  -- what an attempt leaves: the status and the body that it returns with, or `last_error`
  abbrev pub result_of : Attempt → (ℕ × String) ⊎ DeliveryError
  result_of (responded n body) =
      if is_accepted n then inl (n, body) else inr (http_error n (prefix body))
  result_of (client_error e) = inr (network_error e)
  result_of timed_out = inr (request_timeout timeout)
  result_of (unknown_error e) = inr (other_error e)

-- what follows the attempt with the index `k`
abbrev pub after_attempt :
    ℕ → (ℕ × String) ⊎ DeliveryError → (DeliveryError → CallbackResult) → CallbackResult
after_attempt k (inl r) again = delivered (k + 1) r
after_attempt k (inr e) again = again e

module _ (timeout : ℕ) (prefix : String → String) (respond : ℕ → Attempt) where
  -- the loop, with the number of attempts that are left, the index of the next, and `last_error`
  unfoldable pub send_from : ℕ → ℕ → Option DeliveryError → CallbackResult
  send_from zero k last_error = undelivered k last_error
  send_from (suc left) k last_error =
      after_attempt k (result_of timeout prefix (respond k)) (λ e. send_from left (k + 1) (some e))

  unfoldable pub send_request : ℕ → CallbackResult
  unfolding send_from
  send_request retry_count = send_from retry_count 0 none
