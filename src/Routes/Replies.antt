-- ===== src/Routes/Replies.antt =====
-- What a route answers: `success_response` or `error_response` with its code.
use vanguard_runner.Base.{ℕ}

pub data Reply (A : Type 0) : Type 0 where
  ok : A → Reply A
  error_reply : ℕ → Reply A
