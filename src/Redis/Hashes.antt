-- ===== src/Redis/Hashes.antt =====
-- What the writes of RedisClient leave behind, and what they do not touch.
use vanguard_runner.Base.{String, eq_refl, ◌≡◌, Option, none, some, List, [], ◌∷◌, arith}
use mathlib.Core.Path.{fun_ext}
use vanguard_runner.Model.{World, TaskHash}
use vanguard_runner.Model.Frame.{Preserves}
use vanguard_runner.Redis.{FieldWrite, StatusWrite, at_key, update_task_field, set_task_status}

-- A property that reads neither Redis' tasks nor the faults.
abbrev pub IgnoresRedis : (World → Type 0) → Type 0
IgnoresRedis P =
    (w : World) (redis : String → Option TaskHash) (fs : List (Option String))
    → P w
    → P (record w { redis = redis; faults = fs })

module _ (P : World → Type 0) (ignores : IgnoresRedis P) where
  update_with :
      (id : String) (f : FieldWrite) (fs : List (Option String)) (w : World)
      → P w
      → P (update_task_field id f (record w { faults = fs })).1
  unfolding update_task_field
  update_with id f [] w p = ignores w _ [] p
  update_with id f (none ∷ fs) w p = ignores w _ fs p
  update_with id f (some s ∷ fs) w p = ignores w w.redis fs p

  pub update_task_field-Preserves :
      (id : String) (f : FieldWrite) → Preserves P (update_task_field id f)
  update_task_field-Preserves id f = record { ends = λ w p. update_with id f w.faults w p }

  set_with :
      (id : String) (s : StatusWrite) (fs : List (Option String)) (w : World)
      → P w
      → P (set_task_status id s (record w { faults = fs })).1
  unfolding set_task_status
  set_with id s [] w p = ignores w _ [] p
  set_with id s (none ∷ []) w p = ignores w _ [] p
  set_with id s (none ∷ none ∷ fs) w p = ignores w _ fs p
  set_with id s (none ∷ some e ∷ fs) w p = ignores w _ fs p
  set_with id s (some e ∷ fs) w p = ignores w w.redis fs p

  pub set_task_status-Preserves :
      (id : String) (s : StatusWrite) → Preserves P (set_task_status id s)
  set_task_status-Preserves id s = record { ends = λ w p. set_with id s w.faults w p }

-- Two writes at one key are one write.
pub at_key-at_key :
    (id : String) (f g : TaskHash → TaskHash) (redis : String → Option TaskHash)
    → at_key id g (at_key id f redis) ≡ at_key id (λ h. g (f h)) redis
at_key-at_key id f g redis = fun_ext λ k. rw eq_refl (ground arith)
