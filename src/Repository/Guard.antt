-- ===== src/Repository/Guard.antt =====
-- The interface of the `relationship_guard` that CIRepository is given: graph.py implements it.
use cmdboss.Prelude.{ℕ, String}
use cmdboss.Errors.Result.{Exec}
use cmdboss.Driver.{Driver}
use cmdboss.Store.{Store, Caller}

pub record Guard (mongo : Driver) : Type 0 where
  -- count_edges(ci_type, ci_id)
  pub count_edges : String → ℕ → Store mongo → ℕ
  -- detach_ci(ci_type, ci_id, actor=…, request_id=…)
  pub detach_ci : String → ℕ → Caller → Exec (Store mongo) ℕ
