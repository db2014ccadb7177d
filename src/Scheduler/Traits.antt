-- ===== src/Scheduler/Traits.antt =====
-- src/scheduler/traits.rs: the methods that `Scheduler` gives by default, over those that an
-- implementation must give. A call returns the scheduler after it beside its result.
use kun.Prelude.{ℕ, zero, suc, Option, none, some, List, [], ◌∷◌}
use kun.Error.{Result, ok, err}

-- `?` after the call for one element.
unfoldable pub and_then {ℓ} :
    {S : Type ℓ} → (S → S × Result (Unit {0})) → S × Result (Unit {0}) → S × Result (Unit {0})
and_then rest (s, err e) = (s, err e)
and_then rest (s, ok u) = rest s

module _ {ℓ κ} {S : Type ℓ} {C : Type κ} where
  -- What one round of the loop does with the answer to `take_ready`.
  unfoldable pub collect : (S → S × Result (List C)) → S × Result (Option C) → S × Result (List C)
  collect rest (s, err e) = (s, err e)
  collect rest (s, ok none) = (s, ok [])
  collect rest (s, ok (some c)) =
      let (s', more) = rest s in (s', elim more [ err e ↦ err e | ok cs ↦ ok (c ∷ cs) ])

  -- `while tasks.len() < limit`, with the number of claims that are left.
  unfoldable pub default_take_batch_ready :
      (S → S × Result (Option C)) → ℕ → S → S × Result (List C)
  unfolding collect
  default_take_batch_ready take_ready zero s = (s, ok [])
  default_take_batch_ready take_ready (suc n) s =
      collect (λ s'. default_take_batch_ready take_ready n s') (take_ready s)

  -- `for x in xs { self.call(x).await?; }`: the batch methods, by the call for one.
  unfoldable pub default_batch :
      (C → S → S × Result (Unit {0})) → List C → S → S × Result (Unit {0})
  unfolding and_then
  default_batch call [] s = (s, ok tt)
  default_batch call (x ∷ xs) s = and_then (λ s'. default_batch call xs s') (call x s)
