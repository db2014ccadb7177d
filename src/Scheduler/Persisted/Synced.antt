-- ===== src/Scheduler/Persisted/Synced.antt =====
-- src/scheduler/checkpoint/memory.rs: the saved checkpoint is that of the scheduler.
use kun.Prelude.{ℕ, zero, suc, ◌≡◌, refl, Option, none, some, List, [], ◌∷◌, inl, inr}
use kun.Error.{Result, ok, err, Result-cases}
use kun.Scheduler.Checkpoint.{Checkpoint}
use kun.Scheduler.Traits.{default_batch, default_take_batch_ready, and_then, collect}
use kun.Scheduler.Memory.Calls
use kun.Scheduler.Memory.Calls.{Memory}
use kun.Scheduler.Memory.Control
use kun.Scheduler.Memory.Run.{
  Call, enqueues, takes, takes_batch, completes, completes_batch, replaces, replaces_batch,
  requeues, requeues_batch, releases, beats, closes, drains, pauses, resumes, releases_scope,
  purges_scope,
}
use kun.Scheduler.Persisted.{
  Persist, Persisted, save_checkpoint, saved_call, enqueue, take_ready, take_batch_ready, complete,
  complete_batch, complete_and_enqueue, complete_and_enqueue_batch, requeue, requeue_batch,
  release_inflight, heartbeat, close, drain_runtime_events, pause_scope, resume_scope,
  release_scope, purge_scope, done, call_persisted,
}

-- A call succeeded only in a state with the property.
abbrev pub IfOk {ℓ κ μ} : {S : Type ℓ} {A : Type κ} → (S → Type μ) → S × Result A → Type μ
IfOk I (s, err e) = Unit
IfOk I (s, ok a) = I s

IfOk-done {ℓ κ μ} :
    {S : Type ℓ} {A : Type κ} (I : S → Type μ) (r : S × Result A) → IfOk I r → IfOk I (done r)
IfOk-done I (s, err e) h = tt
IfOk-done I (s, ok a) h = h

module _ {ℓ μ} {S : Type ℓ} (I : S → Type μ) where
  and_then-IfOk :
      (rest : S → S × Result (Unit {0}))
      → ((s : S) → I s → IfOk I (rest s))
      → (r : S × Result (Unit {0})) → IfOk I r
      → IfOk I (and_then rest r)
  unfolding and_then
  and_then-IfOk rest h (s, err e) i = tt
  and_then-IfOk rest h (s, ok u) i = h s i

module _ {ℓ κ μ} {S : Type ℓ} {C : Type κ} (I : S → Type μ) where
  default_batch-IfOk :
      (call : C → S → S × Result (Unit {0}))
      → ((c : C) (s : S) → I s → IfOk I (call c s))
      → (cs : List C) (s : S) → I s
      → IfOk I (default_batch call cs s)
  unfolding default_batch
  default_batch-IfOk call h [] s i = i
  default_batch-IfOk call h (c ∷ cs) s i =
      and_then-IfOk I (λ s'. default_batch call cs s') (λ s' i'. default_batch-IfOk call h cs s' i')
        (call c s) (h c s i)

  collect-IfOk :
      (rest : S → S × Result (List C))
      → ((s : S) → I s → IfOk I (rest s))
      → (r : S × Result (Option C)) → IfOk I r
      → IfOk I (collect rest r)
  unfolding collect
  collect-IfOk rest h (s, err e) i = tt
  collect-IfOk rest h (s, ok none) i = i
  collect-IfOk rest h (s, ok (some c)) i = more (rest s) (h s i)
    where
      more :
          (r : S × Result (List C))
          → IfOk I r
          → IfOk I (r.0, elim r.1 [ err e ↦ err e | ok cs ↦ ok (c ∷ cs) ])
      more (s', err e) j = tt
      more (s', ok cs) j = j

  default_take_batch_ready-IfOk :
      (take : S → S × Result (Option C))
      → ((s : S) → I s → IfOk I (take s))
      → (limit : ℕ) (s : S) → I s
      → IfOk I (default_take_batch_ready take limit s)
  unfolding default_take_batch_ready
  default_take_batch_ready-IfOk take h zero s i = i
  default_take_batch_ready-IfOk take h (suc n) s i =
      collect-IfOk (λ s'. default_take_batch_ready take n s')
        (λ s' i'. default_take_batch_ready-IfOk take h n s' i') (take s) (h s i)

module _ {ℓ} {R P : Type ℓ} (x : Persist R P) where
  -- What is saved is what a load gives back.
  abbrev pub IsDurable : Type ℓ
  IsDurable = (c : Checkpoint R) (p p' : P) → x.save c p ≡ (p', ok tt) → x.load p' ≡ ok c

  -- A load would give the checkpoint of the scheduler.
  abbrev pub IsSynced : Persisted R P → Type ℓ
  IsSynced s = x.load s.persist ≡ ok (Control.checkpoint s.scheduler)

  save_checkpoint-IsSynced : IsDurable → (s : Persisted R P) → IfOk IsSynced (save_checkpoint x s)
  unfolding save_checkpoint
  save_checkpoint-IsSynced durable s =
      saved (x.save (Control.checkpoint s.scheduler) s.persist) refl
    where
      saved :
          (r : P × Result (Unit {0}))
          → x.save (Control.checkpoint s.scheduler) s.persist ≡ r
          → IfOk IsSynced (record s { persist = r.0 }, r.1)
      saved (p, err e) h = tt
      saved (p, ok u) h = durable (Control.checkpoint s.scheduler) s.persist p h

  answered {κ} :
      {A : Type κ} (a : A) (r : Persisted R P × Result (Unit {0}))
      → IfOk IsSynced r
      → IfOk IsSynced (r.0, elim r.1 as (λ u. Result A) [ err e ↦ err e | ok u ↦ ok a ])
  answered a (s, err e) h = tt
  answered a (s, ok u) h = h

  saved_call-IsSynced {κ} :
      {A : Type κ} (durable : IsDurable) (call : Memory R → Memory R × Result A) (s : Persisted R P)
      → IfOk IsSynced (saved_call x call s)
  unfolding saved_call
  saved_call-IsSynced durable call s = elim (Result-cases (call s.scheduler).1) [
    | inl (e, failed) ↦ rw (failed, saved_call) tt
    | inr (a, good) ↦
        let called : Persisted R P = record s { scheduler = (call s.scheduler).0 } in
        rw (good, saved_call)
          (answered a (save_checkpoint x called) (save_checkpoint-IsSynced durable called))
  ]

  drained : (s : Persisted R P) → IsSynced s → IsSynced (drain_runtime_events x s).0
  unfolding drain_runtime_events Calls.drain_runtime_events Control.checkpoint
  drained s i = i

  -- A call of the scheduler that succeeds leaves the checkpoint of the scheduler saved, when it was
  -- saved before the call and the place where checkpoints are kept gives back what it saved: this
  -- holds of each of the seventeen calls, the batches included.
  pub call_persisted-IsSynced :
      (now : ℕ) (call : Call R) (s : Persisted R P)
      → IsDurable
      → IsSynced s
      → IfOk IsSynced (call_persisted x now call s)
  unfolding call_persisted enqueue take_ready take_batch_ready complete complete_batch
      complete_and_enqueue complete_and_enqueue_batch requeue requeue_batch release_inflight
      heartbeat close drain_runtime_events pause_scope resume_scope release_scope purge_scope
  call_persisted-IsSynced now (enqueues t) s d i = saved_call-IsSynced d (Calls.enqueue now t) s
  call_persisted-IsSynced now takes s d i =
      IfOk-done IsSynced (take_ready x now s) (saved_call-IsSynced d (Calls.take_ready now) s)
  call_persisted-IsSynced now (takes_batch limit) s d i =
      IfOk-done IsSynced (take_batch_ready x now limit s) (
        default_take_batch_ready-IfOk IsSynced (take_ready x now)
          (λ s' i'. saved_call-IsSynced d (Calls.take_ready now) s') limit s i)
  call_persisted-IsSynced now (completes lease) s d i =
      saved_call-IsSynced d (Calls.complete lease) s
  call_persisted-IsSynced now (completes_batch leases) s d i =
      default_batch-IfOk IsSynced (complete x)
        (λ l s' i'. saved_call-IsSynced d (Calls.complete l) s') leases s i
  call_persisted-IsSynced now (replaces lease tasks) s d i =
      saved_call-IsSynced d (Calls.complete_and_enqueue now lease tasks) s
  call_persisted-IsSynced now (replaces_batch resolutions) s d i =
      default_batch-IfOk IsSynced (λ r. complete_and_enqueue x now r.lease r.tasks)
        (λ r s' i'. saved_call-IsSynced d (Calls.complete_and_enqueue now r.lease r.tasks) s')
        resolutions s i
  call_persisted-IsSynced now (requeues lease) s d i =
      saved_call-IsSynced d (Calls.requeue now lease) s
  call_persisted-IsSynced now (requeues_batch leases) s d i =
      default_batch-IfOk IsSynced (requeue x now)
        (λ l s' i'. saved_call-IsSynced d (Calls.requeue now l) s') leases s i
  call_persisted-IsSynced now releases s d i =
      IfOk-done IsSynced (release_inflight x now s)
        (saved_call-IsSynced d (Calls.release_inflight now) s)
  call_persisted-IsSynced now (beats lease) s d i = i
  call_persisted-IsSynced now closes s d i = saved_call-IsSynced d Calls.close s
  call_persisted-IsSynced now drains s d i = drained s i
  call_persisted-IsSynced now (pauses scope) s d i =
      IfOk-done IsSynced (pause_scope x scope s)
        (saved_call-IsSynced d (Control.pause_scope scope) s)
  call_persisted-IsSynced now (resumes scope) s d i =
      IfOk-done IsSynced (resume_scope x scope s)
        (saved_call-IsSynced d (Control.resume_scope scope) s)
  call_persisted-IsSynced now (releases_scope scope) s d i =
      IfOk-done IsSynced (release_scope x now scope s)
        (saved_call-IsSynced d (Control.release_scope now scope) s)
  call_persisted-IsSynced now (purges_scope scope) s d i =
      IfOk-done IsSynced (purge_scope x scope s)
        (saved_call-IsSynced d (Control.purge_scope scope) s)
