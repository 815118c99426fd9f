-- ===== src/Server/Processing/Terminates.antt =====
-- server/src/server/packet_processing.rs: the runs of the pool, whose threads take any job that waits.
use t1_tp.Common.{
  List-cases, inr, inl, ◌⊎◌, ℕ, zero, suc, ◌+◌, ◌<◌, ◌≡◌, refl, List, [], ◌∷◌, ◌++◌, length, arith,
}
use mathlib.Core.WellFounded.{Acc}
use t1_tp.Topics.Tree.{Topic}
use t1_tp.Topics.Publishing.{Message}
use t1_tp.Server.Client.{StreamIo}
use t1_tp.Server.Processing.{
  Job, Server, handling_publish, handling_subscribe, handling_unsubscribe, dispatching, sending,
  run_job,
}
use t1_tp.Server.Processing.Jobs.{sends, spawned, run_job-spawned}

module _ {S I L : Type 0} (io : StreamIo S) where
  -- A thread takes a job of the pool and runs it.
  pub data Step : Server S I L → Server S I L → Type 0 where
    ran :
        (now : ℕ) (before : List Job) (job : Job) (behind : List Job) (s : Server S I L)
        → s.pool ≡ before ++ (job ∷ behind)
        → Step s (run_job io now job (record s { pool = before ++ behind })).1

  -- Any number of jobs, one after the other
  pub data Run : Server S I L → Server S I L → Type 0 where
    over : (s : Server S I L) → Run s s
    more : (s s' s'' : Server S I L) → Step s s' → Run s' s'' → Run s s''

-- The publications that wait
abbrev publications : List Job → ℕ
publications [] = 0
publications (handling_publish publish id ∷ jobs) = 1 + publications jobs
publications (_ ∷ jobs) = publications jobs

-- The jobs that are left to do for the others
abbrev weight : List Job → ℕ
weight [] = 0
weight (handling_publish publish id ∷ jobs) = weight jobs
weight (dispatching messages ∷ jobs) = 1 + length messages + weight jobs
weight (_ ∷ jobs) = 1 + weight jobs

publications-append :
    (xs ys : List Job) → publications (xs ++ ys) ≡ publications xs + publications ys
publications-append [] ys = omega arith
publications-append (handling_publish publish id ∷ xs) ys =
    ground (arith, publications-append xs ys)
publications-append (handling_subscribe subscribe id ∷ xs) ys = publications-append xs ys
publications-append (handling_unsubscribe unsubscribe id ∷ xs) ys = publications-append xs ys
publications-append (dispatching messages ∷ xs) ys = publications-append xs ys
publications-append (sending id publish ∷ xs) ys = publications-append xs ys

weight-append : (xs ys : List Job) → weight (xs ++ ys) ≡ weight xs + weight ys
weight-append [] ys = omega arith
weight-append (handling_publish publish id ∷ xs) ys = weight-append xs ys
weight-append (handling_subscribe subscribe id ∷ xs) ys = ground (arith, weight-append xs ys)
weight-append (handling_unsubscribe unsubscribe id ∷ xs) ys = ground (arith, weight-append xs ys)
weight-append (dispatching messages ∷ xs) ys = ground (arith, weight-append xs ys)
weight-append (sending id publish ∷ xs) ys = ground (arith, weight-append xs ys)

sends-weights :
    (messages : List Message)
    → (publications (sends messages) ≡ 0) × (weight (sends messages) ≡ length messages)
sends-weights [] = (refl, refl)
sends-weights (message ∷ messages) = ground (arith, sends-weights messages)

-- A job that is run makes way for a publication less, or for as many and less work.
job_shrinks :
    (job : Job) (root : Topic)
    → (publications (spawned job root) < publications (job ∷ []))
      ⊎ ((publications (spawned job root) ≡ publications (job ∷ []))
          × (weight (spawned job root) < weight (job ∷ [])))
job_shrinks (handling_publish publish id) root = inl (omega arith)
job_shrinks (handling_subscribe subscribe id) root = inr (refl, omega arith)
job_shrinks (handling_unsubscribe unsubscribe id) root = inr (refl, omega arith)
job_shrinks (dispatching messages) root = ground (arith, sends-weights messages)
job_shrinks (sending id publish) root = inr (refl, omega arith)

module _ {S I L : Type 0} (io : StreamIo S) where
  step_shrinks :
      (s s' : Server S I L)
      → Step io s s'
      → (publications s'.pool < publications s.pool)
        ⊎ ((publications s'.pool ≡ publications s.pool) × (weight s'.pool < weight s.pool))
  step_shrinks _ _ (ran now before job behind s e) =
      let root = s.topic_handler in
      rw
        (
          e,
          run_job-spawned io now job (record s { pool = before ++ behind }),
          publications-append (before ++ behind) (spawned job root),
          publications-append before behind,
          publications-append before (job ∷ behind),
          publications-append (job ∷ []) behind,
          weight-append (before ++ behind) (spawned job root),
          weight-append before behind,
          weight-append before (job ∷ behind),
          weight-append (job ∷ []) behind,
        )
        (ground (arith, job_shrinks job root))

  abbrev pub Next : Server S I L → Server S I L → Type 0
  Next s' s = Step io s s'

  ends : (p w : ℕ) (s : Server S I L) → publications s.pool < p → weight s.pool < w → Acc Next s
  ends zero w s hp hw = absurd (omega arith)
  ends (suc p) zero s hp hw = absurd (omega arith)
  ends (suc p) (suc w) s hp hw = Acc.intro s λ s' step. elim (step_shrinks s s' step) [
    | inl fewer ↦ ends p (suc (weight s'.pool)) s' (omega arith) (omega arith)
    | inr (same, less) ↦ ends (suc p) w s' (omega arith) (omega arith)
  ]

  -- However the threads take the jobs, and at whatever times, there is no endless run: each job leads
  -- to a server from which all runs are finite.
  pub steps_end : (s : Server S I L) → Acc Next s
  steps_end s = ends (suc (publications s.pool)) (suc (weight s.pool)) s (omega arith) (omega arith)

  drained : (s : Server S I L) → Acc Next s → (s' : Server S I L) × Run io s s' × (s'.pool ≡ [])
  drained s (Acc.intro _ later) = elim (List-cases s.pool) [
    | inl e ↦ (s, over s, e)
    | inr (job, jobs, e) ↦
        let step = ran 0 [] job jobs s e in
        let (s', run, done) = drained _ (later _ step) in (s', more s _ s' step run, done)
  ]

  -- From every server some run gets all the jobs done, those that they ask for included.
  pub Run-drains : (s : Server S I L) → (s' : Server S I L) × Run io s s' × (s'.pool ≡ [])
  Run-drains s = drained s (steps_end s)
