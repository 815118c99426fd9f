-- ===== src/Server/Processing/Drained.antt =====
-- server/src/server/packet_processing.rs: what has been done when no job waits any more.
use t1_tp.Common.{
  same_text_iff, arith, ℕ, ◌≡◌, refl, ◌⊎◌, inl, inr, true, false, List, [], ◌∷◌, ◌++◌, some,
  List-cases,
}
use mathlib.Core.Path.{subst}
use mathlib.Core.WellFounded.{Acc}
use t1_tp.Packets.Header.{qos_level1}
use t1_tp.Packets.Publish.{Publish, set_retain_flag}
use t1_tp.Packets.Publish
use t1_tp.Topics.Names.{Level, levels}
use t1_tp.Topics.Tree.{ClientId, SubscriptionData}
use t1_tp.Topics.Handler
use t1_tp.Topics.Held.{held}
use t1_tp.Topics.Delivery.{Among, Among-left, Among-right, hidden, publish-delivers}
use t1_tp.Topics.Matching.{serves}
use t1_tp.Topics.Publishing.{Message}
use t1_tp.Server.Client.{StreamIo, send_publish}
use t1_tp.Common.Map.{get, text_key}
use t1_tp.Server.Manager.Acting.{acted, client_do-acted}
use t1_tp.Server.Processing.{
  on_client, on_manager, Job, Server, handling_publish, dispatching, sending, run_job,
}
use t1_tp.Server.Processing.Jobs.{spawned, run_job-spawned}
use t1_tp.Server.Processing.Delivered.{sends-Among}
use t1_tp.Server.Processing.Terminates.{ran, Next, steps_end}

Among-split :
    {A : Type 0} (x y : A) (xs ys : List A)
    → Among x (xs ++ (y ∷ ys))
    → (x ≡ y) ⊎ Among x (xs ++ ys)
Among-split x y [] ys h = h
Among-split x y (z ∷ xs) ys (inl e) = inr (inl e)
Among-split x y (z ∷ xs) ys (inr h) = elim (Among-split x y xs ys h) [
  | inl e ↦ inl e
  | inr later ↦ inr (inr later)
]

module _ {S I L : Type 0} (io : StreamIo S) where
  -- A run of the pool, with the jobs that its threads take in their order.
  pub data Trace : Server S I L → List Job → Server S I L → Type 0 where
    over : (s : Server S I L) → Trace s [] s
    took :
        (now : ℕ) (before : List Job) (job : Job) (behind jobs : List Job) (s s' : Server S I L)
        → s.pool ≡ before ++ (job ∷ behind)
        → Trace (run_job io now job (record s { pool = before ++ behind })).1 jobs s'
        → Trace s (job ∷ jobs) s'

  -- A job that waits beside another one still waits behind that.
  stays :
      (now : ℕ) (x job : Job) (others : List Job) (s : Server S I L)
      → Among x others
      → Among x (run_job io now job (record s { pool = others })).1.pool
  stays now x job others s h =
      rw (run_job-spawned io now job (record s { pool = others }))
        (Among-left x others (spawned job s.topic_handler) h)

  -- Each job that waits is taken before no job waits any more.
  taken :
      (x : Job) (s s' : Server S I L) (jobs : List Job)
      → Trace s jobs s'
      → s'.pool ≡ []
      → Among x s.pool
      → Among x jobs
  taken x _ _ _ (over s) done h = absurd (rw done at h)
  taken x _ _ _ (took now before job behind jobs s s' e rest) done h =
      elim (Among-split x job before behind (rw e at h)) [
        | inl same ↦ inl same
        | inr other ↦ inr (taken x _ s' jobs rest done (stays now x job (before ++ behind) s other))
      ]

  -- Each message of a dispatcher that waits is sent before no job waits any more.
  dispatched :
      (m : Message) (messages : List Message) (s s' : Server S I L) (jobs : List Job)
      → Trace s jobs s'
      → s'.pool ≡ []
      → Among m messages
      → Among (dispatching messages) s.pool
      → Among (sending m.client_id m.packet) jobs
  dispatched m messages _ _ _ (over s) done here h = absurd (rw done at h)
  dispatched m messages _ _ _ (took now before job behind jobs s s' e rest) done here h =
      elim (Among-split (dispatching messages) job before behind (rw e at h)) [
        | inl same ↦ inr (
            taken (sending m.client_id m.packet) _ s' jobs rest done (
              rw (run_job-spawned io now job (record s { pool = before ++ behind })) (
                Among-right _ (before ++ behind) (spawned job s.topic_handler) (
                  subst (λ x. Among (sending m.client_id m.packet) (spawned x s.topic_handler)) same
                    (sends-Among m messages here)))))
        | inr other ↦ inr (
            dispatched m messages _ s' jobs rest done here
              (stays now (dispatching messages) job (before ++ behind) s other))
      ]

  drained :
      (s : Server S I L)
      → Acc (Next io) s
      → (jobs : List Job) × (s' : Server S I L) × Trace s jobs s' × (s'.pool ≡ [])
  drained s (Acc.intro _ later) = elim (List-cases s.pool) [
    | inl e ↦ ([], s, over s, e)
    | inr (job, more, e) ↦
        let (jobs, s', run, done) = drained _ (later _ (ran 0 [] job more s e)) in
        (job ∷ jobs, s', took 0 [] job more jobs s s' e run, done)
  ]

  sending_acts :
      (c : ClientId) (p : Publish) (later : ℕ) (s : Server S I L)
      → get c (run_job io later (sending c p) s).1.clients_manager.clients
        ≡ acted (send_publish io p later) (get c s.clients_manager.clients)
  unfolding run_job on_client on_manager
  sending_acts c p later s =
      let acting = client_do-acted c (send_publish io p later) s.clients_manager c in
      ground (arith, same_text_iff c c)

  -- Once a publication has been handled, the pool can get all its jobs done, and however its threads take
  -- them, by the time that no job waits any more a job that sends the packet has been taken for each client
  -- that held, when the publication was handled, a subscription to a filter that is served for the name,
  -- unless the filter begins with a wildcard and the name with `$`: without the retain flag, at level 1 and
  -- at the level of the subscription at most. Whenever such a job runs it sends the packet to the session
  -- of the client, if there is one.
  pub Trace-delivers :
      (f : List Level) (p : Publish) (publisher c : ClientId) (d : SubscriptionData)
      (s : Server S I L) (now : ℕ)
      → held f s.topic_handler c ≡ some d
      → serves f (levels p.topic_name) ≡ true
      → hidden true f (levels p.topic_name) ≡ false
      → let sent =
          Publish.set_max_qos (set_retain_flag (Publish.set_max_qos p qos_level1) false) d.qos in
        let handled = (run_job io now (handling_publish p publisher) s).1 in
        ((jobs : List Job) × (s' : Server S I L) × Trace handled jobs s' × (s'.pool ≡ []))
        × ((jobs : List Job) (s' : Server S I L)
            → Trace handled jobs s'
            → s'.pool ≡ []
            → Among (sending c sent) jobs)
        × ((later : ℕ) (s' : Server S I L)
            → get c (run_job io later (sending c sent) s').1.clients_manager.clients
              ≡ acted (send_publish io sent later) (get c s'.clients_manager.clients))
  unfolding Publish.set_max_qos Handler.publish
  Trace-delivers f p publisher c d s now h served open_root =
      let handled = (run_job io now (handling_publish p publisher) s).1 in
      let messages = (Handler.publish (Publish.set_max_qos p qos_level1) s.topic_handler).1 in
      (
        drained handled (steps_end io handled),
        (λ jobs s' run done.
            dispatched _ messages handled s' jobs run done
              (publish-delivers _ c d f (levels p.topic_name) s.topic_handler true h served
                open_root)
              (rw (run_job-spawned io now (handling_publish p publisher) s)
                (Among-right _ s.pool (dispatching messages ∷ []) (inl refl)))),
        λ later s'. sending_acts c _ later s',
      )
