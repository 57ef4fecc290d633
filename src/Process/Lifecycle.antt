-- ===== src/Process/Lifecycle.antt =====
-- How the process starts and how it stops.
use taskfire.Prelude.{
  ℕ, suc, ◌≡◌, refl, sym, ap, subst, ◌∙◌, Bool, true, false, none, some, [], ◌∷◌, ◌⊎◌, inl, inr,
  not, Bool-cases,
}
use taskfire.Async.{Async, Outcome, resolved, rejected, resolve, ◌>>◌, catch, recover}
use taskfire.Async.Ends.{Ends, Ends-resolved, Ends-rejected, Ends-bind, Ends-catch}
use taskfire.Process.{
  Resources, Process, on_process, await_world, set, when, settled, call, start_metrics_broadcast,
  stop_metrics_broadcast, start_heartbeat, stop_heartbeat, exit, subscribe_to_events,
  start_event_forwarding, stop_event_forwarding, close_redis, close_postgres, listen, close_server,
  bootstrap, main, shutdown, clear_interval,
}
use taskfire.World.{World, Env, io}

module _ {Store : Type 0} where
  -- From resources `r` a call resolves with the resources `s`, or it rejects in a process with `Q`.
  pub record Steps (r s : Resources) (Q : Resources → Type 0) (m : Async (Process Store) (Unit {0}))
      : Type 0 where
    pub at :
        (p : Process Store)
        → p.resources ≡ r
        → Ends (λ _ v. v.resources ≡ s) (λ _ v. Q v.resources) (m p)

  on_process-Ends :
      {A : Type 0} (Q : Resources → Type 0) (p : Process Store) (o : Outcome (World Store) A)
      → Q p.resources
      → Ends (λ _ v. v.resources ≡ p.resources) (λ _ v. Q v.resources) (on_process p o)
  on_process-Ends Q p (resolved a w) q = Ends-resolved refl
  on_process-Ends Q p (rejected e w) q = Ends-rejected q

  module _ {Q : Resources → Type 0} where
    Steps-await :
        {r : Resources} (m : Async (World Store) (Unit {0})) → Q r → Steps r r Q (await_world m)
    unfolding await_world
    Steps-await m q = record {
      at = λ p e.
          subst
            (λ s. Ends (λ _ v. v.resources ≡ s) (λ _ v. Q v.resources) (on_process p (m p.world))) e
            (on_process-Ends Q p (m p.world) (subst Q (sym e) q));
    }

    Steps-set : {r : Resources} (f : Resources → Resources) → Steps r (f r) Q (set f)
    unfolding set
    Steps-set f = record { at = λ p e. Ends-resolved (ap f e) }

    Steps-bind :
        {r s t : Resources} {m n : Async (Process Store) (Unit {0})}
        → Steps r s Q m
        → Steps s t Q n
        → Steps r t Q (m >> n)
    Steps-bind {s = s} {m = m} {n = n} first next = record {
      at = λ p e.
          Ends-bind (λ _ v. v.resources ≡ s) m (λ _. n) p (first.at p e) λ a v h. next.at v h;
    }

    Steps-when :
        {r s : Resources} {m : Async (Process Store) (Unit {0})} (test : Resources → Bool)
        → test r ≡ true
        → Steps r s Q m
        → Steps r s Q (when test m)
    unfolding when
    Steps-when test holds step = record { at = λ p e. rw (ap test e ∙ holds) (step.at p e) }

    Steps-settled :
        {r : Resources} {m : Async (Process Store) (Unit {0})}
        → Steps r r (λ s. s ≡ r) m
        → Steps r r Q (settled m)
    unfolding resolve
    Steps-settled {r} {m} step = record {
      at = λ p e.
          Ends-catch (λ _ v. v.resources ≡ r) m (λ _. resolve tt) p (step.at p e)
            λ d v h. Ends-resolved h;
    }

-- The process before `bootstrap`, while it listens, and behind a complete shutdown.
abbrev pub fresh : Resources
fresh = record {
  client = false;
  subscriber = false;
  pool = false;
  subscriber_ready = false;
  listeners = 0;
  stop_forwarding = false;
  intervals = [];
  next_interval = 0;
  metrics_interval = none;
  heartbeat_interval = none;
  listening = false;
  exit_code = none;
}

abbrev pub up : Resources
up = record {
  client = true;
  subscriber = true;
  pool = true;
  subscriber_ready = true;
  listeners = 1;
  stop_forwarding = true;
  intervals = 1 ∷ 0 ∷ [];
  next_interval = 2;
  metrics_interval = some 0;
  heartbeat_interval = some 1;
  listening = true;
  exit_code = none;
}

abbrev pub down : Resources
down = record fresh { next_interval = 2; exit_code = some 0 }

module _ {Store : Type 0} (env : Env Store) where
  abbrev IsDeaf : Resources → Type 0
  IsDeaf r = r.listening ≡ false

  -- No interval runs, and some call rejected.
  abbrev pub IsStill : Resources → Type 0
  IsStill r = (r.intervals ≡ []) × (n : ℕ) × (env.fails n ≡ true)

  Steps-call :
      {Q : Resources → Type 0} (r : Resources)
      → ((n : ℕ) → env.fails n ≡ true → Q r)
      → Steps r r Q (call env)
  unfolding await_world io
  Steps-call {Q} r q = record {
    at = λ p e. elim (Bool-cases (env.fails p.world.steps)) [
      | inl fell ↦ rw fell (Ends-rejected (subst Q (sym e) (q p.world.steps fell)))
      | inr fine ↦ rw fine (Ends-resolved e)
    ];
  }

  -- A change of the world that does not reject.
  Steps-world :
      {Q : Resources → Type 0} {r : Resources} (f : World Store → World Store)
      → Steps r r Q (await_world (λ w. resolved tt (f w)))
  unfolding await_world
  Steps-world f = record { at = λ p e. Ends-resolved e }

  forwarding-Steps :
      {Q : Resources → Type 0} (r : Resources)
      → r.subscriber_ready ≡ false
      → Q (record r { subscriber = true })
      → Q (record r { subscriber = true; subscriber_ready = true; listeners = suc r.listeners })
      → Steps r
          (record r {
            subscriber = true;
            subscriber_ready = true;
            listeners = suc r.listeners;
            stop_forwarding = true;
          })
          Q
          (start_event_forwarding env)
  unfolding start_event_forwarding subscribe_to_events
  forwarding-Steps r unready q q' =
      Steps-bind
        (Steps-bind (Steps-set _) (
          Steps-bind (Steps-when _ (ap not unready) (Steps-bind (Steps-await _ q) (Steps-set _)))
            (Steps-bind (Steps-set _) (Steps-await _ q'))))
        (Steps-set _)

  bootstrap-Steps : Steps fresh up IsDeaf (bootstrap env)
  unfolding bootstrap start_metrics_broadcast start_heartbeat listen
  bootstrap-Steps = Steps-bind (Steps-await _ refl) (
      Steps-bind (Steps-set _) (
        Steps-bind (Steps-await _ refl) (
          Steps-bind (Steps-set _) (
            Steps-bind (Steps-await _ refl) (
              Steps-bind (forwarding-Steps _ refl refl refl) (
                Steps-bind (Steps-set _)
                  (Steps-bind (Steps-set _) (Steps-bind (Steps-await _ refl) (Steps-set _)))))))))

  -- The body of `shutdown`
  stopping-Steps : Steps up down IsStill (do
    stop_heartbeat
    stop_metrics_broadcast
    stop_event_forwarding env
    close_server env
    close_redis env
    close_postgres env
    exit 0)
  unfolding stop_heartbeat stop_metrics_broadcast stop_event_forwarding close_server close_redis
      close_postgres exit clear_interval
  stopping-Steps = Steps-bind (Steps-set _) (
      Steps-bind (Steps-set _) (
        Steps-bind
          (Steps-when _ refl (
            Steps-bind (Steps-call _ λ n f. (refl, n, f)) (Steps-bind (Steps-set _) (Steps-set _))))
          (Steps-bind (Steps-bind (Steps-call _ λ n f. (refl, n, f)) (Steps-set _)) (
            Steps-bind
              (Steps-bind
                (Steps-settled (Steps-when (λ r. r.client) refl (Steps-await (io env) refl)))
                (Steps-bind
                  (Steps-settled (Steps-when (λ r. r.subscriber) refl (Steps-await (io env) refl)))
                  (Steps-bind (Steps-world (λ w. record w { redis_ready = false })) (Steps-set _))))
              (Steps-bind
                (Steps-when _ refl (Steps-bind (Steps-call _ λ n f. (refl, n, f)) (Steps-set _)))
                (Steps-set _))))))

  -- A function that exits with 1 where it rejects.
  exits :
      (S Q : Resources → Type 0) (o : Outcome (Process Store) (Unit {0}))
      → Ends (λ _ v. S v.resources) (λ _ v. Q v.resources) o
      → (v : Process Store) × (recover o (λ _. exit 1) ≡ resolved tt v)
        × (S v.resources
            ⊎ ((r : Resources) × Q r × (v.resources ≡ record r { exit_code = some 1 })))
  unfolding exit set
  exits S Q (resolved _ v) h = (v, refl, inl (h.on_resolved tt v refl))
  exits S Q (rejected e v) h = (
    record v { resources = record v.resources { exit_code = some 1 } },
    refl,
    inr (v.resources, h.on_rejected e v refl, refl),
  )

  -- A shutdown of a process that listens exits: with 0 and everything released, or with 1 and no
  -- interval running, where some call rejected.
  abbrev pub IsStopped : Resources → Type 0
  IsStopped r = (r ≡ down) ⊎ ((r.exit_code ≡ some 1) × IsStill r)

  shutdown-IsStopped :
      (p : Process Store)
      → p.resources ≡ up
      → (v : Process Store) × (shutdown env p ≡ resolved tt v) × IsStopped v.resources
  unfolding shutdown catch
  shutdown-IsStopped p e =
      let (v, ran, ends) = exits (λ r. r ≡ down) IsStill _ (stopping-Steps.at p e) in
      (
        v,
        ran,
        elim ends [
          | inl complete ↦ inl complete
          | inr (r, (still, n, fell), same) ↦
              inr (ap (λ r. r.exit_code) same, (ap (λ r. r.intervals) same ∙ still, n, fell))
        ],
      )

  abbrev pub IsStarted : Process Store → Type 0
  IsStarted v =
      (v.resources ≡ up)
      × (u : Process Store) × (shutdown env v ≡ resolved tt u)
      × IsStopped u.resources

  -- A new process always gets through its start, whatever the stores and the framework do: either
  -- it exits with 1 and does not listen, or it holds the two clients, the pool, one listener on the
  -- channel and exactly the two intervals, and listens. A shutdown then always exits: with 0 where
  -- all of these are released, or with 1 where a call rejected, and then no interval runs any more
  -- either.
  pub main-shutdown :
      (p : Process Store)
      → p.resources ≡ fresh
      → (v : Process Store) × (main env p ≡ resolved tt v)
        × (((v.resources.exit_code ≡ some 1) × (v.resources.listening ≡ false)) ⊎ IsStarted v)
  unfolding main catch
  main-shutdown p e =
      let (v, ran, ends) = exits (λ r. r ≡ up) IsDeaf _ (bootstrap-Steps.at p e) in
      (
        v,
        ran,
        elim ends [
          | inl listens ↦
              let (u, stops, stopped) = shutdown-IsStopped v listens in
              inr (listens, u, stops, stopped)
          | inr (r, deaf, same) ↦
              inl (ap (λ r. r.exit_code) same, ap (λ r. r.listening) same ∙ deaf)
        ],
      )
