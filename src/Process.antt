-- ===== src/Process.antt =====
-- The life of the server process: `bootstrap` and `shutdown` of api/src/index.ts with what they
-- start and stop in api/src/websocket/handler.ts and in the services. A call of the framework may
-- reject, like one of a store; the registrations of the plugins and routes are one such call.
pub mod Lifecycle
use taskfire.Prelude.{
  ℕ, suc, ◌-◌, Bool, true, false, Option, none, some, List, [], ◌∷◌, filter, eqb, not,
  if◌then◌else◌,
}
use taskfire.Async.{Async, Outcome, resolved, rejected, resolve, ◌>>=◌, ◌>>◌, catch}
use taskfire.Postgres.Session.{connect_postgres_with_retry}
use taskfire.Redis.Connect.{connect_redis_with_retry}
use taskfire.World.{World, Env, io}

-- What the process holds.
pub record Resources : Type 0 where
  -- whether `_client`, `_subscriber` and `_pool` are there
  pub client : Bool
  pub subscriber : Bool
  pub pool : Bool
  -- whether the status of the subscriber is 'ready'
  pub subscriber_ready : Bool
  -- the listeners on the channel of events, and whether `stopForwarding` is set
  pub listeners : ℕ
  pub stop_forwarding : Bool
  -- the intervals that run, and what the next `setInterval` gives
  pub intervals : List ℕ
  pub next_interval : ℕ
  pub metrics_interval : Option ℕ
  pub heartbeat_interval : Option ℕ
  pub listening : Bool
  -- the code of `process.exit`
  pub exit_code : Option ℕ

pub record Process (Store : Type 0) : Type 0 where
  pub world : World Store
  pub resources : Resources

unfoldable pub clear_interval : Option ℕ → List ℕ → List ℕ
clear_interval none ts = ts
clear_interval (some t) ts = filter (λ s. not (eqb s t)) ts

module _ {Store : Type 0} where
  abbrev pub on_process :
      {A : Type 0} → Process Store → Outcome (World Store) A → Outcome (Process Store) A
  on_process p (resolved a w) = resolved a (record p { world = w })
  on_process p (rejected e w) = rejected e (record p { world = w })

  unfoldable pub await_world : {A : Type 0} → Async (World Store) A → Async (Process Store) A
  await_world m p = on_process p (m p.world)

  unfoldable pub set : (Resources → Resources) → Async (Process Store) (Unit {0})
  set f p = resolved tt (record p { resources = f p.resources })

  -- `if (test) m`, for a test of what the process holds
  unfoldable pub when :
      (Resources → Bool) → Async (Process Store) (Unit {0}) → Async (Process Store) (Unit {0})
  when test m p = if test p.resources then m p else resolved tt p

  -- A call of `Promise.allSettled`.
  abbrev pub settled : Async (Process Store) (Unit {0}) → Async (Process Store) (Unit {0})
  settled m = catch m λ _. resolve tt

  -- `startMetricsBroadcast`
  unfoldable pub start_metrics_broadcast : Async (Process Store) (Unit {0})
  unfolding set
  start_metrics_broadcast = set (λ r. record r {
    intervals = r.next_interval ∷ r.intervals;
    next_interval = suc r.next_interval;
    metrics_interval = some r.next_interval;
  })

  -- `stopMetricsBroadcast`
  unfoldable pub stop_metrics_broadcast : Async (Process Store) (Unit {0})
  unfolding set clear_interval
  stop_metrics_broadcast = set (λ r. record r {
    intervals = clear_interval r.metrics_interval r.intervals;
    metrics_interval = none;
  })

  -- `startHeartbeat`
  unfoldable pub start_heartbeat : Async (Process Store) (Unit {0})
  unfolding set
  start_heartbeat = set (λ r. record r {
    intervals = r.next_interval ∷ r.intervals;
    next_interval = suc r.next_interval;
    heartbeat_interval = some r.next_interval;
  })

  -- `stopHeartbeat`
  unfoldable pub stop_heartbeat : Async (Process Store) (Unit {0})
  unfolding set clear_interval
  stop_heartbeat = set (λ r. record r {
    intervals = clear_interval r.heartbeat_interval r.intervals;
    heartbeat_interval = none;
  })

  -- `process.exit`
  unfoldable pub exit : ℕ → Async (Process Store) (Unit {0})
  unfolding set
  exit code = set (λ r. record r { exit_code = some code })

  module _ (env : Env Store) where
    -- A call of the framework or of the subscriber's connection.
    abbrev pub call : Async (Process Store) (Unit {0})
    call = await_world (io env)

    -- `subscribeToEvents`
    unfoldable pub subscribe_to_events : Async (Process Store) (Unit {0})
    unfolding await_world set when
    subscribe_to_events = do
      set (λ r. record r { subscriber = true })
      when (λ r. not r.subscriber_ready) (call >> set (λ r. record r { subscriber_ready = true }))
      set (λ r. record r { listeners = suc r.listeners })
      call

    -- `startEventForwarding`
    unfoldable pub start_event_forwarding : Async (Process Store) (Unit {0})
    unfolding subscribe_to_events
    start_event_forwarding = do subscribe_to_events; set (λ r. record r { stop_forwarding = true })

    -- `stopEventForwarding`, with the function that `subscribeToEvents` gave
    unfoldable pub stop_event_forwarding : Async (Process Store) (Unit {0})
    unfolding await_world set when
    stop_event_forwarding =
        when (λ r. r.stop_forwarding)
          (do
            call
            set (λ r. record r { listeners = r.listeners - 1 })
            set (λ r. record r { stop_forwarding = false }))

    -- `closeRedis`. A new client would not be ready.
    unfoldable pub close_redis : Async (Process Store) (Unit {0})
    unfolding await_world set when
    close_redis = do
      settled (when (λ r. r.client) call)
      settled (when (λ r. r.subscriber) call)
      await_world (λ w. resolved tt (record w { redis_ready = false }))
      set (λ r. record r { client = false; subscriber = false; subscriber_ready = false })

    -- `closePostgres`
    unfoldable pub close_postgres : Async (Process Store) (Unit {0})
    unfolding await_world set when
    close_postgres = when (λ r. r.pool) (do call; set (λ r. record r { pool = false }))

    -- `server.listen` and `server.close`
    unfoldable pub listen : Async (Process Store) (Unit {0})
    unfolding await_world set
    listen = do call; set (λ r. record r { listening = true })

    unfoldable pub close_server : Async (Process Store) (Unit {0})
    unfolding await_world set
    close_server = do call; set (λ r. record r { listening = false })

    -- `bootstrap`
    unfoldable pub bootstrap : Async (Process Store) (Unit {0})
    unfolding start_event_forwarding start_metrics_broadcast start_heartbeat listen
    bootstrap = do
      call
      set (λ r. record r { client = true })
      await_world (connect_redis_with_retry env 5)
      set (λ r. record r { pool = true })
      await_world (connect_postgres_with_retry env 5)
      start_event_forwarding
      start_metrics_broadcast
      start_heartbeat
      listen

    -- `bootstrap().catch(…)`
    unfoldable pub main : Async (Process Store) (Unit {0})
    unfolding bootstrap exit
    main = catch bootstrap λ _. exit 1

    -- `shutdown`
    unfoldable pub shutdown : Async (Process Store) (Unit {0})
    unfolding stop_heartbeat stop_metrics_broadcast stop_event_forwarding close_server close_redis
        close_postgres exit
    shutdown =
        catch
          (do
            stop_heartbeat
            stop_metrics_broadcast
            stop_event_forwarding
            close_server
            close_redis
            close_postgres
            exit 0)
          λ _. exit 1
