-- ===== src/Routes/Ready.antt =====
-- GET /ready of api/src/index.ts. The two probes of its `Promise.all` are made one after the other,
-- and both are made whether or not the first rejects.
use taskfire.Prelude.{ℕ, Bool, true, false, ◌&&◌, ◌≡◌, refl, ◌≤◌, ◌∙◌, arith}
use taskfire.Async.{
  Async, Outcome, resolved, rejected, world, resolve, ◌>>=◌, ◌>>◌, continue, catch, recover,
}
use taskfire.Postgres.Session.{connect_postgres_with_retry}
use taskfire.Postgres.Session.Laws.Retry.{Probed, connect_postgres_with_retry-Connected}
use taskfire.Redis.Connect.{Pinged, connect_redis_with_retry, connect_redis_with_retry-Connected}
use taskfire.World.{World, Env}
use taskfire.World.Retry.{backoff, Connected}

-- `Promise.all` of two calls, without their values: it rejects with the first rejection.
abbrev settle : {W : Type 0} → Outcome W (Unit {0}) → Async W (Unit {0}) → Outcome W (Unit {0})
settle (resolved _ w) n = n w
settle (rejected e w) n = rejected e (world (n w))

unfoldable pub both : {W : Type 0} → Async W (Unit {0}) → Async W (Unit {0}) → Async W (Unit {0})
both m n w = settle (m w) n

pub record ReadyReply : Type 0 where
  pub status : ℕ
  pub ready : Bool

abbrev pub ready_reply : Bool → ReadyReply
ready_reply true = record { status = 200; ready = true }
ready_reply false = record { status = 503; ready = false }

abbrev pub is_resolved : {W A : Type 0} → Outcome W A → Bool
is_resolved (resolved a w) = true
is_resolved (rejected e w) = false

module _ {Store : Type 0} (env : Env Store) where
  -- The handler of GET /ready
  unfoldable pub ready : Async (World Store) ReadyReply
  unfolding both
  ready =
      catch
        (do
          both (connect_redis_with_retry env 1) (connect_postgres_with_retry env 1)
          resolve (ready_reply true))
        λ _. resolve (ready_reply false)

  -- No wait, and no client of the pool taken.
  abbrev pub IsCheap : World Store → World Store → Type 0
  IsCheap w v = (v.slept ≤ w.slept) × (v.connections ≡ w.connections)

  Connected-IsCheap :
      (Good : World Store → World Store → Type 0) (w : World Store)
      (o : Outcome (World Store) (Unit {0}))
      → Connected env Good (backoff 1) w o
      → IsCheap w (world o)
  unfolding backoff
  Connected-IsCheap Good w (resolved a v) (found, slept, same) = (omega arith, same)
  Connected-IsCheap Good w (rejected e v) (slept, same) = (omega arith, same)

  -- How the handler goes on behind the outcomes of the two probes.
  answered :
      (o : Outcome (World Store) (Unit {0})) (n : Async (World Store) (Unit {0}))
      (p : Outcome (World Store) (Unit {0}))
      → n (world o) ≡ p
      → recover
          (continue (settle o n) λ _. resolve (ready_reply true))
          (λ _. resolve (ready_reply false))
        ≡ resolved (ready_reply (is_resolved o && is_resolved p)) (world p)
  unfolding resolve
  answered (resolved a w) n (resolved b v) ran = rw (ran, continue, recover) refl
  answered (resolved a w) n (rejected e v) ran = rw (ran, continue, recover) refl
  answered (rejected d w) n p ran = rw (ran, continue, recover) refl

  -- GET /ready is always answered: with 200 where both stores answered their probes, and with 503
  -- otherwise. It waits for nothing else, and afterwards no client of the pool is taken.
  pub ready-probes :
      (w : World Store)
      → let redis = connect_redis_with_retry env 1 w in
        let postgres = connect_postgres_with_retry env 1 (world redis) in
        (ready w
          ≡ resolved (ready_reply (is_resolved redis && is_resolved postgres)) (world postgres))
        × IsCheap w (world postgres)
  unfolding ready ◌>>=◌ catch
  ready-probes w =
      let redis = connect_redis_with_retry env 1 w in
      let postgres = connect_postgres_with_retry env 1 (world redis) in
      let (slept, same) =
        Connected-IsCheap (Pinged env) w redis
          (connect_redis_with_retry-Connected env 1 w (omega arith)) in
      let (slept', same') =
        Connected-IsCheap (Probed env) (world redis) postgres
          (connect_postgres_with_retry-Connected env 1 (world redis) (omega arith)) in
      (
        answered redis (connect_postgres_with_retry env 1) postgres refl,
        (omega arith, same' ∙ same),
      )
