-- ===== src/World/Quiet.antt =====
-- An environment in which every call comes back and nobody else writes.
use taskfire.Prelude.{ℕ, suc, true, false, ◌≡◌, some, List, map, arith, refl}
use taskfire.Async.{unavailable, resolved, rejected}
use taskfire.Postgres.Row.{Row}
use taskfire.World.{World, Env, tick, io, date_now, random_uuid}

-- Nobody else writes; calls may still reject.
pub record IsAlone {Store : Type 0} (env : Env Store) : Type 0 where
  pub no_others : (n : ℕ) (rows : List Row) → env.others n rows ≡ rows
  pub no_traffic : (n : ℕ) (s : Store) → env.traffic n s ≡ s

pub record IsQuiet {Store : Type 0} (env : Env Store) : Type 0 where
  pub alone : IsAlone env
  pub answers : (n : ℕ) → env.fails n ≡ false
  pub piped : (n : ℕ) (values : List ℕ) → env.exec n values ≡ some (map some values)

module _ {Store : Type 0} {env : Env Store} where
  pub tick_alone : IsAlone env → (w : World Store) → tick env w ≡ record w { steps = suc w.steps }
  tick_alone a w = ground (arith, a.no_others w.steps w.jobs, a.no_traffic w.steps w.redis)

  pub io_answered :
      IsAlone env
      → (w : World Store) → env.fails w.steps ≡ false
      → io env w ≡ resolved tt (record w { steps = suc w.steps })
  unfolding io
  io_answered a w h = ground (arith, h, a.no_others w.steps w.jobs, a.no_traffic w.steps w.redis)

  pub io_refused :
      IsAlone env
      → (w : World Store) → env.fails w.steps ≡ true
      → io env w ≡ rejected unavailable (record w { steps = suc w.steps })
  unfolding io
  io_refused a w h = ground (arith, h, a.no_others w.steps w.jobs, a.no_traffic w.steps w.redis)

  pub date_now_alone :
      IsAlone env
      → (w : World Store)
      → date_now env w ≡ resolved (env.date_now w.steps) (record w { steps = suc w.steps })
  unfolding date_now
  date_now_alone a w = rw (tick_alone a w) refl

  pub random_uuid_alone :
      IsAlone env
      → (w : World Store)
      → random_uuid env w ≡ resolved (env.random_uuid w.steps) (record w { steps = suc w.steps })
  unfolding random_uuid
  random_uuid_alone a w = rw (tick_alone a w) refl

  pub io_quiet :
      IsQuiet env → (w : World Store) → io env w ≡ resolved tt (record w { steps = suc w.steps })
  io_quiet q w = io_answered q.alone w (q.answers w.steps)

  pub date_now_quiet :
      IsQuiet env
      → (w : World Store)
      → date_now env w ≡ resolved (env.date_now w.steps) (record w { steps = suc w.steps })
  date_now_quiet q = date_now_alone q.alone

  pub random_uuid_quiet :
      IsQuiet env
      → (w : World Store)
      → random_uuid env w ≡ resolved (env.random_uuid w.steps) (record w { steps = suc w.steps })
  random_uuid_quiet q = random_uuid_alone q.alone
