-- ===== src/Redis/Queue/Keeps.antt =====
-- The queue operations leave the database and the connection pool alone.
use taskfire.Prelude.{ℕ, zero, suc, String, Bool, arith, Option, List, eqb}
use taskfire.Async.{Async}
use taskfire.Async.Keeps.{Keeps, Keeps-bind, Keeps-elim, Keeps-if, keeps_rules}
use taskfire.Redis.Member.{Key, Member, EnqueuePayload}
use taskfire.Redis.Server.{Redis}
use taskfire.Redis.Queue.{
  find_job, modify, enqueue_job, enqueue_delayed, scan_page, remove_member, remove_page,
  remove_loop, remove_from_queue,
}
use taskfire.World.{World, Env, io, date_now, random_uuid, tick}

-- `P` looks neither at the queues nor at the clock, and holds on whatever other sessions do.
pub record IsBlind {Store : Type 0} (env : Env Store) (P : World Store → Type 0) : Type 0 where
  pub ticks : (w : World Store) → P w → P (tick env w)
  pub stores : (w : World Store) (s : Store) → P w → P (record w { redis = s })

module _ {Store : Type 0} (redis : Redis Store) {env : Env Store} {P : World Store → Type 0}
    (blind : IsBlind env P) where
  io-Blind : Keeps P (io env)
  unfolding io
  io-Blind = record { at = λ w h. ground (arith, blind.ticks w h) }

  modify-Blind : (f : Store → Store) → Keeps P (modify redis env f)
  modify-Blind f = record { at = λ w h. blind.stores w (f w.redis) h }

  pub date_now-Blind : Keeps P (date_now env)
  unfolding date_now
  date_now-Blind = record { at = λ w h. blind.ticks w h }

  pub random_uuid-Blind : Keeps P (random_uuid env)
  unfolding random_uuid
  random_uuid-Blind = record { at = λ w h. blind.ticks w h }

  pub enqueue_job-Blind : (job : EnqueuePayload) → Keeps P (enqueue_job redis env job)
  unfolding enqueue_job
  enqueue_job-Blind job =
      Keeps-bind _ _ date_now-Blind λ _. Keeps-bind _ _ io-Blind λ _. modify-Blind _

  pub enqueue_delayed-Blind :
      (job : EnqueuePayload) (at : ℕ) → Keeps P (enqueue_delayed redis env job at)
  unfolding enqueue_delayed
  enqueue_delayed-Blind job at = Keeps-bind _ _ io-Blind λ _. modify-Blind _

  remove_page-Blind :
      (rest : ℕ → Async (World Store) (Option Bool)) (key : Key) (id : String)
      (page : ℕ × List Member)
      → ((c : ℕ) → Keeps P (rest c))
      → Keeps P (remove_page redis env rest key id page)
  unfolding remove_page remove_member
  remove_page-Blind rest key id page k =
      Keeps-elim (find_job id page.1) _ _
        (Keeps-if (eqb page.0 0) _ _ (λ _. search keeps_rules) (λ _. k page.0))
        λ m. Keeps-bind _ _ (Keeps-bind _ _ io-Blind λ _. modify-Blind _) λ _. search keeps_rules

  remove_loop-Blind :
      (fuel : ℕ) (key : Key) (id : String) (c : ℕ) → Keeps P (remove_loop redis env fuel key id c)
  unfolding remove_loop scan_page
  remove_loop-Blind zero key id c = search keeps_rules
  remove_loop-Blind (suc fuel) key id c =
      Keeps-bind _ _ (Keeps-bind _ _ io-Blind λ _. search keeps_rules)
        λ page. remove_page-Blind _ key id page (remove_loop-Blind fuel key id)

  pub remove_from_queue-Blind :
      (fuel : ℕ) (id : String) (priority : ℕ)
      → Keeps P (remove_from_queue redis env fuel id priority)
  unfolding remove_from_queue
  remove_from_queue-Blind fuel id priority = remove_loop-Blind fuel _ id 0
