-- ===== src/Redis/Queue/Removal.antt =====
-- What `removeFromQueue` takes from a lane that nobody else changes meanwhile.
use taskfire.Prelude.{
  ℕ, zero, suc, ◌≤◌, String, Bool, true, false, ◌≡◌, ◌≢◌, refl, ◌⊎◌, inl, inr, Option, none, some,
  List, [], ◌∷◌, eqb, arith, Option-cases,
}
use taskfire.Async.{Async, Outcome, resolved, resolve, gets, ◌>>=◌}
use taskfire.Redis.Member.{Key, Member}
use taskfire.Redis.Server.{Redis, collect, InPages}
use taskfire.Redis.Queue.{
  lane_key, is_job, find_job, scan_page, remove_member, remove_page, remove_loop, remove_from_queue,
}
use taskfire.World.{World, Env}
use taskfire.World.Quiet.{IsQuiet, io_quiet}
use taskfire.Redis.Queue.Scan.{
  find_pages, Finds, Finds-mono, find_pages-Finds, is_found, pages_of_collect,
}

module _ {Store : Type 0} (redis : Redis Store) {env : Env Store} (quiet : IsQuiet env) (key : Key)
    (id : String) where
  open redis use {zscan, zrem, zscore}

  abbrev without : Option Member → Store → Store
  without none s = s
  without (some m) s = zrem key m s

  abbrev Ended : World Store → Option Member → Outcome (World Store) (Option Bool) → Type 0
  Ended w o r =
      (v : World Store) × (r ≡ resolved (some (is_found o)) v)
      × (v.redis ≡ without o w.redis)
      × (v.jobs ≡ w.jobs)

  scan_page_quiet :
      (w : World Store) (c : ℕ)
      → scan_page redis env key c w
        ≡ resolved (zscan key w.redis c) (record w { steps = suc w.steps })
  unfolding scan_page ◌>>=◌ gets
  scan_page_quiet w c = rw (io_quiet quiet w) refl

  remove_member_quiet :
      (w : World Store) (m : Member)
      → remove_member redis env key m w
        ≡ resolved tt (record w { redis = zrem key m w.redis; steps = suc w.steps })
  unfolding remove_member ◌>>=◌
  remove_member_quiet w m = rw (io_quiet quiet w) refl

  -- A page that holds the job ends the loop, and so does the last page.
  remove_page-Ended :
      (rest : ℕ → Async (World Store) (Option Bool)) (p : ℕ × List Member) (ps : List (List Member))
      (w : World Store)
      → ((eqb p.0 0 ≡ true) × (ps ≡ []))
        ⊎ ((eqb p.0 0 ≡ false) × Ended w (find_pages id ps) (rest p.0 w))
      → Ended w (find_pages id (p.1 ∷ ps)) (remove_page redis env rest key id p w)
  unfolding remove_page find_pages resolve ◌>>=◌
  remove_page-Ended rest p ps w h = elim (Option-cases (find_job id p.1)) [
    | inr (m, hit) ↦
        rw (hit, remove_page, find_pages)
          (
            record w { redis = zrem key m w.redis; steps = suc w.steps },
            rw (remove_member_quiet w m) refl,
            refl,
            refl,
          )
    | inl miss ↦ elim h [
      | inl (last, nil) ↦ rw (miss, remove_page, find_pages, last, nil) (w, refl, refl, refl)
      | inr (more, ended) ↦ rw (miss, remove_page, find_pages, more) ended
    ]
  ]

  remove_loop_step :
      (more c : ℕ) (w : World Store)
      → remove_loop redis env (suc more) key id c w
        ≡ remove_page redis env
            (remove_loop redis env more key id)
            key
            id
            (zscan key w.redis c)
            (record w { steps = suc w.steps })
  unfolding remove_loop ◌>>=◌
  remove_loop_step more c w = rw (scan_page_quiet w c) refl

  -- The loop finds what the pages of the iteration hold.
  remove_loop-Ended :
      (fuel more : ℕ) (c : ℕ) (w : World Store) (pages : List (List Member))
      → collect (zscan key w.redis) fuel c ≡ some pages
      → fuel ≤ more
      → Ended w (find_pages id pages) (remove_loop redis env more key id c w)
  remove_loop-Ended zero more c w pages e h = unfold collect in cc
  remove_loop-Ended (suc fuel) zero c w pages e h = absurd (omega arith)
  remove_loop-Ended (suc fuel) (suc more) c w pages e h =
      let page = zscan key w.redis c in
      let w' : World Store = record w { steps = suc w.steps } in
      let rest = remove_loop redis env more key id in
      elim (pages_of_collect (zscan key w.redis) fuel c pages e) [
        | inl (last, one) ↦
            rw (one, remove_loop_step more c w)
              (remove_page-Ended rest page [] w' (inl (last, refl)))
        | inr (some_left, (ps, e', cons)) ↦
            rw (cons, remove_loop_step more c w)
              (remove_page-Ended rest page ps w'
                (inr (some_left, remove_loop-Ended fuel more page.0 w' ps e' (omega arith))))
      ]

-- How a removal ends: it took one member of the lane that is the job, or there is none.
abbrev pub Removed : {Store : Type 0} → Redis Store → Key → String → Store → Store → Bool → Type 0
Removed redis key id s s' true =
    (m : Member) × (redis.zscore key m s ≢ none) × (is_job id m ≡ true) × (s' ≡ redis.zrem key m s)
Removed redis key id s s' false =
    (s' ≡ s) × ((m : Member) → (redis.zscore key m s ≡ none) ⊎ (is_job id m ≡ false))

Removed-of :
    {Store : Type 0} (redis : Redis Store) {env : Env Store} (quiet : IsQuiet env) (key : Key)
    (id : String) (s s' : Store) (o : Option Member)
    → Finds id (λ m. redis.zscore key m s ≢ none) o
    → s' ≡ without redis quiet key id o s
    → Removed redis key id s s' (is_found o)
Removed-of redis quiet key id s s' none f e = (
  e,
  λ m. elim (Option-cases (redis.zscore key m s)) [
    | inl absent ↦ inl absent
    | inr (n, present) ↦ inr (f m λ h. cc)
  ],
)
Removed-of redis quiet key id s s' (some m) f e = (m, f.0, f.1, e)

-- Where nobody else changes the lane and every call comes back, a removal with fuel for one full
-- iteration ends: with true, and exactly one member of the lane is gone, which is the job, or with
-- false, the lane is as it was and no member of it is the job. The table stays as it was.
pub remove_from_queue-Removed :
    {Store : Type 0} (redis : Redis Store) {env : Env Store} (quiet : IsQuiet env) (id : String)
    (priority fuel : ℕ) (w : World Store)
    → redis.rounds (lane_key priority) w.redis ≤ fuel
    → (v : World Store) × (b : Bool) × (remove_from_queue redis env fuel id priority w
        ≡ resolved (some b) v)
      × Removed redis (lane_key priority) id w.redis v.redis b
      × (v.jobs ≡ w.jobs)
unfolding remove_from_queue
remove_from_queue-Removed redis quiet id priority fuel w h =
    let key = lane_key priority in
    let (pages, iterated, exact) = redis.scan_pages key w.redis in
    let (v, ran, store, jobs) =
      remove_loop-Ended redis quiet key id (redis.rounds key w.redis) fuel 0 w pages iterated h in
    let finds =
      Finds-mono id (λ m. InPages m pages) (λ m. redis.zscore key m w.redis ≢ none)
        (find_pages id pages) (find_pages-Finds id pages) (λ m c. (exact m).0 c)
        (λ m c. inl ((exact m).1 c)) in
    (
      v,
      is_found (find_pages id pages),
      ran,
      Removed-of redis quiet key id w.redis v.redis (find_pages id pages) finds store,
      jobs,
    )
