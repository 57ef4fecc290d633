-- ===== src/Routes/Metrics/Laws.antt =====
-- What the dead-letter listing shows, and what the series of sixty minutes holds.
use taskfire.Prelude.{
  ℕ, zero, suc, ◌+◌, ◌-◌, ◌*◌, ◌/◌, ◌≤◌, ◌<◌, true, ◌≡◌, refl, sym, ap, ◌∙◌, some, List, [], ◌∷◌,
  ◌++◌, length, take, drop, get_elem?, take-add, drop-drop, arith, Option-cases, inl, inr, Option,
  none, suc,
}
use taskfire.Prelude.Int.{pos, sub_ℕ}
use taskfire.Async.{resolved, resolve, gets, ◌>>=◌, continue}
use taskfire.Job.{DlqEntry}
use taskfire.Job.Schema.{Zod, success, DlqQuery, dlq_query_schema}
use taskfire.Redis.Member.{dlq, Member, parse}
use taskfire.Redis.Server.{Redis}
use taskfire.Redis.Queue.{get_dlq_depth}
use taskfire.Redis.DeadLetters.{dlq_entry, dlq_entries, get_dlq_jobs}
use taskfire.Routes.Reply.{reply, dead_letters}
use taskfire.Postgres.Row.{Row}
use taskfire.Postgres.Session.Laws.Quiet.{query_quiet}
use taskfire.Postgres.Throughput.{
  ThroughputRow, completed_count, failed_count, throughput_rows, get_throughput,
}
use taskfire.Routes.Metrics.Minutes.{read, sum_rows, counts_for, throughput_rows-read}
use taskfire.Routes.Metrics.{
  dead_letter_page, dead_letter, by_minute, minute_start, completed_of, failed_of, point, points,
  throughput, throughput_series,
}
use taskfire.World.{World, Env}
use taskfire.World.Quiet.{IsQuiet, io_quiet, date_now_quiet}

-- The entries of the ranks from `offset` on, `limit` of them.
abbrev pub shown : (limit offset : ℕ) → List Member → List DlqEntry
shown limit offset ms = dlq_entries (take limit (drop offset ms))

limit_positive : (q : DlqQuery) → dlq_query_schema q ≡ true → 1 ≤ q.limit
unfolding dlq_query_schema
limit_positive q ok = ground arith

dlq_entries-append :
    (xs ys : List Member) → dlq_entries (xs ++ ys) ≡ dlq_entries xs ++ dlq_entries ys
unfolding dlq_entries
dlq_entries-append [] ys = refl
dlq_entries-append (m ∷ xs) ys = elim (Option-cases (parse m)) [
  | inl bad ↦ rw (bad, dlq_entries) (dlq_entries-append xs ys)
  | inr (d, good) ↦ rw (good, dlq_entries) (ap (λ es. dlq_entry d ∷ es) (dlq_entries-append xs ys))
]

-- Two pages of dead letters, the second from where the first ends, are the page of both sizes.
shown-append :
    (limit more offset : ℕ) (ms : List Member)
    → shown limit offset ms ++ shown more (offset + limit) ms ≡ shown (limit + more) offset ms
shown-append limit more offset ms =
    rw (sym (drop-drop offset limit ms))
      (sym (dlq_entries-append _ _) ∙ ap dlq_entries (sym (take-add limit more (drop offset ms))))

module _ {Store Body : Type 0} (zod : Zod Body) (redis : Redis Store) {env : Env Store}
    (quiet : IsQuiet env) where
  get_dlq_jobs_lem :
      (limit offset : ℕ) (w : World Store)
      → 1 ≤ limit
      → get_dlq_jobs redis env limit offset w
        ≡ resolved
            (shown limit offset (redis.ranking dlq w.redis))
            (record w { steps = suc w.steps })
  unfolding get_dlq_jobs ◌>>=◌ gets
  get_dlq_jobs_lem limit offset w h =
      let last : sub_ℕ (offset + limit) 1 ≡ pos (offset + limit - 1) = ground arith in
      let many : offset + limit - 1 + 1 - offset ≡ limit = omega arith in
      rw
        (
          io_quiet quiet w,
          continue,
          last,
          redis.zrevrange_ranking dlq offset (offset + limit - 1) w.redis,
          many,
        )
        refl

  -- Where every call comes back and nobody else writes, a well-formed query for dead letters is
  -- answered 200 with the entries of the ranks from its offset on, at most its limit of them, in
  -- the order of the ranks and less the members that are no JSON, and with the size of the whole
  -- queue. Both stores stay as they were. The page behind it, from where it ends, goes on without a
  -- gap or a double.
  pub dead_letter-shown :
      (query : Body) (q : DlqQuery) (w : World Store)
      → zod.parse_dlq query ≡ success q
      → (v : World Store) × (dead_letter zod redis env query w
          ≡ resolved
              (reply 200 (
                dead_letters (record {
                  jobs = shown q.limit q.offset (redis.ranking dlq w.redis);
                  total = length (redis.ranking dlq w.redis);
                  limit = q.limit;
                  offset = q.offset;
                })))
              v)
        × (v.jobs ≡ w.jobs)
        × (v.redis ≡ w.redis)
        × ((more : ℕ)
            → let ms = redis.ranking dlq w.redis in
              shown q.limit q.offset ms ++ shown more (q.offset + q.limit) ms
              ≡ shown (q.limit + more) q.offset ms)
  unfolding dead_letter dead_letter_page get_dlq_depth ◌>>=◌ resolve gets
  dead_letter-shown query q w ok =
      let positive = limit_positive q (zod.dlq_checked query q ok) in
      let u : World Store = record w { steps = suc w.steps } in
      (
        record w { steps = suc (suc w.steps) },
        rw (dead_letter, ok, get_dlq_jobs_lem q.limit q.offset w positive, continue)
            (rw (io_quiet quiet u, continue, redis.zcard_ranking dlq w.redis) refl),
        refl,
        refl,
        λ more. shown-append q.limit more q.offset (redis.ranking dlq w.redis),
      )

points-get :
    (rows : List ThroughputRow) (now n i : ℕ)
    → i < n
    → get_elem? (points rows now n) i ≡ some (point rows (minute_start now (n - 1 - i)))
unfolding points
points-get rows now zero i h = absurd (omega arith)
points-get rows now (suc n) zero h =
    ap (λ (k : ℕ). some (point rows (minute_start now k))) {x = n} (omega arith)
points-get rows now (suc n) (suc i) h =
    points-get rows now n i (omega arith)
    ∙ ap (λ (k : ℕ). some (point rows (minute_start now k))) {x = n - 1 - i} (omega arith)

points-length : (rows : List ThroughputRow) (now n : ℕ) → length (points rows now n) ≡ n
unfolding points
points-length rows now zero = refl
points-length rows now (suc n) = ap suc (points-length rows now n)

throughput-point :
    (rows : List ThroughputRow) (now i : ℕ)
    → i < 60
    → (length (throughput rows now) ≡ 60)
      × (get_elem? (throughput rows now) i ≡ some (point rows ((now / 60000 - (59 - i)) * 60000)))
unfolding throughput minute_start
throughput-point rows now i h = (points-length rows now 60, points-get rows now 60 i h)

completed_of-read : (o : Option ThroughputRow) → completed_of o ≡ read (λ g. g.completed) o
completed_of-read none = refl
completed_of-read (some g) = refl

failed_of-read : (o : Option ThroughputRow) → failed_of o ≡ read (λ g. g.failed) o
failed_of-read none = refl
failed_of-read (some g) = refl

-- The point that a table has for a minute, at a time of the database.
abbrev pub minute_point : ℕ → List Row → ℕ → ThroughputRow
minute_point db_now rows t = record {
  time = t;
  completed = sum_rows (counts_for completed_count db_now t) rows;
  failed = sum_rows (counts_for failed_count db_now t) rows;
}

point-throughput_rows :
    (db_now t : ℕ) (rows : List Row)
    → point (throughput_rows db_now rows) t ≡ minute_point db_now rows t
unfolding point
point-throughput_rows db_now t rows =
    rw
      (
        completed_of-read (by_minute (throughput_rows db_now rows) t),
        failed_of-read (by_minute (throughput_rows db_now rows) t),
        throughput_rows-read (λ g. g.completed) completed_count (λ m s. refl) (λ s g. refl) db_now t
            rows,
        throughput_rows-read (λ g. g.failed) failed_count (λ m s. refl) (λ s g. refl) db_now t rows,
      )
      refl

-- Where every call comes back and nobody else writes, GET /throughput answers with sixty points.
-- Point `i` is the one of the minute that lies 59 - i minutes back: it counts the completed rows,
-- and the failed and dead ones, whose completion date is in that minute and less than an hour
-- before the time of the database; a row without a completion date is counted nowhere.
pub throughput-minute :
    {Store : Type 0} {env : Env Store} (quiet : IsQuiet env) (w : World Store) (i : ℕ)
    → i < 60
    → let now = env.date_now (suc (suc w.steps)) in
      let t = (now / 60000 - (59 - i)) * 60000 in
      (series : List ThroughputRow) × (v : World Store) × (throughput_series env w
        ≡ resolved series v)
      × (length series ≡ 60)
      × (get_elem? series i ≡ some (minute_point (env.db_now (suc (suc w.steps))) w.jobs t))
unfolding throughput_series get_throughput ◌>>=◌ resolve
throughput-minute {env = env} quiet w i h =
    let now = env.date_now (suc (suc w.steps)) in
    let db_now = env.db_now (suc (suc w.steps)) in
    let rows = throughput_rows db_now w.jobs in
    let u : World _ = record w { steps = suc (suc w.steps) } in
    let (count, at_i) = throughput-point rows now i h in
    (
      throughput rows now,
      record w { steps = suc (suc (suc w.steps)) },
      rw
          (
            query_quiet quiet (λ at jobs. some (throughput_rows at jobs, jobs)) w rows w.jobs refl,
            continue,
            date_now_quiet quiet u,
            continue,
          )
          refl,
      count,
      at_i ∙ ap some (point-throughput_rows db_now _ w.jobs),
    )
