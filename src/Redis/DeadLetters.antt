-- ===== src/Redis/DeadLetters.antt =====
-- The dead-letter queue and the jobs in flight: `getDLQJobs` and `getProcessingJobs` of
-- api/src/services/redis.ts.
use taskfire.Prelude.{ℕ, ◌+◌, Option, none, some, List, [], ◌∷◌, get_or}
use taskfire.Prelude.Int.{sub_ℕ}
use taskfire.Async.{Async, gets, ◌>>◌}
use taskfire.Json.{object, end}
use taskfire.Job.{DlqEntry, priority_label}
use taskfire.Redis.Member.{dlq, Document, Member, document, malformed, null_text, parse}
use taskfire.Redis.Server.{Redis}
use taskfire.World.{World, Env, io}

-- What the listing shows of a parsed job, with the defaults for what it lacks.
unfoldable pub dlq_entry : Document → DlqEntry
unfolding priority_label
dlq_entry job = record {
  id = job.id;
  type = job.type;
  payload = get_or job.payload (object end);
  priority = get_or job.priority 100;
  priority_label = priority_label (get_or job.priority 100);
  error = job.error_message;
  retry_count = get_or job.retry_count 0;
  max_retries = get_or job.max_retries 3;
  failed_at = job.failed_at;
  created_at = job.created_at;
}

-- `flatMap`: a member that is no JSON is left out.
unfoldable pub dlq_entries : List Member → List DlqEntry
unfolding parse dlq_entry
dlq_entries [] = []
dlq_entries (m ∷ ms) =
    let rest = dlq_entries ms in elim (parse m) [ none ↦ rest | some d ↦ dlq_entry d ∷ rest ]

-- The values that are JSON; `none` is null.
unfoldable pub parsed : List Member → List (Option Document)
parsed [] = []
parsed (document layout d ∷ ms) = some d ∷ parsed ms
parsed (malformed n ∷ ms) = parsed ms
parsed (null_text layout ∷ ms) = none ∷ parsed ms

module _ {Store : Type 0} (redis : Redis Store) (env : Env Store) where
  -- `getDLQJobs`. The last rank `offset + limit - 1` is an integer.
  unfoldable pub get_dlq_jobs : (limit offset : ℕ) → Async (World Store) (List DlqEntry)
  unfolding dlq_entries
  get_dlq_jobs limit offset = do
    io env
    gets (λ w. dlq_entries (redis.zrevrange dlq offset (sub_ℕ (offset + limit) 1) w.redis))

  -- `getProcessingJobs`
  unfoldable pub get_processing_jobs : Async (World Store) (List (Option Document))
  unfolding parsed
  get_processing_jobs = do io env; gets (λ w. parsed (redis.hgetall w.redis))
