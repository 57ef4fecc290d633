-- ===== src/Tests/Samples.antt =====
-- A table, an environment in which every call comes back, and requests.
use taskfire.Prelude.{
  ℕ, ◌+◌, ◌≡◌, refl, sym, String, Bool, true, false, ◌==◌, not, none, some, List, [], ◌∷◌, map,
  if◌then◌else◌,
}
use taskfire.Json.{null}
use taskfire.Job.{JobStatus, pending, dead, high}
use taskfire.Job.Schema.{
  CreateJobInput, ListJobsQuery, DlqQuery, create_job_schema, list_jobs_query_schema,
  dlq_query_schema, Parsed, success, failure, Zod,
}
use taskfire.Postgres.Row.{Row}
use taskfire.Postgres.Table.{has_id}
use taskfire.Postgres.Table.Laws.{IsTable}
use taskfire.World.{no_transaction, World, Env}
use taskfire.World.Quiet.{IsQuiet}
use taskfire.Tests.Store.{Sets}

abbrev row : String → JobStatus → ℕ → Row
row id status priority = record {
  id = id;
  type = "email";
  payload = null;
  priority = priority;
  status = status;
  retry_count = 1;
  max_retries = 3;
  error = none;
  dependencies = [];
  created_at = 1000;
  updated_at = 2000;
  scheduled_at = none;
  started_at = some 1500;
  completed_at = none;
  failed_at = none;
}

abbrev pub waiting : Row
waiting = row "a" pending 300

abbrev pub buried : Row
buried = row "b" dead 100

abbrev pub table : List Row
table = waiting ∷ buried ∷ []

pub table-IsTable : IsTable table
unfolding taskfire.Postgres.Table.has_id taskfire.Postgres.Table.checks
table-IsTable = (refl, refl, (refl, refl, tt))

pub id_free : has_id "c" table ≡ false
unfolding has_id
id_free = refl

abbrev pub start : World Sets
start = record {
  jobs = table;
  writes = λ rows. rows;
  transaction = no_transaction;
  connections = 0;
  redis = λ k. [];
  redis_ready = true;
  steps = 0;
  slept = 0;
}

abbrev pub calm : Env Sets
calm = record {
  fails = λ n. false;
  lands = λ n. false;
  others = λ n rows. rows;
  traffic = λ n s. s;
  exec = λ n values. some (map some values);
  date_now = λ n. 5000 + n;
  db_now = λ n. 5000 + n;
  random_uuid = λ n. "c";
  created_desc = λ rows. rows;
}

pub calm-IsQuiet : IsQuiet calm
calm-IsQuiet = record {
  alone = record { no_others = λ n rows. refl; no_traffic = λ n s. refl };
  answers = λ n. refl;
  piped = λ n values. refl;
}

pub data Sent : Type 0 where
  creates : CreateJobInput → Sent
  asks : ListJobsQuery → Sent
  names : String → Sent
  resets : Bool → Sent
  asks_dead : DlqQuery → Sent

abbrev checked : {A : Type 0} → Bool → A → Parsed A
checked ok a = if ok then success a else failure []

checked-success :
    {A : Type 0} (ok : Bool) (a b : A) → checked ok a ≡ success b → (ok ≡ true) × (a ≡ b)
checked-success true a b e = (refl, cc)
checked-success false a b e = cc

abbrev is_uuid : String → Bool
is_uuid s = not (s == "")

abbrev parse_create : Sent → Parsed CreateJobInput
parse_create (creates i) = checked (create_job_schema is_uuid i) i
parse_create _ = failure []

abbrev parse_list : Sent → Parsed ListJobsQuery
parse_list (asks q) = checked (list_jobs_query_schema q) q
parse_list _ = failure []

abbrev parse_id : Sent → Parsed String
parse_id (names id) = checked (is_uuid id) id
parse_id _ = failure []

abbrev parse_retry : Sent → Parsed Bool
parse_retry (resets b) = success b
parse_retry _ = failure []

abbrev parse_dlq : Sent → Parsed DlqQuery
parse_dlq (asks_dead q) = checked (dlq_query_schema q) q
parse_dlq _ = failure []

create_checked :
    (b : Sent) (i : CreateJobInput)
    → parse_create b ≡ success i
    → create_job_schema is_uuid i ≡ true
create_checked (creates j) i e = let (ok, same) = checked-success _ j i e in rw (sym same) ok
create_checked (asks q) i e = cc
create_checked (names id) i e = cc
create_checked (resets r) i e = cc
create_checked (asks_dead q) i e = cc

list_checked :
    (b : Sent) (q : ListJobsQuery) → parse_list b ≡ success q → list_jobs_query_schema q ≡ true
list_checked (asks p) q e = let (ok, same) = checked-success _ p q e in rw (sym same) ok
list_checked (creates j) q e = cc
list_checked (names id) q e = cc
list_checked (resets r) q e = cc
list_checked (asks_dead d) q e = cc

id_checked : (b : Sent) (id : String) → parse_id b ≡ success id → is_uuid id ≡ true
id_checked (names n) id e = let (ok, same) = checked-success _ n id e in rw (sym same) ok
id_checked (creates j) id e = cc
id_checked (asks q) id e = cc
id_checked (resets r) id e = cc
id_checked (asks_dead d) id e = cc

dlq_checked : (b : Sent) (q : DlqQuery) → parse_dlq b ≡ success q → dlq_query_schema q ≡ true
dlq_checked (asks_dead p) q e = let (ok, same) = checked-success _ p q e in rw (sym same) ok
dlq_checked (creates j) q e = cc
dlq_checked (asks p) q e = cc
dlq_checked (names id) q e = cc
dlq_checked (resets r) q e = cc

pub zod : Zod Sent
zod = record {
  is_uuid = is_uuid;
  parse_create = parse_create;
  parse_list = parse_list;
  parse_id = parse_id;
  parse_retry = parse_retry;
  parse_dlq = parse_dlq;
  create_checked = create_checked;
  list_checked = list_checked;
  id_checked = id_checked;
  dlq_checked = dlq_checked;
}

abbrev pub input : CreateJobInput
input = record {
  type = "email";
  payload = null;
  priority = high;
  max_retries = 3;
  scheduled_at = some 9500;
  dependencies = [];
}

pub zod-create : zod.parse_create (creates input) ≡ success input
unfolding zod create_job_schema
zod-create = refl

pub zod-id : zod.parse_id (names "a") ≡ success "a"
unfolding zod
zod-id = refl

pub zod-buried : zod.parse_id (names "b") ≡ success "b"
unfolding zod
zod-buried = refl

pub zod-retry : zod.parse_retry (resets true) ≡ success true
unfolding zod
zod-retry = refl

abbrev pub dlq_query : DlqQuery
dlq_query = record { limit = 10; offset = 0 }

pub zod-dlq : zod.parse_dlq (asks_dead dlq_query) ≡ success dlq_query
unfolding zod dlq_query_schema
zod-dlq = refl
