-- ===== src/Dashboard/Client.antt =====
-- dashboard/src/api/client.ts: the requests that its functions send, the condition for sending a
-- request again, and the shape that its interceptor gives to errors. Sending is the axios
-- package's. A request's path is kept as a text and its query as the text behind it; times are
-- milliseconds.
pub mod Retries
use Prim.Native.String
use taskfire.Prelude.{
  ℕ, ◌+◌, String, Bool, true, false, ◌==◌, not, Option, none, some, List, [], ◌∷◌, ltb, leb, get_or,
  if◌then◌else◌,
}
use taskfire.Json.{Json}
use taskfire.Job.{JobStatus, status_text, JobPriority, high, medium, low}
use taskfire.Dashboard.JobTable.{ListJobsParams}

-- `string | number | boolean`
pub data Value : Type 0 where
  text : String → Value
  number : ℕ → Value
  boolean : Bool → Value

-- `ApiError`. An issue of `details` is its path and its message.
pub record ApiError : Type 0 where
  pub status : ℕ
  pub code : String
  pub message : String
  pub details : Option (List (String × String))

-- The body of an error reply as far as the client reads it; `none` is undefined.
pub record ErrorData : Type 0 where
  pub error : Option String
  pub message : Option String
  pub details : Option (List (String × String))

-- An `AxiosError`: with a response, with a request that got none, or with neither.
pub data Failure : Type 0 where
  responded : (status : ℕ) → Option ErrorData → Failure
  requested : (message : String) → Failure
  unsent : (message : String) → Failure

pub data Method : Type 0 where
  get post delete : Method

-- `CreateJobInput` of the dashboard's types; a field left out is `none`.
pub record CreateJobInput : Type 0 where
  pub type : String
  pub payload : Option Json
  pub priority : Option JobPriority
  pub max_retries : Option ℕ
  pub scheduled_at : Option ℕ
  pub dependencies : Option (List String)

-- `RetryJobInput`
pub record RetryJobInput : Type 0 where
  pub reset_retries : Option Bool

pub data Payload : Type 0 where
  nothing : Payload
  job_input : CreateJobInput → Payload
  retry_input : RetryJobInput → Payload

pub record Request : Type 0 where
  pub method : Method
  pub url : String
  pub payload : Payload

-- The condition for another attempt; `is_network_error` is the axios-retry package's.
unfoldable pub retry_condition : (Failure → Bool) → Failure → Bool
retry_condition is_network_error f =
    if is_network_error f
    then true
    else elim f [ responded status body ↦ leb 500 status | requested m ↦ false | unsent m ↦ false ]

-- The texts of the priorities.
unfoldable pub priority_text : JobPriority → String
priority_text high = "high"
priority_text medium = "medium"
priority_text low = "low"

abbrev pub mapped {ℓ κ} : {A : Type ℓ} {B : Type κ} → (A → B) → Option A → Option B
mapped f none = none
mapped f (some a) = some (f a)

abbrev pub Params : Type 0
Params = List (String × Option Value)

abbrev pub is_set : Value → Bool
is_set (text s) = not (s == "")
is_set (number n) = true
is_set (boolean b) = true

-- `String(n)`, and `URLSearchParams` for entries with different keys: its text of the entries.
module _ (show : ℕ → String) (encode : List (String × String) → String) where
  abbrev pub value_text : Value → String
  value_text (text s) = s
  value_text (number n) = show n
  value_text (boolean true) = "true"
  value_text (boolean false) = "false"

  -- The loop of `buildQuery`
  unfoldable pub query_entries : Params → List (String × String)
  query_entries [] = []
  query_entries ((key, none) ∷ ps) = query_entries ps
  query_entries ((key, some v) ∷ ps) =
      let rest = query_entries ps in if is_set v then (key, value_text v) ∷ rest else rest

  -- `buildQuery`
  unfoldable pub build_query : Params → String
  unfolding query_entries
  build_query ps =
      let str = encode (query_entries ps) in if str == "" then "" else String.◌++◌ "?" str

  -- `list`
  unfoldable pub list_params : ListJobsParams → Params
  unfolding priority_text status_text
  list_params p =
      ("status", mapped (λ s. text (status_text s)) p.status)
      ∷ ("priority", mapped (λ s. text (priority_text s)) p.priority)
      ∷ ("type", mapped text p.type)
      ∷ ("page", mapped number p.page)
      ∷ ("limit", mapped number p.limit)
      ∷ []

  abbrev getting : String → Request
  getting url = record { method = get; url = url; payload = nothing }

  abbrev job_url : String → String → String
  job_url id suffix = String.◌++◌ "/api/jobs/" (String.◌++◌ id suffix)

  unfoldable pub list : ListJobsParams → Request
  unfolding build_query list_params
  list p = getting (String.◌++◌ "/api/jobs" (build_query (list_params p)))

  unfoldable pub get_job : String → Request
  get_job id = getting (job_url id "")

  unfoldable pub create : CreateJobInput → Request
  create input = record { method = post; url = "/api/jobs"; payload = job_input input }

  unfoldable pub cancel : String → Request
  cancel id = record { method = delete; url = job_url id ""; payload = nothing }

  unfoldable pub retry : String → RetryJobInput → Request
  retry id input = record { method = post; url = job_url id "/retry"; payload = retry_input input }

  unfoldable pub get_logs : String → Request
  get_logs id = getting (job_url id "/logs")

  unfoldable pub dead_letter : (limit offset : Option ℕ) → Request
  unfolding build_query
  dead_letter limit offset = getting (
      String.◌++◌ "/api/metrics/dead-letter"
        (build_query (("limit", mapped number limit) ∷ ("offset", mapped number offset) ∷ [])))

  -- The error interceptor.
  unfoldable pub normalise : Failure → ApiError
  normalise (responded status body) = record {
    status = status;
    code = elim body [ none ↦ "api_error" | some d ↦ get_or d.error "api_error" ];
    message =
        let default = String.◌++◌ "Request failed with status " (show status) in
        elim body [ none ↦ default | some d ↦ get_or d.message default ];
    details = elim body [ none ↦ none | some d ↦ d.details ];
  }
  normalise (requested m) = record {
    status = 0;
    code = "network_error";
    message = "Network request failed — the server may be unreachable";
    details = none;
  }
  normalise (unsent m) = record { status = 0; code = "client_error"; message = m; details = none }

-- `FailureRatePoint`; the rate is the fraction of `failed` and `rate_of`, 0 where that is 0.
pub record ThroughputPoint : Type 0 where
  pub time : ℕ
  pub completed : ℕ
  pub failed : ℕ

pub record FailureRatePoint : Type 0 where
  pub time : ℕ
  pub total : ℕ
  pub failed : ℕ
  -- numerator and denominator
  pub rate : ℕ × ℕ

-- The mapping of `failureRate`
unfoldable pub failure_rate_point : ThroughputPoint → FailureRatePoint
failure_rate_point r =
    let total = r.completed + r.failed in
    record {
      time = r.time;
      total = total;
      failed = r.failed;
      rate = if ltb 0 total then (r.failed, total) else (0, 1);
    }
