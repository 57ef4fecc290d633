-- ===== src/Job/Schema.antt =====
-- The request schemas of api/src/types/job.ts and api/src/routes/metrics.ts. Parsing is the zod
-- package's: `Zod` has one `safeParse` for each schema, and what the package documents of it, that
-- the data of a successful parse meets every check that the schema lists.
use Prim.Native.Char.{code}
use taskfire.Prelude.{
  ℕ, ◌+◌, String, Bool, true, ◌≡◌, ◌&&◌, ◌||◌, Option, none, some, List, [], ◌∷◌, all, leb, eqb,
  if◌then◌else◌,
}
use taskfire.Job.{JobStatus, JobPriority}
use taskfire.Json.{Json}

-- The code points of a text.
abbrev pub codes : String → List ℕ
codes String.[] = []
codes (String.◌∷◌ c s) = code c ∷ codes s

-- `length` of a JavaScript string counts UTF-16 units.
unfoldable pub utf16_length : List ℕ → ℕ
utf16_length [] = 0
utf16_length (c ∷ cs) = (if leb 0x10000 c then 2 else 1) + utf16_length cs

-- /[a-z0-9_:-]/i
unfoldable pub is_type_char : ℕ → Bool
is_type_char c =
    (leb b'a' c && leb c b'z')
    || (leb b'A' c && leb c b'Z')
    || (leb b'0' c && leb c b'9')
    || eqb c b'_'
    || eqb c b':'
    || eqb c b'-'

pub record CreateJobInput : Type 0 where
  pub type : String
  pub payload : Json
  pub priority : JobPriority
  pub max_retries : ℕ
  pub scheduled_at : Option ℕ
  pub dependencies : List String

pub record ListJobsQuery : Type 0 where
  pub status : Option JobStatus
  pub priority : Option JobPriority
  pub type : Option String
  pub page : ℕ
  pub limit : ℕ

pub record DlqQuery : Type 0 where
  pub limit : ℕ
  pub offset : ℕ

-- The checks of `CreateJobSchema`; `is_uuid` is the package's test.
unfoldable pub create_job_schema : (String → Bool) → CreateJobInput → Bool
unfolding utf16_length is_type_char
create_job_schema is_uuid i =
    leb 1 (utf16_length (codes i.type))
    && leb (utf16_length (codes i.type)) 128
    && all is_type_char (codes i.type)
    && leb i.max_retries 20
    && all is_uuid i.dependencies

abbrev type_filter : Option String → Bool
type_filter none = true
type_filter (some t) = leb 1 (utf16_length (codes t)) && leb (utf16_length (codes t)) 128

-- The checks of `ListJobsQuerySchema`.
unfoldable pub list_jobs_query_schema : ListJobsQuery → Bool
unfolding utf16_length
list_jobs_query_schema q = type_filter q.type && leb 1 q.page && leb 1 q.limit && leb q.limit 200

-- The checks of `DLQQuerySchema`.
unfoldable pub dlq_query_schema : DlqQuery → Bool
dlq_query_schema q = leb 1 q.limit && leb q.limit 500

-- One entry of `details` in a 400 reply.
pub record Issue : Type 0 where
  pub path : List String
  pub message : String

pub data Parsed (A : Type 0) : Type 0 where
  success : A → Parsed A
  failure : List Issue → Parsed A

-- `Body` is whatever a request carries: body, query string or path parameters.
pub record Zod (Body : Type 0) : Type 0 where
  pub is_uuid : String → Bool
  pub parse_create : Body → Parsed CreateJobInput
  pub parse_list : Body → Parsed ListJobsQuery
  pub parse_id : Body → Parsed String
  pub parse_retry : Body → Parsed Bool
  pub parse_dlq : Body → Parsed DlqQuery
  pub create_checked :
      (b : Body) (i : CreateJobInput)
      → parse_create b ≡ success i
      → create_job_schema is_uuid i ≡ true
  pub list_checked :
      (b : Body) (q : ListJobsQuery) → parse_list b ≡ success q → list_jobs_query_schema q ≡ true
  pub id_checked : (b : Body) (id : String) → parse_id b ≡ success id → is_uuid id ≡ true
  pub dlq_checked : (b : Body) (q : DlqQuery) → parse_dlq b ≡ success q → dlq_query_schema q ≡ true
