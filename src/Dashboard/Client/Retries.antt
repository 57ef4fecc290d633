-- ===== src/Dashboard/Client/Retries.antt =====
-- What the client makes of the replies of api/src/routes/jobs.ts.
use Prim.Native.String
use taskfire.Prelude.{
  ℕ, String, Bool, true, false, ◌≡◌, refl, Option, none, some, List, [], ◌∷◌, map, arith,
}
use taskfire.Async.{Outcome, resolved, rejected}
use taskfire.Job.Schema.{Zod}
use taskfire.Redis.Server.{Redis}
use taskfire.Routes.Reply.{
  Reply, Body, issues, problem, job, job_list, job_logs, dead_letters, empty, answer, error_handler,
}
use taskfire.Routes.Jobs.{Request, handle}
use taskfire.Routes.Jobs.Statuses.{IsBelow, handle-Answers}
use taskfire.World.{World, Env}
use taskfire.Dashboard.Client.{ApiError, ErrorData, Failure, responded, retry_condition, normalise}

-- `path.join('.')`
unfoldable pub join : List String → String
join [] = ""
join (s ∷ []) = s
join (s ∷ t ∷ ts) = String.◌++◌ s (String.◌++◌ "." (join (t ∷ ts)))

-- The fields of a reply's body that the client reads of an error: `zodError` gives the issues their
-- text.
unfoldable pub received : Body → ErrorData
unfolding join
received (issues is) = record {
  error = some "validation_error";
  message = some "Request validation failed";
  details = some (map (λ i. (join i.path, i.message)) is);
}
received (problem error message) = record {
  error = some error;
  message = some message;
  details = none;
}
received (job j) = record { error = j.error; message = none; details = none }
received (job_list l) = record { error = none; message = none; details = none }
received (job_logs id type logs) = record { error = none; message = none; details = none }
received (dead_letters d) = record { error = none; message = none; details = none }
received empty = record { error = none; message = none; details = none }

-- A reply as the failure that axios makes of it.
abbrev pub failure_of : Reply → Failure
failure_of r = responded r.status (some (received r.body))

abbrev pub is_rejected : {W A : Type 0} → Outcome W A → Bool
is_rejected (resolved a w) = false
is_rejected (rejected e w) = true

retry_condition-answer :
    {W : Type 0} (is_network_error : Failure → Bool) (o : Outcome W Reply)
    → ((status : ℕ) (body : Option ErrorData) → is_network_error (responded status body) ≡ false)
    → IsBelow o
    → retry_condition is_network_error (failure_of (answer o).0) ≡ is_rejected o
unfolding retry_condition answer error_handler
retry_condition-answer net (resolved r w) answered below =
    rw (answered r.status (some (received r.body)), retry_condition) (ground arith)
retry_condition-answer net (rejected e w) answered below = rw (answered 500 _) refl

abbrev api_error : ℕ → String → String → Option (List (String × String)) → ApiError
api_error status code message details = record {
  status = status;
  code = code;
  message = message;
  details = details;
}

-- What the caller of the client learns of an error reply; of a reply with data, only its status.
abbrev pub Tells : ℕ → Body → ApiError → Type 0
Tells status (problem code message) e = e ≡ api_error status code message none
Tells status (issues is) e =
    e
    ≡ api_error status "validation_error" "Request validation failed"
        (some (map (λ i. (join i.path, i.message)) is))
Tells status _ e = e.status ≡ status

normalise-Tells :
    (show : ℕ → String) (encode : List (String × String) → String) (status : ℕ) (b : Body)
    → Tells status b (normalise show encode (responded status (some (received b))))
unfolding normalise received
normalise-Tells show encode status (problem code message) = refl
normalise-Tells show encode status (issues is) = refl
normalise-Tells show encode status (job j) = refl
normalise-Tells show encode status (job_list l) = refl
normalise-Tells show encode status (job_logs id type logs) = refl
normalise-Tells show encode status (dead_letters d) = refl
normalise-Tells show encode status empty = refl

module _ {Store RequestBody : Type 0} (zod : Zod RequestBody) (redis : Redis Store)
    (env : Env Store) (show : ℕ → String) (encode : List (String × String) → String) where
  -- Where a failure with a response is no network error for the retry package, the client sends a
  -- request to the job routes again, given any reply to it, exactly if the handler rejected; and
  -- the error that it makes of the reply has the reply's status and, of an error reply, its code,
  -- its message and its issues.
  pub handle-retry_condition :
      (is_network_error : Failure → Bool)
      → ((status : ℕ) (body : Option ErrorData) → is_network_error (responded status body) ≡ false)
      → (fuel : ℕ) (r : Request RequestBody) (w : World Store)
      → let o = handle zod redis env fuel r w in
        let got = (answer o).0 in
        (retry_condition is_network_error (failure_of got) ≡ is_rejected o)
        × Tells got.status got.body (normalise show encode (failure_of got))
  handle-retry_condition net answered fuel r w =
      let o = handle zod redis env fuel r w in
      let got = (answer o).0 in
      (
        retry_condition-answer net o answered ((handle-Answers zod redis env fuel r).at w),
        normalise-Tells show encode got.status got.body,
      )
