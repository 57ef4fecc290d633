-- ===== src/Routes/Jobs/Existing.antt =====
-- Each handler behind its lookup, where nobody else writes and calls may reject: it does to the row
-- what the service says.
use taskfire.Prelude.{
  ℕ, String, Bool, true, false, ◌≡◌, refl, ap, ◌∙◌, Option, none, some, inl, arith, eq_iff,
}
use taskfire.Async.{resolve, ◌>>=◌}
use taskfire.Async.Ends.{Ends-resolved, Ends-weaken, Ends-bind}
use taskfire.Job.{JobStatus, pending, active, completed, failed, dead}
use taskfire.Job.Schema.{Zod}
use taskfire.Postgres.Row.{Row, row_to_job}
use taskfire.Postgres.Table.{cancellable, retriable, set_cancelled, set_requeued, select_by_id}
use taskfire.Postgres.Table.Laws.{IsTable}
use taskfire.Postgres.Table.View.{lookup}
use taskfire.Postgres.Logs.{row_logs, logs_or_empty, get_job_logs}
use taskfire.Postgres.Logs.Laws.{logs_of, logs-select}
use taskfire.Postgres.Session.Laws.Alone.{query_accepted-Ends}
use taskfire.Postgres.Jobs.Alone.{cancel_job-Ends, requeue_job-Ends}
use taskfire.Redis.Queue.Alone.{enqueue_job-Ends, remove_from_queue-Ends}
use taskfire.Redis.Server.{Redis}
use taskfire.Routes.Reply.{reply, conflict, job, job_logs, empty}
use taskfire.Routes.Jobs.{
  uncancellable, cancel, delete_existing, requeue, retry_refusal, retry_existing,
}
use taskfire.Routes.Jobs.CancelRow.{cancelled}
use taskfire.Routes.Jobs.Retry.{requeued}
use taskfire.Routes.Jobs.Service.{Service, says, put, deleted, retried}
use taskfire.Routes.Jobs.Served.{view, Follows, Follows-same, Obeys-unchanged, Obeys-written}
use taskfire.World.{World, Env}
use taskfire.World.Quiet.{IsAlone}

uncancellable-cancellable : (s : JobStatus) → uncancellable s ≡ none → cancellable s ≡ true
unfolding uncancellable cancellable
uncancellable-cancellable pending e = refl
uncancellable-cancellable active e = cc
uncancellable-cancellable completed e = cc
uncancellable-cancellable failed e = refl
uncancellable-cancellable dead e = refl

module _ {Store Body : Type 0} (zod : Zod Body) (redis : Redis Store) {env : Env Store}
    (alone : IsAlone env) (id : String) (w : World Store) (table : IsTable w.jobs) (row : Row)
    (found : lookup id w.jobs ≡ some row) where
  abbrev cancelling : ℕ → String → Service
  cancelling now new_id jobs = (some (reply 204 empty), put id (cancelled now row) jobs)

  cancel-Follows :
      (fuel : ℕ)
      → uncancellable row.status ≡ none
      → Follows env cancelling (view w) (cancel zod redis env fuel id (row_to_job row) w)
  unfolding cancel resolve set_cancelled row_to_job
  cancel-Follows fuel open_ =
      let can = uncancellable-cancellable row.status open_ in
      Ends-bind _ _ _ w
        (Ends-weaken (λ o v h. h)
          (λ e v (fell, same). Obeys-unchanged env cancelling w v e fell same)
          (cancel_job-Ends alone id w table))
        λ o v (n, is, changes).
          rw (is, found, can)
            (Ends-bind _ _ _ v
              (remove_from_queue-Ends redis alone v.jobs v refl fuel row.id row.priority)
              λ _ u kept. Ends-resolved (
                n,
                0,
                inl (refl, λ j. ap (lookup j) kept ∙ ground (arith, changes j, eq_iff id j)),
              ))

  pub delete_existing-Follows :
      (fuel : ℕ) (o : Option String)
      → uncancellable row.status ≡ o
      → Follows env
          (λ now k. deleted now id row)
          (view w)
          (delete_existing zod redis env fuel id (row_to_job row) w)
  unfolding delete_existing resolve row_to_job
  delete_existing-Follows fuel (some message) e =
      Follows-same env (λ now k. deleted now id row) (λ now k jobs. (some (conflict message), jobs))
        (λ now k. rw (e, deleted) refl)
        (rw (e, delete_existing) (Ends-resolved (0, 0, inl (refl, λ j. refl))))
  delete_existing-Follows fuel none e =
      Follows-same env (λ now k. deleted now id row) cancelling (λ now k. rw (e, deleted) refl)
        (rw (e, delete_existing) (cancel-Follows fuel e))

  abbrev requeueing : Bool → ℕ → String → Service
  requeueing reset now new_id jobs = (
    some (reply 200 (job (row_to_job (requeued reset now row)))),
    put id (requeued reset now row) jobs,
  )

  requeue-Follows :
      (reset : Bool)
      → retriable row.status ≡ true
      → Follows env (requeueing reset) (view w) (requeue zod redis env id reset w)
  unfolding requeue resolve set_requeued row_to_job
  requeue-Follows reset can =
      Ends-bind _ _ _ w
        (Ends-weaken (λ o v h. h)
          (λ e v (fell, same). Obeys-unchanged env (requeueing reset) w v e fell same)
          (requeue_job-Ends alone id w table reset))
        λ o v (n, is, changes).
          let is_put : (j : String)
              → lookup j v.jobs ≡ put id (requeued reset (env.db_now n) row) (view w) j =
            λ j. ground (arith, changes j, eq_iff id j) in
          rw (is, found, can)
            (Ends-bind _ _ _ v
              (Ends-weaken (λ _ u kept. kept)
                (λ e u (fell, kept).
                  Obeys-written env (requeueing reset) (view w) u e n 0 fell
                    λ j. ap (lookup j) kept ∙ is_put j)
                (enqueue_job-Ends redis alone v.jobs v refl _))
              λ _ u kept. Ends-resolved (n, 0, inl (refl, λ j. ap (lookup j) kept ∙ is_put j)))

  pub retry_existing-Follows :
      (reset b : Bool)
      → retriable row.status ≡ b
      → Follows env
          (λ now k. retried now id reset row)
          (view w)
          (retry_existing zod redis env id reset (row_to_job row) w)
  unfolding retry_existing resolve row_to_job
  retry_existing-Follows reset false e =
      Follows-same env (λ now k. retried now id reset row)
        (λ now k jobs. (some (conflict (retry_refusal row.status)), jobs)) (λ now k. rw e refl)
        (rw (e, retry_existing) (Ends-resolved (0, 0, inl (refl, λ j. refl))))
  retry_existing-Follows reset true e =
      Follows-same env (λ now k. retried now id reset row) (requeueing reset) (λ now k. rw e refl)
        (rw (e, retry_existing) (requeue-Follows reset e))

  -- The second query of GET /:id/logs reads the row that the first one found.
  pub logs-Follows :
      Follows env
        (λ now k. says (reply 200 (job_logs row.id row.type (row_logs row))))
        (view w)
        ((get_job_logs env id >>= λ logs.
            resolve (reply 200 (job_logs (row_to_job row).id (row_to_job row).type logs)))
          w)
  unfolding get_job_logs select_by_id resolve row_to_job
  logs-Follows =
      let S =
        λ (now : ℕ) (k : String). says (reply 200 (job_logs row.id row.type (row_logs row))) in
      Ends-bind (λ logs v. (logs ≡ row_logs row) × (v.jobs ≡ w.jobs)) _ _ w
        (Ends-bind _ _ _ w
          (Ends-weaken (λ o v h. h) (λ e v (fell, same). Obeys-unchanged env S w v e fell same)
            (query_accepted-Ends alone (select_by_id id) w _ _ λ now. refl))
          λ rows v (n, e, same).
            Ends-resolved (ap logs_or_empty e ∙ logs-select id w.jobs ∙ ap logs_of found, same))
        λ logs v (is, same). rw is (Ends-resolved (0, 0, inl (refl, λ j. ap (lookup j) same)))
