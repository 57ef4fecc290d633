-- ===== src/Routes/Jobs/Held.antt =====
-- No request loses a pending job, where every call comes back and nobody else writes.
use taskfire.Prelude.{
  ℕ, String, Bool, true, false, ◌==◌, ◌≡◌, ◌≢◌, refl, sym, ap, subst, ◌∙◌, Option, none, some, List,
  [], ◌∷◌, ◌⊎◌, inl, inr, arith, eq_iff, Bool-cases, if◌then◌else◌,
}
use taskfire.Job.{JobStatus, pending, active, completed, failed, dead}
use taskfire.Postgres.Row.{Row, row_to_job}
use taskfire.Postgres.Table.{retriable}
use taskfire.Postgres.Table.View.{lookup}
use taskfire.Redis.Member.{Key, delayed}
use taskfire.Redis.Server.{Redis}
use taskfire.Redis.Queue.{lane_key}
use taskfire.Redis.Queue.Enqueue.{Adds}
use taskfire.Redis.Queue.Removal.{Removed}
use taskfire.Redis.Queue.Held.{InQueue, Adds-InQueue, Adds-keeps, Removed-keeps}
use taskfire.Routes.Jobs.{enqueue_payload}
use taskfire.Routes.Jobs.Cancel.{SameStores, CancelledBy, Deleted}
use taskfire.Routes.Jobs.CancelRow.{cancelled, CancelledIn}
use taskfire.Routes.Jobs.Create.{EnqueuedBy}
use taskfire.Routes.Jobs.Retry.{requeued, RetriedBy, Retried}
use taskfire.Routes.Reply.{Reply}
use taskfire.World.{World}

lookup-id : (id : String) (rows : List Row) (r : Row) → lookup id rows ≡ some r → r.id ≡ id
unfolding lookup
lookup-id id [] r e = cc
lookup-id id (s ∷ rows) r e = elim (Bool-cases (s.id == id)) [
  | inl found ↦
      let e' : some s ≡ some r = rw found at e in
      let same : s ≡ r = cc in ap (λ (t : Row). t.id) (sym same) ∙ (eq_iff s.id id).0 found
  | inr other ↦ lookup-id id rows r (rw other at e)
]

-- What a map with one row put holds at an id.
put_cases :
    (id j : String) (new row : Row) (o : Option Row)
    → (if id == j then some new else o) ≡ some row
    → ((j ≡ id) × (row ≡ new)) ⊎ ((j ≢ id) × (o ≡ some row))
put_cases id j new row o e = elim (Bool-cases (id == j)) [
  | inl same ↦ let e' : some new ≡ some row = rw same at e in inl (sym ((eq_iff id j).0 same), cc)
  | inr other ↦ inr (λ is. ground (arith, eq_iff id j), rw other at e)
]

module _ {Store : Type 0} (redis : Redis Store) where
  -- Every pending job of the table is in a queue that leads to its run.
  abbrev pub IsHeld : World Store → Type 0
  IsHeld w =
      (id : String) (row : Row)
      → lookup id w.jobs ≡ some row
      → row.status ≡ pending
      → InQueue redis id row.priority w.redis

  pub SameStores-IsHeld : (w v : World Store) → SameStores w v → IsHeld w → IsHeld v
  SameStores-IsHeld w v (jobs, store) held id row found waits =
      subst (InQueue redis id row.priority) (sym store)
        (held id row (ap (lookup id) (sym jobs) ∙ found) waits)

  -- A row is put under an id, and its job into a queue.
  pub added-IsHeld :
      (w v : World Store) (id : String) (new : Row) (key : Key) (score : ℕ)
      → ((j : String) → lookup j v.jobs ≡ (if id == j then some new else lookup j w.jobs))
      → (key ≡ lane_key new.priority) ⊎ (key ≡ delayed)
      → Adds redis id key score w.redis v.redis
      → IsHeld w
      → IsHeld v
  added-IsHeld w v id new key score rows leads adds held j row found waits =
      elim (put_cases id j new row (lookup j w.jobs) (sym (rows j) ∙ found)) [
        | inl (is, same) ↦
            subst (λ i. InQueue redis i row.priority v.redis) (sym is)
              (subst (λ (r : Row). InQueue redis id r.priority v.redis) (sym same)
                (Adds-InQueue redis id new.priority score key w.redis v.redis leads adds))
        | inr (_, there) ↦
            Adds-keeps redis j id row.priority score key w.redis v.redis adds
              (held j row there waits)
      ]

  -- A row is put under an id that waits no more, and a member of its job is gone.
  Removed-IsHeld :
      (w v : World Store) (id : String) (new : Row) (key : Key) (b : Bool)
      → ((j : String) → lookup j v.jobs ≡ (if id == j then some new else lookup j w.jobs))
      → new.status ≢ pending
      → Removed redis key id w.redis v.redis b
      → IsHeld w
      → IsHeld v
  Removed-IsHeld w v id new key b rows done removed held j row found waits =
      elim (put_cases id j new row (lookup j w.jobs) (sym (rows j) ∙ found)) [
        | inl (_, same) ↦ absurd (done (ap (λ (r : Row). r.status) (sym same) ∙ waits))
        | inr (differs, there) ↦
            Removed-keeps redis j id row.priority key w.redis v.redis b differs removed
              (held j row there waits)
      ]

  pub EnqueuedBy-Adds :
      (row : Row) (at : Option ℕ) (s s' : Store) (later : Bool)
      → EnqueuedBy redis (enqueue_payload (row_to_job row) 0) at s s' later
      → (key : Key) × (score : ℕ) × ((key ≡ lane_key row.priority) ⊎ (key ≡ delayed))
        × Adds redis row.id key score s s'
  unfolding enqueue_payload row_to_job
  EnqueuedBy-Adds row at s s' false (score, adds) = (lane_key row.priority, score, inl refl, adds)
  EnqueuedBy-Adds row at s s' true (date, score, _, adds, _, _) = (delayed, score, inr refl, adds)

  removal-IsHeld :
      (id : String) (row : Row) (w v : World Store) (now : ℕ)
      → row.id ≡ id
      → CancelledIn id now row w.jobs v.jobs
      → ((b : Bool) × Removed redis (lane_key row.priority) row.id w.redis v.redis b)
      → IsHeld w
      → IsHeld v
  removal-IsHeld id row w v now is rows (b, removed) =
      Removed-IsHeld w v id (cancelled now row) (lane_key row.priority) b rows (λ e. cc)
        (subst (λ i. Removed redis (lane_key row.priority) i w.redis v.redis b) is removed)

  CancelledBy-IsHeld :
      (id : String) (row : Row) (w v : World Store) (s : JobStatus) (r : Reply)
      → row.id ≡ id
      → CancelledBy redis id row w s r v
      → IsHeld w
      → IsHeld v
  CancelledBy-IsHeld id row w v active r is (_, same) = SameStores-IsHeld w v same
  CancelledBy-IsHeld id row w v completed r is (_, same) = SameStores-IsHeld w v same
  CancelledBy-IsHeld id row w v pending r is (_, (now, rows), removal) =
      removal-IsHeld id row w v now is rows removal
  CancelledBy-IsHeld id row w v failed r is (_, (now, rows), removal) =
      removal-IsHeld id row w v now is rows removal
  CancelledBy-IsHeld id row w v dead r is (_, (now, rows), removal) =
      removal-IsHeld id row w v now is rows removal

  pub Deleted-IsHeld :
      (id : String) (w v : World Store) (o : Option Row) (r : Reply)
      → lookup id w.jobs ≡ o
      → Deleted redis id w o r v
      → IsHeld w
      → IsHeld v
  Deleted-IsHeld id w v none r found (_, same) = SameStores-IsHeld w v same
  Deleted-IsHeld id w v (some row) r found done =
      CancelledBy-IsHeld id row w v row.status r (lookup-id id w.jobs row found) done

  RetriedBy-IsHeld :
      (id : String) (reset : Bool) (row : Row) (w v : World Store) (b : Bool) (r : Reply)
      → row.id ≡ id
      → RetriedBy redis id reset row w b r v
      → IsHeld w
      → IsHeld v
  RetriedBy-IsHeld id reset row w v false r is (_, same) = SameStores-IsHeld w v same
  RetriedBy-IsHeld id reset row w v true r is (now, score, _, rows, adds, _) =
      added-IsHeld w v id (requeued reset now row) (lane_key row.priority) score rows (inl refl)
        (subst (λ i. Adds redis i (lane_key row.priority) score w.redis v.redis) is adds)

  pub Retried-IsHeld :
      (id : String) (reset : Bool) (w v : World Store) (o : Option Row) (r : Reply)
      → lookup id w.jobs ≡ o
      → Retried redis id reset w o r v
      → IsHeld w
      → IsHeld v
  Retried-IsHeld id reset w v none r found (_, same) = SameStores-IsHeld w v same
  Retried-IsHeld id reset w v (some row) r found done =
      RetriedBy-IsHeld id reset row w v (retriable row.status) r (lookup-id id w.jobs row found)
        done
