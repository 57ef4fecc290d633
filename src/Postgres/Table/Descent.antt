-- ===== src/Postgres/Table/Descent.antt =====
-- What no statement of the service changes of a row, and that none takes a row away.
use taskfire.Prelude.{
  ℕ, String, Bool, true, false, ◌≡◌, refl, ap, ◌∙◌, List, [], ◌∷◌, ◌++◌, ◌⊎◌, inl, inr, arith,
  Bool-cases, if◌then◌else◌,
}
use taskfire.Job.{JobStatus, pending, active, completed, failed, dead}
use taskfire.Postgres.Row.{Row}
use taskfire.Postgres.Table.{
  new_row, insert_statement, select_by_id, touch, replace_where, update_statement, cancellable,
  retriable, set_cancelled, where_cancellable, cancel_statement, set_requeued, where_retriable,
  requeue_statement,
}
use taskfire.Postgres.Table.Laws.{KeptByStatements}

-- Another state of a row: what was asked for and when stays, the retries stay or are forgotten, and
-- an active or completed row is as it was.
pub record Became (r r' : Row) : Type 0 where
  pub id : r'.id ≡ r.id
  pub type : r'.type ≡ r.type
  pub payload : r'.payload ≡ r.payload
  pub priority : r'.priority ≡ r.priority
  pub max_retries : r'.max_retries ≡ r.max_retries
  pub dependencies : r'.dependencies ≡ r.dependencies
  pub created_at : r'.created_at ≡ r.created_at
  pub scheduled_at : r'.scheduled_at ≡ r.scheduled_at
  pub retries : (r'.retry_count ≡ r.retry_count) ⊎ (r'.retry_count ≡ 0)
  pub is_over : (r.status ≡ active) ⊎ (r.status ≡ completed) → r' ≡ r

-- A table and a later one: each row in its place, and behind them rows that have no retries.
abbrev pub Descends : List Row → List Row → Type 0
Descends [] [] = Unit {0}
Descends [] (r' ∷ rows') = (r'.retry_count ≡ 0) × Descends [] rows'
Descends (r ∷ rows) [] = ⊥
Descends (r ∷ rows) (r' ∷ rows') = Became r r' × Descends rows rows'

Became-refl : (r : Row) → Became r r
Became-refl r = record {
  id = refl;
  type = refl;
  payload = refl;
  priority = refl;
  max_retries = refl;
  dependencies = refl;
  created_at = refl;
  scheduled_at = refl;
  retries = inl refl;
  is_over = λ _. refl;
}

pub Descends-refl : (rows : List Row) → Descends rows rows
Descends-refl [] = tt
Descends-refl (r ∷ rows) = (Became-refl r, Descends-refl rows)

append-Descends :
    (start rows : List Row) (new : Row)
    → new.retry_count ≡ 0
    → Descends start rows
    → Descends start (rows ++ new ∷ [])
append-Descends [] [] new z d = (z, tt)
append-Descends [] (r ∷ rows) new z d = (d.0, append-Descends [] rows new z d.1)
append-Descends (s ∷ start) [] new z d = absurd d
append-Descends (s ∷ start) (r ∷ rows) new z d = (d.0, append-Descends start rows new z d.1)

-- A change of the rows that can be changed keeps what has to stay.
module _ (p : Row → Bool) (f : Row → Row)
    (becomes : (r r' : Row) → p r' ≡ true → Became r r' → Became r (f r'))
    (forgets : (r : Row) → r.retry_count ≡ 0 → (f r).retry_count ≡ 0) where
  replace-Descends :
      (start rows : List Row) → Descends start rows → Descends start (replace_where p f rows)
  replace-Descends [] [] d = tt
  replace-Descends [] (r ∷ rows) d = elim (Bool-cases (p r)) [
    | inl hit ↦ rw hit (forgets r d.0, replace-Descends [] rows d.1)
    | inr miss ↦ rw miss (d.0, replace-Descends [] rows d.1)
  ]
  replace-Descends (s ∷ start) [] d = absurd d
  replace-Descends (s ∷ start) (r ∷ rows) d = elim (Bool-cases (p r)) [
    | inl hit ↦ rw hit (becomes s r hit d.0, replace-Descends start rows d.1)
    | inr miss ↦ rw miss (d.0, replace-Descends start rows d.1)
  ]

settled_uncancellable :
    (r r' : Row)
    → Became r r'
    → cancellable r'.status ≡ true
    → (r.status ≡ active) ⊎ (r.status ≡ completed)
    → ⊥
unfolding cancellable
settled_uncancellable r r' b can (inl is) =
    let same = ap (λ (x : Row). x.status) (b.is_over (inl is)) ∙ is in
    let bad = rw same at can in cc
settled_uncancellable r r' b can (inr is) =
    let same = ap (λ (x : Row). x.status) (b.is_over (inr is)) ∙ is in
    let bad = rw same at can in cc

retriable-cancellable : (s : JobStatus) → retriable s ≡ true → cancellable s ≡ true
unfolding retriable cancellable
retriable-cancellable pending h = cc
retriable-cancellable active h = cc
retriable-cancellable completed h = cc
retriable-cancellable failed h = refl
retriable-cancellable dead h = refl

cancelled-Became :
    (id : String) (now : ℕ) (r r' : Row)
    → where_cancellable id r' ≡ true
    → Became r r'
    → Became r (touch now (set_cancelled now r'))
unfolding where_cancellable set_cancelled
cancelled-Became id now r r' hit b = record {
  id = b.id;
  type = b.type;
  payload = b.payload;
  priority = b.priority;
  max_retries = b.max_retries;
  dependencies = b.dependencies;
  created_at = b.created_at;
  scheduled_at = b.scheduled_at;
  retries = b.retries;
  is_over = λ s. absurd (settled_uncancellable r r' b (ground arith) s);
}

forgotten : (reset : Bool) (n : ℕ) → n ≡ 0 → (if reset then 0 else n) ≡ 0
forgotten true n z = refl
forgotten false n z = z

requeued_retries :
    (reset : Bool) (n m : ℕ)
    → (n ≡ m) ⊎ (n ≡ 0)
    → ((if reset then 0 else n) ≡ m) ⊎ ((if reset then 0 else n) ≡ 0)
requeued_retries true n m h = inr refl
requeued_retries false n m h = h

requeued-Became :
    (id : String) (reset : Bool) (now : ℕ) (r r' : Row)
    → where_retriable id r' ≡ true
    → Became r r'
    → Became r (touch now (set_requeued reset now r'))
unfolding where_retriable set_requeued
requeued-Became id reset now r r' hit b = record {
  id = b.id;
  type = b.type;
  payload = b.payload;
  priority = b.priority;
  max_retries = b.max_retries;
  dependencies = b.dependencies;
  created_at = b.created_at;
  scheduled_at = b.scheduled_at;
  retries = requeued_retries reset r'.retry_count r.retry_count b.retries;
  is_over =
      λ s. absurd (settled_uncancellable r r' b (retriable-cancellable r'.status (ground arith)) s);
}

-- The statements change no row otherwise, and take none away.
pub Descends-KeptByStatements : (start : List Row) → KeptByStatements (Descends start)
unfolding insert_statement new_row select_by_id cancel_statement requeue_statement update_statement
    set_cancelled set_requeued
Descends-KeptByStatements start = record {
  inserts = λ params. record {
    accepted = λ now rows a rows' e d.
        ground (arith, append-Descends start rows (new_row params now) refl d);
  };
  selects = λ id. record { accepted = λ now rows a rows' e d. ground (arith, d) };
  cancels = λ id. record {
    accepted = λ now rows a rows' e d. ground (
      arith,
      replace-Descends (where_cancellable id) (λ r. touch now (set_cancelled now r))
          (cancelled-Became id now) (λ r z. z) start rows d,
    );
  };
  requeues = λ id reset. record {
    accepted = λ now rows a rows' e d. ground (
      arith,
      replace-Descends (where_retriable id) (λ r. touch now (set_requeued reset now r))
          (requeued-Became id reset now) (λ r z. forgotten reset r.retry_count z) start rows d,
    );
  };
}
