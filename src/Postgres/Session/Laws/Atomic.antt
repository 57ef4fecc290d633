-- ===== src/Postgres/Session/Laws/Atomic.antt =====
-- A transaction happens whole or not at all, where no other session writes.
use taskfire.Prelude.{
  ℕ, suc, true, ◌≡◌, refl, ap, ◌∙◌, subst, List, arith, ◌⊎◌, inl, inr, Bool-cases,
}
use taskfire.Async.{Async, Error, Outcome, resolved, rejected, world, resolve, reject, ◌>>=◌, ◌>>◌}
use taskfire.Async.Keeps.{Keeps}
use taskfire.Async.Ends.{
  Ends, Ends-resolved, Ends-rejected, Ends-weaken, Ends-bind, Ends-catch, Ends-finally,
}
use taskfire.Postgres.Row.{Row}
use taskfire.Postgres.Table.{Statement}
use taskfire.Postgres.Session.{
  client_query, release, connect, begin, commit, rollback, with_transaction,
}
use taskfire.Postgres.Session.Client.{client_query-Keeps}
use taskfire.World.{no_transaction, World, Env, tick, io}
use taskfire.World.Quiet.{IsAlone}

module _ {Store : Type 0} where
  abbrev pub HasJobs : List Row → World Store → Type 0
  HasJobs rows w = w.jobs ≡ rows

  -- The body ran once, from a table and an empty transaction, and its writes are what is committed.
  abbrev pub Committed : {A : Type 0} → Async (World Store) A → List Row → A → World Store → Type 0
  Committed fn rows a v =
      (u : World Store) × (u' : World Store) × (u.jobs ≡ rows)
      × (u.writes ≡ (λ rs. rs))
      × (fn u ≡ resolved a u')
      × (v.jobs ≡ u'.writes rows)

pub Keeps-Ends :
    {W A : Type 0} (P : W → Type 0) {fn : Async W A}
    → Keeps P fn
    → (u : W) → P u
    → Ends (λ _ v. P v) (λ _ v. P v) (fn u)
Keeps-Ends P keeps u h = record {
  on_resolved = λ a v e. subst (λ o. P (world o)) e (keeps.at u h);
  on_rejected = λ d v e. subst (λ o. P (world o)) e (keeps.at u h);
}

module _ {Store : Type 0} (env : Env Store) where
  -- The last call before this world rejected.
  abbrev pub LastFell : World Store → Type 0
  LastFell v = (n : ℕ) × (v.steps ≡ suc n) × (env.fails n ≡ true)

  -- The COMMIT at step `n` rejected, and had been carried out.
  abbrev pub Landed : ℕ → Type 0
  Landed n = (env.fails n ≡ true) × (env.lands n ≡ true)

  module _ {A : Type 0} (fn : Async (World Store) A) (rows : List Row) where
    abbrev pub Done : A → World Store → Type 0
    Done a v = Committed fn rows a v × (v.transaction ≡ no_transaction)

    -- The table is as it was, or a COMMIT landed whose call rejected; then one call came, the
    -- ROLLBACK. No transaction is left open, or the last call rejected.
    abbrev pub Undone : World Store → Type 0
    Undone v =
        ((v.jobs ≡ rows)
          ⊎ ((a : A) × (n : ℕ) × Committed fn rows a v × (v.steps ≡ suc (suc n)) × Landed n))
        × ((v.transaction ≡ no_transaction) ⊎ LastFell v)

    -- Where the `catch` block starts.
    abbrev Failed : Error → World Store → Type 0
    Failed e u =
        HasJobs rows u ⊎ ((a : A) × (n : ℕ) × Committed fn rows a u × (u.steps ≡ suc n) × Landed n)

module _ {Store : Type 0} {env : Env Store} (alone : IsAlone env) where
  -- One call later.
  abbrev Waited : World Store → World Store → Type 0
  Waited w v = (v.jobs ≡ w.jobs) × (v.writes ≡ w.writes) × (v.steps ≡ suc w.steps)

  io-Waited :
      (w : World Store)
      → Ends (λ _ v. Waited w v) (λ _ v. Waited w v × (env.fails w.steps ≡ true)) (io env w)
  unfolding io
  io-Waited w =
      let waited : Waited w (tick env w) = (alone.no_others w.steps w.jobs, refl, refl) in
      elim (Bool-cases (env.fails w.steps)) [
        | inl fell ↦ rw fell (Ends-rejected (waited, refl))
        | inr fine ↦ rw fine (Ends-resolved waited)
      ]

  commit-Ends :
      (rows : List Row) (u : World Store)
      → HasJobs rows u
      → Ends
          (λ _ v. (v.jobs ≡ u.writes rows) × (v.transaction ≡ no_transaction))
          (λ _ v.
            HasJobs rows v
            ⊎ ((v.jobs ≡ u.writes rows) × (v.steps ≡ suc u.steps) × Landed env u.steps))
          (commit env u)
  unfolding commit
  commit-Ends rows u h =
      let same = alone.no_others u.steps u.jobs ∙ h in
      let written = ap u.writes same in
      elim (Bool-cases (env.fails u.steps)) [
        | inr fine ↦ rw fine (Ends-resolved (written, refl))
        | inl fell ↦ elim (Bool-cases (env.lands u.steps)) [
          | inr missed ↦ rw (fell, missed) (Ends-rejected (inl same))
          | inl landed ↦ rw (fell, landed) (Ends-rejected (inr (written, refl, (refl, refl))))
        ]
      ]

  begin-Ends :
      (rows : List Row) (u : World Store)
      → HasJobs rows u
      → Ends (λ _ v. HasJobs rows v × (v.writes ≡ (λ rs. rs))) (λ _ v. HasJobs rows v) (begin env u)
  unfolding begin
  begin-Ends rows u h =
      Ends-bind (λ _ v. Waited u v) _ _ u
        (Ends-weaken (λ _ v waited. waited) (λ _ v (waited, _). waited.0 ∙ h) (io-Waited u))
        λ _ v waited. Ends-resolved (waited.0 ∙ h, refl)

  rollback-Ends :
      (u : World Store)
      → Ends
          (λ _ v. (v.jobs ≡ u.jobs) × (v.steps ≡ suc u.steps) × (v.transaction ≡ no_transaction))
          (λ _ v. (v.jobs ≡ u.jobs) × (v.steps ≡ suc u.steps) × (env.fails u.steps ≡ true))
          (rollback env u)
  unfolding rollback
  rollback-Ends u =
      Ends-bind (λ _ v. Waited u v) _ _ u
        (Ends-weaken (λ _ v waited. waited) (λ _ v ((same, _, later), fell). (same, later, fell))
          (io-Waited u))
        λ _ v (same, _, later). Ends-resolved (same, later, refl)

  module _ {A : Type 0} (fn : Async (World Store) A)
      (keeps : (rows : List Row) → Keeps (HasJobs rows) fn) where
    fn-Ends :
        (rows : List Row) (u : World Store)
        → HasJobs rows u
        → Ends (λ a v. (fn u ≡ resolved a v) × HasJobs rows v) (λ _ v. HasJobs rows v) (fn u)
    fn-Ends rows u h =
        let ends = Keeps-Ends (HasJobs rows) (keeps rows) u h in
        record {
          on_resolved = λ a v e. (e, ends.on_resolved a v e);
          on_rejected = ends.on_rejected;
        }

    -- The body and the commit, from an empty transaction.
    body-Ends :
        (rows : List Row) (u : World Store)
        → HasJobs rows u
        → Ends
            (Done env fn rows)
            (Failed env fn rows)
            ((begin env >> (fn >>= λ r. commit env >> resolve r)) u)
    unfolding resolve
    body-Ends rows u h =
        Ends-bind (λ _ v. HasJobs rows v × (v.writes ≡ (λ rs. rs))) _ _ u
          (Ends-weaken (λ _ v k. k) (λ _ v k. inl k) (begin-Ends rows u h))
          λ _ v (h', fresh).
            Ends-bind (λ a v'. (fn v ≡ resolved a v') × HasJobs rows v') _ _ v
              (Ends-weaken (λ _ v' k. k) (λ _ v' k. inl k) (fn-Ends rows v h'))
              λ a v' (ran, kept).
                Ends-bind
                  (λ _ v''. (v''.jobs ≡ v'.writes rows) × (v''.transaction ≡ no_transaction)) _ _ v'
                  (Ends-weaken (λ _ v'' k. k)
                    (λ _ v'' o. elim o [
                      | inl same ↦ inl same
                      | inr (done, later, landed) ↦
                          inr (a, v'.steps, (v, v', h', fresh, ran, done), later, landed)
                    ])
                    (commit-Ends rows v' kept))
                  λ _ v'' (done, over). Ends-resolved ((v, v', h', fresh, ran, done), over)

    -- The `catch` block.
    undo-Ends :
        (rows : List Row) (e : Error) (u : World Store)
        → Failed env fn rows e u
        → Ends {A = A}
            (Done env fn rows)
            (λ _ v. Undone env fn rows v)
            ((rollback env >> reject e) u)
    unfolding reject
    undo-Ends rows e u failed =
        let after : (v : World Store)
            → v.jobs ≡ u.jobs
            → v.steps ≡ suc u.steps
            → (v.transaction ≡ no_transaction) ⊎ LastFell env v
            → Undone env fn rows v =
          λ v same later over. elim failed [
            | inl h ↦ (inl (same ∙ h), over)
            | inr (a, n, (t, t', from, fresh, ran, done), at, landed) ↦ (
              inr (a, n, (t, t', from, fresh, ran, same ∙ done), later ∙ ap suc at, landed),
              over,
            )
          ] in
        Ends-bind
          (λ _ v. (v.jobs ≡ u.jobs) × (v.steps ≡ suc u.steps) × (v.transaction ≡ no_transaction)) _
          _ u
          (Ends-weaken (λ _ v k. k)
            (λ _ v (same, later, fell). after v same later (inr (u.steps, later, fell)))
            (rollback-Ends u))
          λ _ v (same, later, over). Ends-rejected (after v same later (inl over))

    pub with_transaction-Ends :
        (w : World Store)
        → Ends (Done env fn w.jobs) (λ _ v. Undone env fn w.jobs v) (with_transaction env fn w)
    unfolding with_transaction connect
    with_transaction-Ends w =
        Ends-bind (λ _ v. HasJobs w.jobs v) _ _ w
          (Ends-bind (λ _ v. Waited w v) _ _ w
            (Ends-weaken (λ _ v waited. waited)
              (λ _ v ((same, _, later), fell). (inl same, inr (w.steps, later, fell)))
              (io-Waited w))
            λ _ v waited. Ends-resolved waited.0)
          λ _ v h.
            Ends-finally _ release v
              (Ends-catch (Failed env fn w.jobs) _ _ v (body-Ends w.jobs v h) (undo-Ends w.jobs))

-- A statement inside a transaction commits nothing itself.
pub client_query-HasJobs :
    {Store : Type 0} {env : Env Store} (alone : IsAlone env) {A : Type 0} (stmt : Statement A)
    (rows : List Row)
    → Keeps (HasJobs rows) (client_query env stmt)
unfolding io
client_query-HasJobs {env} alone stmt rows =
    client_query-Keeps env (HasJobs rows)
      (record { at = λ w h. ground (arith, alone.no_others w.steps w.jobs) }) (λ w h. h) stmt
      λ w a rs e h. h

-- What a transaction that resolved has done, and one that rejected.
abbrev pub AllOrNothing :
    {Store A : Type 0}
    → Env Store
    → Async (World Store) A
    → List Row
    → Outcome (World Store) A
    → Type 0
AllOrNothing env fn rows (resolved a v) = Done env fn rows a v
AllOrNothing env fn rows (rejected e v) = Undone env fn rows v

Ends-AllOrNothing :
    {Store A : Type 0} (env : Env Store) (fn : Async (World Store) A) (rows : List Row)
    (o : Outcome (World Store) A)
    → Ends (Done env fn rows) (λ _ v. Undone env fn rows v) o
    → AllOrNothing env fn rows o
Ends-AllOrNothing env fn rows (resolved a v) h = h.on_resolved a v refl
Ends-AllOrNothing env fn rows (rejected e v) h = h.on_rejected e v refl

-- Where no other session writes, and the body itself commits nothing: a transaction that resolves
-- has committed exactly what its body wrote from the table as it was, and none is open any more.
-- One that rejects has left the table as it was, except where the call that rejected was the
-- COMMIT and the database had carried it out; then all that the body wrote is there. After a
-- rejection none is open any more either, except where the last call, the one for a client or the
-- ROLLBACK, rejected too.
pub with_transaction-AllOrNothing :
    {Store A : Type 0} {env : Env Store} (alone : IsAlone env) (fn : Async (World Store) A)
    (keeps : (rows : List Row) → Keeps (HasJobs rows) fn) (w : World Store)
    → AllOrNothing env fn w.jobs (with_transaction env fn w)
with_transaction-AllOrNothing {env} alone fn keeps w =
    Ends-AllOrNothing env fn w.jobs (with_transaction env fn w)
      (with_transaction-Ends alone fn keeps w)
