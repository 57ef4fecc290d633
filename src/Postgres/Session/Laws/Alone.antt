-- ===== src/Postgres/Session/Laws/Alone.antt =====
-- A query where nobody else writes and calls may reject: it runs whole, or it leaves the table.
use taskfire.Prelude.{
  ℕ, true, ◌≡◌, refl, sym, ap, ◌∙◌, get_or, Option, none, some, List, Bool-cases, Option-cases, ◌⊎◌,
  inl, inr,
}
use taskfire.Async.{Error, constraint, unavailable}
use taskfire.Async.Ends.{Ends, Ends-resolved, Ends-rejected, Ends-weaken, Ends-bind, Ends-finally}
use taskfire.Postgres.Row.{Row}
use taskfire.Postgres.Table.{Statement}
use taskfire.Postgres.Session.{release, connect, execute, query}
use taskfire.World.{World, Env, tick, io}
use taskfire.World.Quiet.{IsAlone}

-- Some call of a store rejected.
abbrev pub Fell : {Store : Type 0} → Env Store → Type 0
Fell env = (n : ℕ) × (env.fails n ≡ true)

module _ {Store : Type 0} {env : Env Store} (alone : IsAlone env) where
  -- A call leaves the table, also where it rejects; `Q` is what is wanted then.
  pub io-Ends :
      (Q : Error → World Store → Type 0) (rows : List Row) (w : World Store)
      → w.jobs ≡ rows
      → ((e : Error) (v : World Store) → Fell env → v.jobs ≡ rows → Q e v)
      → Ends (λ _ v. v.jobs ≡ rows) Q (io env w)
  unfolding io
  io-Ends Q rows w same q =
      let same' = alone.no_others w.steps w.jobs ∙ same in
      elim (Bool-cases (env.fails w.steps)) [
        | inl fell ↦ rw fell (Ends-rejected (q unavailable (tick env w) (w.steps, fell) same'))
        | inr fine ↦ rw fine (Ends-resolved same')
      ]

  module _ {A : Type 0} (stmt : Statement A) where
    -- The statement ran on the rows, at a time of the database.
    abbrev pub Ran : List Row → A → World Store → Type 0
    Ran rows a v = (n : ℕ) × (stmt (env.db_now n) rows ≡ some (a, v.jobs))

    -- The table is as it was: a call rejected, or the database refused the statement.
    abbrev pub Refused : List Row → Error → World Store → Type 0
    Refused rows e v =
        (v.jobs ≡ rows)
        × (Fell env ⊎ ((n : ℕ) × (stmt (env.db_now n) rows ≡ none) × (e ≡ constraint)))

    execute-Ends :
        (rows : List Row) (w : World Store)
        → w.jobs ≡ rows
        → Ends (Ran rows) (Refused rows) (execute env stmt w)
    unfolding execute
    execute-Ends rows w same = elim (Option-cases (stmt (env.db_now w.steps) w.jobs)) [
      | inl e ↦ rw (e, execute) (Ends-rejected (same, inr (w.steps, rw same at e, refl)))
      | inr ((a, rows'), e) ↦ rw (e, execute) (Ends-resolved (w.steps, rw same at e))
    ]

    -- A query resolves where its statement ran, and rejects with the table as it was.
    pub query-Ends : (w : World Store) → Ends (Ran w.jobs) (Refused w.jobs) (query env stmt w)
    unfolding query connect
    query-Ends w =
        Ends-bind (λ _ v. v.jobs ≡ w.jobs) _ _ w
          (Ends-bind (λ _ v. v.jobs ≡ w.jobs) _ _ w
            (io-Ends _ w.jobs w refl λ e v fell same. (same, inl fell))
            λ _ v same. Ends-resolved same)
          λ _ v same. Ends-finally _ release v (
            Ends-bind (λ _ u. u.jobs ≡ w.jobs) _ _ v
              (io-Ends _ w.jobs v same λ e u fell kept. (kept, inl fell))
              λ _ u same'. execute-Ends w.jobs u same')

    -- A statement that the database accepts, with the rows and the table that it then gives.
    pub query_accepted-Ends :
        (w : World Store) (result : ℕ → A) (table : ℕ → List Row)
        → ((now : ℕ) → stmt now w.jobs ≡ some (result now, table now))
        → Ends
            (λ a v. (n : ℕ) × (a ≡ result (env.db_now n)) × (v.jobs ≡ table (env.db_now n)))
            (λ _ v. Fell env × (v.jobs ≡ w.jobs))
            (query env stmt w)
    query_accepted-Ends w result table accepts =
        Ends-weaken
          (λ a v (n, ran).
            let same = sym ran ∙ accepts (env.db_now n) in
            let part = λ (o : Option (A × List Row)). get_or {A = A × List Row} o (a, v.jobs) in
            (n, ap (λ o. (part o).0) same, ap (λ o. (part o).1) same))
          (λ e v (same, why). elim why [
            | inl fell ↦ (fell, same)
            | inr (n, refused, _) ↦ let bad = sym (accepts (env.db_now n)) ∙ refused in cc
          ])
          (query-Ends w)
