-- ===== src/WebSocket/Registry.antt =====
-- The registry as a map from sockets to clients.
use taskfire.Prelude.{
  ℕ, Bool, true, false, ◌≡◌, refl, Option, none, some, List, [], ◌∷◌, eqb, arith, if◌then◌else◌,
  Bool-cases, inl, inr,
}
use taskfire.WebSocket.{TrackedClient, find, set, delete, set_alive}

pub find-delete :
    (s t : ℕ) (cs : List TrackedClient)
    → find s (delete t cs) ≡ (if eqb t s then none else find s cs)
unfolding delete
find-delete s t [] = ground arith
find-delete s t (c ∷ cs) = ground (arith, find-delete s t cs)

pub find-set :
    (s : ℕ) (e : TrackedClient) (cs : List TrackedClient)
    → find s (set e cs) ≡ (if eqb e.socket s then some e else find s cs)
unfolding set
find-set s e [] = ground arith
find-set s e (c ∷ cs) = ground (arith, find-set s e cs)

-- A client with its flag set anew.
abbrev pub flagged : Bool → Option TrackedClient → Option TrackedClient
flagged b none = none
flagged b (some c) = some (record c { is_alive = b })

pub find-set_alive :
    (s t : ℕ) (b : Bool) (cs : List TrackedClient)
    → find s (set_alive t b cs) ≡ (if eqb t s then flagged b (find s cs) else find s cs)
unfolding set_alive
find-set_alive s t b [] = ground arith
find-set_alive s t b (c ∷ cs) = ground (arith, find-set_alive s t b cs)

abbrev pub has : ℕ → List TrackedClient → Bool
has s [] = false
has s (c ∷ cs) = if eqb c.socket s then true else has s cs

pub find-absent : (s : ℕ) (cs : List TrackedClient) → has s cs ≡ false → find s cs ≡ none
find-absent s [] h = refl
find-absent s (c ∷ cs) h = ground (arith, find-absent s cs)

-- Every socket has one entry.
abbrev pub IsMap : List TrackedClient → Type 0
IsMap [] = Unit {0}
IsMap (c ∷ cs) = (has c.socket cs ≡ false) × IsMap cs

has-delete : (s t : ℕ) (cs : List TrackedClient) → has s cs ≡ false → has s (delete t cs) ≡ false
unfolding delete
has-delete s t [] h = refl
has-delete s t (c ∷ cs) h = ground (arith, has-delete s t cs)

pub IsMap-delete : (t : ℕ) (cs : List TrackedClient) → IsMap cs → IsMap (delete t cs)
unfolding delete
IsMap-delete t [] m = m
IsMap-delete t (c ∷ cs) m = elim (Bool-cases (eqb c.socket t)) [
  | inl hit ↦ rw hit (IsMap-delete t cs m.1)
  | inr miss ↦ rw miss (has-delete c.socket t cs m.0, IsMap-delete t cs m.1)
]

has-set :
    (s : ℕ) (e : TrackedClient) (cs : List TrackedClient)
    → has s (set e cs) ≡ (if eqb e.socket s then true else has s cs)
unfolding set
has-set s e [] = refl
has-set s e (c ∷ cs) = ground (arith, has-set s e cs)

pub IsMap-set : (e : TrackedClient) (cs : List TrackedClient) → IsMap cs → IsMap (set e cs)
unfolding set
IsMap-set e [] m = (refl, tt)
IsMap-set e (c ∷ cs) m = elim (Bool-cases (eqb c.socket e.socket)) [
  | inl hit ↦ rw hit (ground (arith, m.0), m.1)
  | inr miss ↦ rw miss (ground (arith, m.0, has-set c.socket e cs), IsMap-set e cs m.1)
]

has-set_alive : (s t : ℕ) (b : Bool) (cs : List TrackedClient) → has s (set_alive t b cs) ≡ has s cs
unfolding set_alive
has-set_alive s t b [] = refl
has-set_alive s t b (c ∷ cs) = ground (arith, has-set_alive s t b cs)

pub IsMap-set_alive :
    (t : ℕ) (b : Bool) (cs : List TrackedClient) → IsMap cs → IsMap (set_alive t b cs)
unfolding set_alive
IsMap-set_alive t b [] m = m
IsMap-set_alive t b (c ∷ cs) m =
    (ground (arith, m.0, has-set_alive c.socket t b cs), IsMap-set_alive t b cs m.1)
