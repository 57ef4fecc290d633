-- ===== src/Async.antt =====
-- Asynchronous functions that mutate a world and may reject. What was written before a rejection
-- stays written, so the world comes back beside the error too.
pub mod Keeps
pub mod Ends
use taskfire.Prelude.{Bool, true, false}

pub data Error : Type 0 where
  -- a call of a backing store did not come back
  unavailable : Error
  -- PostgreSQL refused a statement: a primary key, a CHECK or an unknown column
  constraint : Error
  -- `throw new Error('INSERT INTO jobs returned no rows …')`
  no_rows : Error
  -- a method of `null` is called
  type_error : Error

pub data Outcome (W A : Type 0) : Type 0 where
  resolved : A → W → Outcome W A
  rejected : Error → W → Outcome W A

abbrev pub Async : Type 0 → Type 0 → Type 0
Async W A = W → Outcome W A

module _ {W A : Type 0} where
  abbrev pub world : Outcome W A → W
  world (resolved a w) = w
  world (rejected e w) = w

  unfoldable pub resolve : A → Async W A
  resolve a w = resolved a w

  unfoldable pub reject : Error → Async W A
  reject e w = rejected e w

  unfoldable pub gets : (W → A) → Async W A
  gets f w = resolved (f w) w

module _ {W A B : Type 0} where
  abbrev pub continue : Outcome W A → (A → Async W B) → Outcome W B
  continue (resolved a w) f = f a w
  continue (rejected e w) f = rejected e w

  infixl 10 ◌>>=◌ ◌>>◌
  -- `await`: opening this opens `resolve`, `reject` and `gets` too.
  unfoldable pub ◌>>=◌ : Async W A → (A → Async W B) → Async W B
  unfolding resolve reject gets
  ◌>>=◌ m f w = continue (m w) f

  abbrev pub ◌>>◌ : Async W A → Async W B → Async W B
  m >> n = m >>= λ _. n

module _ {W A : Type 0} where
  abbrev pub recover : Outcome W A → (Error → Async W A) → Outcome W A
  recover (resolved a w) h = resolved a w
  recover (rejected e w) h = h e w

  -- `try { m } catch (e) { h(e) }`
  unfoldable pub catch : Async W A → (Error → Async W A) → Async W A
  catch m h w = recover (m w) h

  abbrev pub closing : Outcome W A → (W → W) → Outcome W A
  closing (resolved a w) f = resolved a (f w)
  closing (rejected e w) f = rejected e (f w)

  -- `try { m } finally { f }`, for a clean-up that does not reject.
  unfoldable pub finally : Async W A → (W → W) → Async W A
  finally m f w = closing (m w) f
