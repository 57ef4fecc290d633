-- ===== src/Async/Keeps.antt =====
-- Invariants of asynchronous functions, one rule for each way to build one.
use taskfire.Prelude.{◌≡◌, refl, Bool, true, false, if◌then◌else◌, Option, none, some}
use taskfire.Async.{
  Error, Outcome, resolved, rejected, Async, world, resolve, reject, gets, ◌>>=◌, continue, catch,
  recover, finally, closing,
}

-- `m` keeps `P`, whether it resolves or rejects.
pub record Keeps {W A : Type 0} (P : W → Type 0) (m : Async W A) : Type 0 where
  pub at : (w : W) → P w → P (world (m w))

module _ {W A : Type 0} {P : W → Type 0} where
  pub Keeps-resolve : (a : A) → Keeps P (resolve a)
  unfolding resolve
  Keeps-resolve a = record { at = λ w h. h }

  pub Keeps-reject : (e : Error) → Keeps P (reject {A = A} e)
  unfolding reject
  Keeps-reject e = record { at = λ w h. h }

  -- Each branch of a test may use how the test came out.
  pub Keeps-if :
      (test : Bool) (then_do else_do : Async W A)
      → (test ≡ true → Keeps P then_do)
      → (test ≡ false → Keeps P else_do)
      → Keeps P (if test then then_do else else_do)
  Keeps-if true then_do else_do on_true on_false = on_true refl
  Keeps-if false then_do else_do on_true on_false = on_false refl

  recover-keeps :
      (o : Outcome W A) (h : Error → Async W A)
      → P (world o)
      → ((e : Error) → Keeps P (h e))
      → P (world (recover o h))
  recover-keeps (resolved a w) h p kh = p
  recover-keeps (rejected e w) h p kh = (kh e).at w p

  pub Keeps-gets : (f : W → A) → Keeps P (gets f)
  unfolding gets
  Keeps-gets f = record { at = λ w h. h }

  pub Keeps-catch :
      (m : Async W A) (h : Error → Async W A)
      → Keeps P m
      → ((e : Error) → Keeps P (h e))
      → Keeps P (catch m h)
  unfolding catch
  Keeps-catch m h km kh = record { at = λ w p. recover-keeps (m w) h (km.at w p) kh }

module _ {W A B : Type 0} {P : W → Type 0} where
  continue-keeps :
      (o : Outcome W A) (f : A → Async W B)
      → P (world o)
      → ((a : A) → Keeps P (f a))
      → P (world (continue o f))
  continue-keeps (resolved a w) f p kf = (kf a).at w p
  continue-keeps (rejected e w) f p kf = p

  pub Keeps-bind :
      (m : Async W A) (f : A → Async W B)
      → Keeps P m
      → ((a : A) → Keeps P (f a))
      → Keeps P (m >>= f)
  unfolding ◌>>=◌
  Keeps-bind m f km kf = record { at = λ w p. continue-keeps (m w) f (km.at w p) kf }

  pub Keeps-elim :
      (o : Option B) (m : Async W A) (f : B → Async W A)
      → Keeps P m
      → ((b : B) → Keeps P (f b))
      → Keeps P (elim o [ none ↦ m | some b ↦ f b ])
  Keeps-elim none m f km kf = km
  Keeps-elim (some b) m f km kf = kf b

module _ {W A : Type 0} (P Q : W → Type 0) where
  closing-keeps :
      (o : Outcome W A) (f : W → W)
      → P (world o)
      → ((w : W) → P w → Q (f w))
      → Q (world (closing o f))
  closing-keeps (resolved a w) f p g = g w p
  closing-keeps (rejected e w) f p g = g w p

  -- A clean-up that turns `P` into `Q`.
  pub at-finally :
      (m : Async W A) (f : W → W) (w : W)
      → P (world (m w))
      → ((v : W) → P v → Q (f v))
      → Q (world (finally m f w))
  unfolding finally
  at-finally m f w p g = closing-keeps (m w) f p g

pub ruleset keeps_rules =
    (Keeps-resolve, Keeps-reject, Keeps-gets, Keeps-if, Keeps-catch, Keeps-bind)
