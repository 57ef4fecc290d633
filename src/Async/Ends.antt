-- ===== src/Async/Ends.antt =====
-- How an asynchronous function ends: what holds of its value and world if it resolves, and of its
-- world if it rejects.
use mathlib.Core.Path.{subst₂}
use taskfire.Prelude.{◌≡◌, refl, ap, Bool, true, false, if◌then◌else◌}
use taskfire.Async.{
  Error, Outcome, resolved, rejected, Async, world, ◌>>=◌, continue, catch, recover, finally,
  closing,
}

pub record Ends {W A : Type 0} (P : A → W → Type 0) (Q : Error → W → Type 0) (o : Outcome W A)
    : Type 0 where
  pub on_resolved : (a : A) (v : W) → o ≡ resolved a v → P a v
  pub on_rejected : (e : Error) (v : W) → o ≡ rejected e v → Q e v

module _ {W A : Type 0} where
  abbrev value : A → Outcome W A → A
  value d (resolved a w) = a
  value d (rejected e w) = d

  abbrev fault : Error → Outcome W A → Error
  fault d (resolved a w) = d
  fault d (rejected e w) = e

module _ {W A : Type 0} {P : A → W → Type 0} {Q : Error → W → Type 0} where
  pub Ends-resolved : {a : A} {v : W} → P a v → Ends P Q (resolved a v)
  Ends-resolved {a} {v} p = record {
    on_resolved = λ b u r. subst₂ P (ap (value a) r) (ap world r) p;
    on_rejected = λ e u r. cc;
  }

  pub Ends-rejected : {e : Error} {v : W} → Q e v → Ends P Q (rejected e v)
  Ends-rejected {e} {v} q = record {
    on_resolved = λ b u r. cc;
    on_rejected = λ d u r. subst₂ Q (ap (fault e) r) (ap world r) q;
  }

  pub Ends-weaken :
      {P' : A → W → Type 0} {Q' : Error → W → Type 0} {o : Outcome W A}
      → ((a : A) (v : W) → P a v → P' a v)
      → ((e : Error) (v : W) → Q e v → Q' e v)
      → Ends P Q o
      → Ends P' Q' o
  Ends-weaken p q h = record {
    on_resolved = λ a v r. p a v (h.on_resolved a v r);
    on_rejected = λ e v r. q e v (h.on_rejected e v r);
  }

  pub Ends-if :
      (b : Bool) (o o' : Outcome W A) → Ends P Q o → Ends P Q o' → Ends P Q (if b then o else o')
  Ends-if true o o' h h' = h
  Ends-if false o o' h h' = h'

module _ {W A B : Type 0} {P : B → W → Type 0} {Q : Error → W → Type 0} (R : A → W → Type 0) where
  continue-Ends :
      (o : Outcome W A) (f : A → Async W B)
      → Ends R Q o
      → ((a : A) (v : W) → R a v → Ends P Q (f a v))
      → Ends P Q (continue o f)
  continue-Ends (resolved a w) f h k = k a w (h.on_resolved a w refl)
  continue-Ends (rejected e w) f h k = Ends-rejected (h.on_rejected e w refl)

  -- `R` holds between the two parts.
  pub Ends-bind :
      (m : Async W A) (f : A → Async W B) (w : W)
      → Ends R Q (m w)
      → ((a : A) (v : W) → R a v → Ends P Q (f a v))
      → Ends P Q ((m >>= f) w)
  unfolding ◌>>=◌
  Ends-bind m f w h k = continue-Ends (m w) f h k

module _ {W A : Type 0} {P : A → W → Type 0} {Q : Error → W → Type 0} where
  recover-Ends :
      (R : Error → W → Type 0) (o : Outcome W A) (h : Error → Async W A)
      → Ends P R o
      → ((e : Error) (v : W) → R e v → Ends P Q (h e v))
      → Ends P Q (recover o h)
  recover-Ends R (resolved a w) h p k = Ends-resolved (p.on_resolved a w refl)
  recover-Ends R (rejected e w) h p k = k e w (p.on_rejected e w refl)

  -- `R` holds where the handler starts.
  pub Ends-catch :
      (R : Error → W → Type 0) (m : Async W A) (h : Error → Async W A) (w : W)
      → Ends P R (m w)
      → ((e : Error) (v : W) → R e v → Ends P Q (h e v))
      → Ends P Q (catch m h w)
  unfolding catch
  Ends-catch R m h w p k = recover-Ends R (m w) h p k

  closing-Ends :
      (o : Outcome W A) (f : W → W)
      → Ends (λ a v. P a (f v)) (λ e v. Q e (f v)) o
      → Ends P Q (closing o f)
  closing-Ends (resolved a w) f h = Ends-resolved (h.on_resolved a w refl)
  closing-Ends (rejected e w) f h = Ends-rejected (h.on_rejected e w refl)

  pub Ends-finally :
      (m : Async W A) (f : W → W) (w : W)
      → Ends (λ a v. P a (f v)) (λ e v. Q e (f v)) (m w)
      → Ends P Q (finally m f w)
  unfolding finally
  Ends-finally m f w h = closing-Ends (m w) f h
