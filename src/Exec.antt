-- ===== src/Exec.antt =====
-- Methods that change an object and may raise. What was written before a raise stays written, so the
-- state comes back beside the exception too. `Reader` is a method that only reads.
use ad_artifacts.Core.{Result, ok, raise, Error}

abbrev pub Exec : Type 0 → Type 0 → Type 0
Exec S A = S → Result A × S

abbrev pub Reader : Type 0 → Type 0 → Type 0
Reader S A = S → Result A

module _ {S A : Type 0} where
  abbrev pub pure : A → Exec S A
  pure a s = (ok a, s)

  abbrev pub throw : Error → Exec S A
  throw e s = (raise e, s)

  abbrev pub reads : Reader S A → Exec S A
  reads r s = (r s, s)

  abbrev pub gets : (S → A) → Exec S A
  gets f s = (ok (f s), s)

  -- A method that cannot raise and returns a value.
  abbrev pub calls : (S → A × S) → Exec S A
  calls f s = let (a, s') = f s in (ok a, s')

abbrev pub modify : {S : Type 0} → (S → S) → Exec S (Unit {0})
modify f s = (ok tt, f s)

module _ {S A B : Type 0} where
  abbrev pub continue : Result A → (A → Exec S B) → Exec S B
  continue (ok a) f s = f a s
  continue (raise e) f s = (raise e, s)

  infixl 5 ◌>>=◌
  abbrev pub ◌>>=◌ : Exec S A → (A → Exec S B) → Exec S B
  ◌>>=◌ m f s = let (r, s') = m s in continue r f s'

infixl 5 ◌>>◌
abbrev pub ◌>>◌ : {S B : Type 0} → Exec S (Unit {0}) → Exec S B → Exec S B
m >> k = m >>= λ _. k
