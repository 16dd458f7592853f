-- ===== src/Store/Keeps.antt =====
-- Invariants of actions: one rule for each way to build a method, so that a method keeps a property of
-- the world because its parts do, whether it returns or throws.
use meduman_backend.Prelude.{if◌then◌else◌, ◌≡◌, Bool, true, false, Option, none, some}
use meduman_backend.Store.World.{World, TableOf}
use meduman_backend.Store.Action.{
  Error, Result, ok, err, Action, pure, throw, gets, or_throw, transact, continue, ◌>>=◌, ◌>>◌,
  throw_if, when, select, select_many, select_count, attempt, settle, transact_lem,
}

-- `m` keeps `P`, whatever it returns or throws.
pub record Keeps {A : Type 0} (P : World → Type 0) (m : Action A) : Type 0 where
  pub at : (w : World) → P w → P (m w).1

module _ {A : Type 0} {P : World → Type 0} where
  pub Keeps-pure : (a : A) → Keeps P (pure a)
  Keeps-pure a = record { at = λ w h. h }

  pub Keeps-throw : (e : Error) → Keeps P (throw {A = A} e)
  Keeps-throw e = record { at = λ w h. h }

  pub Keeps-gets : (f : World → A) → Keeps P (gets f)
  Keeps-gets f = record { at = λ w h. h }

  pub Keeps-or_throw : (o : Option A) (e : Error) → Keeps P (or_throw o e)
  Keeps-or_throw none e = record { at = λ w h. h }
  Keeps-or_throw (some a) e = record { at = λ w h. h }

  pub Keeps-transact : (m : Action A) → Keeps P m → Keeps P (transact m)
  Keeps-transact m k = record { at = λ w h. go (m w).0 (m w).1 h (k.at w h) (transact_lem m w) }
    where
      go :
          {w : World} (r : Result A) (w' : World)
          → P w
          → P w'
          → transact m w ≡ settle w (r, w')
          → P (transact m w).1
      go (ok a) w' h h' e = rw e h'
      go (err refused) w' h h' e = rw e h

  pub Keeps-if : (b : Bool) (m n : Action A) → Keeps P m → Keeps P n → Keeps P (if b then m else n)
  Keeps-if true m n km kn = km
  Keeps-if false m n km kn = kn

  pub Keeps-attempt : (m : Action A) → Keeps P m → Keeps P (attempt m)
  Keeps-attempt m k = record { at = λ w h. k.at w h }

module _ {P : World → Type 0} where
  pub Keeps-throw_if : (b : Bool) (e : Error) → Keeps P (throw_if b e)
  Keeps-throw_if b e = record { at = λ w h. h }

  pub Keeps-when : (b : Bool) (m : Action (Unit {0})) → Keeps P m → Keeps P (when b m)
  Keeps-when true m k = k
  Keeps-when false m k = record { at = λ w h. h }

module _ {A : Type 0} {P : World → Type 0} (t : TableOf A) where
  pub Keeps-select : (p : A → Bool) → Keeps P (select t p)
  Keeps-select p = record { at = λ w h. h }

  pub Keeps-select_many : (p : A → Bool) → Keeps P (select_many t p)
  Keeps-select_many p = record { at = λ w h. h }

  pub Keeps-select_count : (p : A → Bool) → Keeps P (select_count t p)
  Keeps-select_count p = record { at = λ w h. h }

module _ {A B : Type 0} {P : World → Type 0} where
  pub Keeps-continue :
      (r : Result A) (f : A → Action B) (w : World)
      → ((a : A) → Keeps P (f a))
      → P w
      → P (continue r f w).1
  Keeps-continue (ok a) f w k h = (k a).at w h
  Keeps-continue (err e) f w k h = h

  pub Keeps-bind :
      (m : Action A) (f : A → Action B) → Keeps P m → ((a : A) → Keeps P (f a)) → Keeps P (m >>= f)
  Keeps-bind m f km kf = record { at = λ w h. Keeps-continue (m w).0 f (m w).1 kf (km.at w h) }

  pub Keeps-seq : (m : Action A) (n : Action B) → Keeps P m → Keeps P n → Keeps P (m >> n)
  Keeps-seq m n km kn = Keeps-bind m (λ _. n) km (λ _. kn)
