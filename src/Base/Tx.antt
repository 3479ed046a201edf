-- ===== src/Base/Tx.antt =====
-- What a service function does with its `Session`: it reads and changes the work of the
-- transaction, makes it durable by `db.commit()`, or raises. Work that was not committed is lost.
use mathlib.Core.Bool.{Bool}
use mathlib.Core.Option.{Option, none, some}
use rcp_api.Base.Tests.{if◌then◌else◌}
use rcp_api.Base.Result.{Result, ok, err}

pub record Session (S : Type 0) : Type 0 where
  pub durable : S
  pub work : S

abbrev pub Tx : Type 0 → Type 0 → Type 0 → Type 0
Tx S E A = Session S → Result E A × Session S

infixl 5 ◌>>=◌ ◌>>◌
abbrev pub ◌>>=◌ : {S E A B : Type 0} → Tx S E A → (A → Tx S E B) → Tx S E B
◌>>=◌ m f s = let (r, s') = m s in elim r [ ok a ↦ f a s' | err e ↦ (err e, s') ]

abbrev pub ◌>>◌ : {S E B : Type 0} → Tx S E (Unit {0}) → Tx S E B → Tx S E B
m >> k = m >>= λ _. k

module _ {S E : Type 0} where
  abbrev pub pure : {A : Type 0} → A → Tx S E A
  pure a s = (ok a, s)

  abbrev pub raise : {A : Type 0} → E → Tx S E A
  raise e s = (err e, s)

  abbrev pub raise_if : Bool → E → Tx S E (Unit {0})
  raise_if c e s = (if c then err e else ok tt, s)

  abbrev pub or_raise : {A : Type 0} → Option A → E → Tx S E A
  or_raise none e s = (err e, s)
  or_raise (some a) e s = (ok a, s)

  abbrev pub gets : {A : Type 0} → (S → A) → Tx S E A
  gets f s = (ok (f s.work), s)

  abbrev pub modify : (S → S) → Tx S E (Unit {0})
  modify f s = (ok tt, record s { work = f s.work })

  abbrev pub commit : Tx S E (Unit {0})
  commit s = (ok tt, record { durable = s.work; work = s.work })

  -- One request: a fresh session over the database, closed at the end. What stays is durable.
  abbrev pub run : {A : Type 0} → Tx S E A → S → Result E A × S
  run m db = let (r, s) = m (record { durable = db; work = db }) in (r, s.durable)
