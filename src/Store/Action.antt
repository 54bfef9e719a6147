-- ===== src/Store/Action.antt =====
-- A method of the store: it returns or fails, and leaves a state either way. `blocked` is a call
-- that waits for the mutex for ever.
use Prim.Native.String.{String}
use koinos_token_tracker.Base.{Bool, true, false, none, some, List, [], ◌∷◌}
use koinos_token_tracker.Store.Types.{Db, Store, current}

-- `driver` is an error of database/sql; `wrap` is fmt.Errorf with %w.
pub data Error : Type 0 where
  driver : Error
  message : String → Error
  wrap : String → Error → Error

pub data Result {ℓ} (A : Type ℓ) : Type ℓ where
  ok : A → Result A
  err : Error → Result A
  blocked : Result A

abbrev pub Action {ℓ} : Type ℓ → Type ℓ
Action A = Store → Result A × Store

module _ {ℓ} {A : Type ℓ} where
  abbrev pub pure : A → Action A
  pure a s = (ok a, s)

  abbrev pub fail : Error → Action A
  fail e s = (err e, s)

  abbrev pub wrapped : String → Result A → Result A
  wrapped what (ok a) = ok a
  wrapped what (err e) = err (wrap what e)
  wrapped what blocked = blocked

  -- if err != nil { return fmt.Errorf(what + ": %w", err) }
  abbrev pub context : String → Action A → Action A
  context what m s = let (r, s') = m s in (wrapped what r, s')

module _ {ℓ} {A B : Type ℓ} where
  abbrev pub continue : Result A → (A → Action B) → Action B
  continue (ok a) f s = f a s
  continue (err e) f s = (err e, s)
  continue blocked f s = (blocked, s)

  infixl 5 ◌>>=◌
  abbrev pub ◌>>=◌ : Action A → (A → Action B) → Action B
  ◌>>=◌ m f s = let (r, s') = m s in continue r f s'

infixl 5 ◌>>◌
abbrev pub ◌>>◌ {ℓ} : {B : Type ℓ} → Action (Unit {ℓ}) → Action B → Action B
m >> k = m >>= λ _. k

-- One call of the driver: whether it fails, and the calls still to come.
abbrev pub next_fault : List Bool → Bool × List Bool
next_fault [] = (false, [])
next_fault (f ∷ fs) = (f, fs)

abbrev pub answer {ℓ} : {A : Type ℓ} → Bool → A → Result A
answer true a = err driver
answer false a = ok a

-- A query: a failed one returns the driver's error.
unfoldable pub query {ℓ} : {A : Type ℓ} → (Db → A) → Action A
query q s =
    let (fault, rest) = next_fault s.faults in
    (answer fault (q (current s)), record s { faults = rest })

abbrev pub stored : Store → Db → Store
stored s d = elim s.tx [ none ↦ record s { db = d } | some _ ↦ record s { tx = some d } ]

abbrev pub written : Bool → Store → Db → Store
written true s d = s
written false s d = stored s d

-- A statement: a failed one changes nothing.
unfoldable pub statement : (Db → Db) → Action (Unit {0})
statement f s =
    let (fault, rest) = next_fault s.faults in
    (answer fault tt, record (written fault s (f (current s))) { faults = rest })
