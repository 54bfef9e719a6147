-- ===== src/Store/Does.antt =====
-- What an action does inside a batch, for every schedule of driver faults: it returns having made
-- a known change of the batch's copy, or the driver failed it. It never touches the committed
-- tables or the mutex.
use mathlib.Core.Path.{subst₂}
use koinos_token_tracker.Base.{
  ℕ, ◌≡◌, refl, sym, ap, ◌∙◌, ◌≢◌, Bool, true, false, some, List, [], ◌∷◌, arith, if◌then◌else◌,
}
use Prim.Native.String.{String}
use koinos_token_tracker.Store.Types.{Db, Store, current}
use koinos_token_tracker.Store.Action.{
  Result, ok, err, blocked, Action, pure, context, wrapped, continue, ◌>>=◌, ◌>>◌, query, statement,
  next_fault, answer, written, stored,
}

cons-ne-nil : {b : Bool} {bs : List Bool} → b ∷ bs ≢ []
cons-ne-nil h = cc

-- All but the batch's copy and the schedule is as it was.
pub record Same (s s' : Store) : Type 0 where
  pub db : s'.db ≡ s.db
  pub locked : s'.locked ≡ s.locked
  pub now : s'.now ≡ s.now
  pub koin : s'.koin_contract ≡ s.koin_contract
  pub vhp : s'.vhp_contract ≡ s.vhp_contract

pub Same-refl : (s : Store) → Same s s
Same-refl s = record { db = refl; locked = refl; now = refl; koin = refl; vhp = refl }

pub Same-trans : (a b c : Store) → Same a b → Same b c → Same a c
Same-trans a b c p q = record {
  db = q.db ∙ p.db;
  locked = q.locked ∙ p.locked;
  now = q.now ∙ p.now;
  koin = q.koin ∙ p.koin;
  vhp = q.vhp ∙ p.vhp;
}

-- The end of a call that began at `s`: on success the copy is `d`, and a schedule with no fault
-- left has none; on failure the driver had a fault, and there still is a copy.
abbrev pub Ends : {A : Type 0} → Store → A → Db → Result A × Store → Type 0
Ends s a d (ok a', s') = Same s s' × (s'.tx ≡ some d) × (a' ≡ a) × (s.faults ≡ [] → s'.faults ≡ [])
Ends s a d (err e, s') = Same s s' × ((d' : Db) × (s'.tx ≡ some d')) × (s.faults ≢ [])
Ends s a d (blocked, s') = ⊥

-- `m` changes the copy by `f` and returns what `v` reads from it; either may name the time.
pub record Does {A : Type 0} (v : ℕ → Db → A) (f : ℕ → Db → Db) (m : Action A) : Type 0 where
  pub at : (s : Store) (d : Db) → s.tx ≡ some d → Ends s (v s.now d) (f s.now d) (m s)

current-batch : (s : Store) (d : Db) → s.tx ≡ some d → current s ≡ d
current-batch s d e = ground arith

module _ {A : Type 0} where
  pub Does-pure : (a : A) → Does (λ _ _. a) (λ _ d. d) (pure a)
  Does-pure a = record { at = λ s d e. (Same-refl s, e, refl, λ h. h) }

  pub Ends-context :
      (what : String) (s : Store) (a : A) (d : Db) (r : Result A) (s' : Store)
      → Ends s a d (r, s')
      → Ends s a d (wrapped what r, s')
  Ends-context what s a d (ok _) s' h = h
  Ends-context what s a d (err _) s' h = h
  Ends-context what s a d blocked s' h = h

  pub Does-context :
      {v : ℕ → Db → A} {f : ℕ → Db → Db} {m : Action A} (what : String)
      → Does v f m
      → Does v f (context what m)
  Does-context {v} {f} {m} what h = record {
    at = λ s d e. Ends-context what s (v s.now d) (f s.now d) (m s).0 (m s).1 (h.at s d e);
  }

  query-Ends :
      (q : Db → A) (s : Store) (d : Db) (fs : List Bool)
      → s.faults ≡ fs
      → s.tx ≡ some d
      → let (fault, rest) = next_fault fs in
        Ends s (q d) d (answer fault (q (current s)), record s { faults = rest })
  query-Ends q s d [] fe e = (
    record { db = refl; locked = refl; now = refl; koin = refl; vhp = refl },
    e,
    ap q (current-batch s d e),
    λ _. refl,
  )
  query-Ends q s d (false ∷ fs) fe e = (
    record { db = refl; locked = refl; now = refl; koin = refl; vhp = refl },
    e,
    ap q (current-batch s d e),
    λ none_left. absurd (cons-ne-nil (sym fe ∙ none_left)),
  )
  query-Ends q s d (true ∷ fs) fe e = (
    record { db = refl; locked = refl; now = refl; koin = refl; vhp = refl },
    (d, e),
    λ none_left. cons-ne-nil (sym fe ∙ none_left),
  )

  pub Does-query : (q : Db → A) → Does (λ _. q) (λ _ d. d) (query q)
  unfolding query
  Does-query q = record { at = λ s d e. query-Ends q s d s.faults refl e }

stored-batch : (s : Store) (d d' : Db) → s.tx ≡ some d → stored s d' ≡ record s { tx = some d' }
stored-batch s d d' e = rw e

statement-done :
    (f : Db → Db) (s : Store) (d : Db) (fs : List Bool)
    → s.tx ≡ some d
    → (s.faults ≡ [] → fs ≡ [])
    → Ends s tt (f d) (ok tt, record (stored s (f (current s))) { faults = fs })
statement-done f s d fs e quiet = rw (stored-batch s d (f (current s)) e) (
  record { db = refl; locked = refl; now = refl; koin = refl; vhp = refl },
  ap some (ap f (current-batch s d e)),
  refl,
  quiet,
)

statement-Ends :
    (f : Db → Db) (s : Store) (d : Db) (fs : List Bool)
    → s.faults ≡ fs
    → s.tx ≡ some d
    → let (fault, rest) = next_fault fs in
      Ends s tt (f d) (answer fault tt, record (written fault s (f (current s))) { faults = rest })
statement-Ends f s d [] fe e = statement-done f s d [] e (λ _. refl)
statement-Ends f s d (false ∷ fs) fe e =
    statement-done f s d fs e (λ none_left. absurd (cons-ne-nil (sym fe ∙ none_left)))
statement-Ends f s d (true ∷ fs) fe e = (
  record { db = refl; locked = refl; now = refl; koin = refl; vhp = refl },
  (d, e),
  λ none_left. cons-ne-nil (sym fe ∙ none_left),
)

pub Does-statement : (f : Db → Db) → Does (λ _ _. tt) (λ _. f) (statement f)
unfolding statement
Does-statement f = record { at = λ s d e. statement-Ends f s d s.faults refl e }

module _ {B : Type 0} where
  pub Ends-then :
      (s s' : Store) (d : Db) (b : B) (x : Result B × Store)
      → Same s s'
      → (s.faults ≡ [] → s'.faults ≡ [])
      → Ends s' b d x
      → Ends s b d x
  Ends-then s s' d b (ok b', s'') same quiet h =
      (Same-trans s s' s'' same h.0, h.1, h.2, λ z. h.3 (quiet z))
  Ends-then s s' d b (err e, s'') same quiet h =
      (Same-trans s s' s'' same h.0, h.1, λ z. h.2 (quiet z))
  Ends-then s s' d b (blocked, s'') same quiet h = h

module _ {A B : Type 0} {u : A → ℕ → Db → B} {g : A → ℕ → Db → Db} {k : A → Action B} where
  Ends-bind :
      (s : Store) (a : A) (d : Db) (r : Result A) (s' : Store)
      → ((a : A) → Does (u a) (g a) (k a))
      → Ends s a d (r, s')
      → Ends s (u a s.now d) (g a s.now d) (continue r k s')
  Ends-bind s a d (ok b) s' hk h =
      Ends-then s s' (g a s.now d) (u a s.now d) (k b s') h.0 h.3
        (subst₂ (λ n x. Ends s' (u x n d) (g x n d) (k b s')) h.0.now h.2 ((hk b).at s' d h.1))
  Ends-bind s a d (err e) s' hk h = h
  Ends-bind s a d blocked s' hk h = h

  pub Does-bind :
      {v : ℕ → Db → A} {f : ℕ → Db → Db} {m : Action A}
      → Does v f m
      → ((a : A) → Does (u a) (g a) (k a))
      → Does (λ n d. u (v n d) n (f n d)) (λ n d. g (v n d) n (f n d)) (m >>= k)
  Does-bind {v} {f} {m} hm hk = record {
    at = λ s d e. Ends-bind s (v s.now d) (f s.now d) (m s).0 (m s).1 hk (hm.at s d e);
  }

-- A loop over a slice whose body may fail.
unfoldable pub for_each : {A : Type 0} → (A → Action (Unit {0})) → List A → Action (Unit {0})
for_each body [] = pure tt
for_each body (x ∷ xs) = body x >> for_each body xs

-- The same loop over changes of the tables.
unfoldable pub fold_each : {A : Type 0} → (A → ℕ → Db → Db) → List A → ℕ → Db → Db
fold_each f [] now d = d
fold_each f (x ∷ xs) now d = fold_each f xs now (f x now d)

pub Does-for_each :
    {A : Type 0} {f : A → ℕ → Db → Db} {body : A → Action (Unit {0})}
    → ((x : A) → Does (λ _ _. tt) (f x) (body x))
    → (xs : List A) → Does (λ _ _. tt) (fold_each f xs) (for_each body xs)
unfolding for_each fold_each
Does-for_each hb [] = Does-pure tt
Does-for_each hb (x ∷ xs) = Does-bind (hb x) (λ _. Does-for_each hb xs)

pub Does-if :
    {A : Type 0} {v : ℕ → Db → A} {f g : ℕ → Db → Db} {m k : Action A} (b : Bool)
    → Does v f m
    → Does v g k
    → Does v (λ n d. if b then f n d else g n d) (if b then m else k)
Does-if true hm hk = hm
Does-if false hm hk = hk

-- What every step keeps holds after the fold.
pub fold_each-keeps :
    {A : Type 0} (P : Db → Type 0) (f : A → ℕ → Db → Db) (now : ℕ)
    → ((x : A) (d : Db) → P d → P (f x now d))
    → (xs : List A) (d : Db) → P d
    → P (fold_each f xs now d)
unfolding fold_each
fold_each-keeps P f now keep [] d h = h
fold_each-keeps P f now keep (x ∷ xs) d h = fold_each-keeps P f now keep xs (f x now d) (keep x d h)

-- A fold of steps that leave a field alone leaves it alone.
pub fold_each-same :
    {A : Type 0} {V : Type 0} (v : Db → V) (f : A → ℕ → Db → Db) (now : ℕ)
    → ((x : A) (d : Db) → v (f x now d) ≡ v d)
    → (xs : List A) (d : Db) → v (fold_each f xs now d) ≡ v d
unfolding fold_each
fold_each-same v f now same [] d = refl
fold_each-same v f now same (x ∷ xs) d = fold_each-same v f now same xs (f x now d) ∙ same x d

-- A call inside a batch that ends with a copy on which `P` holds.
abbrev pub Kept : (P : Db → Type 0) → Store → Result (Unit {0}) × Store → Type 0
Kept P s x = (d : Db) × P d × Ends s tt d x

module _ (P : Db → Type 0) (k : Action (Unit {0})) where
  -- One call after another.
  pub Kept-then :
      (s : Store) (d : Db) (r : Result (Unit {0})) (s' : Store)
      → ((s : Store) (d : Db) → s.tx ≡ some d → P d → Kept P s (k s))
      → P d
      → Ends s tt d (r, s')
      → Kept P s (continue r (λ _. k) s')
  Kept-then s d (ok _) s' hk p h =
      let (d', p', h') = hk s' d h.1 p in (d', p', Ends-then s s' d' tt (k s') h.0 h.3 h')
  Kept-then s d (err e) s' hk p h = (d, p, h)
  Kept-then s d blocked s' hk p h = (d, p, h)
