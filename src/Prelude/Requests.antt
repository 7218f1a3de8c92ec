-- ===== src/Prelude/Requests.antt =====
-- A request as a state-passing computation that may throw. `err` keeps the state at the throw:
-- what was written outside a transaction stays written.
use mathlib.Core.Path.{◌≡◌, refl}
use mathlib.Core.Bool.{Bool, true, false}
use mathlib.Core.Option.{Option, none, some}
use native.Mathlib.Omega.{arith}

-- The HTTP exceptions of the services, and the database errors that they meet: a
-- row that is not there (P2025), a unique constraint (P2002) and a foreign key (P2003).
pub data Error : Type 0 where
  not_found conflict bad_request forbidden record_not_found unique_violation foreign_key_violation :
      Error

pub data Outcome (S A : Type 0) : Type 0 where
  ok : A → S → Outcome S A
  err : Error → S → Outcome S A

abbrev pub Request : Type 0 → Type 0 → Type 0
Request S A = S → Outcome S A

infixl 5 ◌>>=◌ ◌>>◌
abbrev pub ◌>>=◌ : {S A B : Type 0} → Request S A → (A → Request S B) → Request S B
◌>>=◌ m f s = elim (m s) [ ok a s' ↦ f a s' | err e s' ↦ err e s' ]

abbrev pub ◌>>◌ : {S B : Type 0} → Request S (Unit {0}) → Request S B → Request S B
m >> k = m >>= λ _. k

abbrev pub return : {S A : Type 0} → A → Request S A
return a s = ok a s

abbrev pub throw : {S A : Type 0} → Error → Request S A
throw e s = err e s

abbrev pub guard : {S : Type 0} → Bool → Error → Request S (Unit {0})
guard true e s = ok tt s
guard false e s = err e s

abbrev pub or_throw : {S A : Type 0} → Option A → Error → Request S A
or_throw none e s = err e s
or_throw (some a) e s = ok a s

abbrev pub read : {S A : Type 0} → (S → A) → Request S A
read f s = ok (f s) s

abbrev pub write : {S : Type 0} → (S → S) → Request S (Unit {0})
write f s = ok tt (f s)

-- `prisma.$transaction`: a throw inside rolls every write back.
abbrev pub transaction : {S A : Type 0} → Request S A → Request S A
transaction m s = elim (m s) [ ok a s' ↦ ok a s' | err e s' ↦ err e s ]

module _ {S A B : Type 0} where
  pub >>=-eq-ok :
      (m : Request S A) (f : A → Request S B) (s : S) {b : B} {s'' : S}
      → (m >>= f) s ≡ ok b s''
      → (a : A) × (s' : S) × (m s ≡ ok a s') × (f a s' ≡ ok b s'')
  >>=-eq-ok m f s {b} {s''} h = go (m s) refl h
    where
      go :
          (o : Outcome S A)
          → m s ≡ o
          → elim o [ ok a s' ↦ f a s' | err e s' ↦ err e s' ] ≡ ok b s''
          → (a : A) × (s' : S) × (m s ≡ ok a s') × (f a s' ≡ ok b s'')
      go (ok a s') e h' = (a, s', e, h')
      go (err e' s') e h' = cc

  -- A throw before work that cannot throw.
  pub >>=-eq-err :
      (m : Request S A) (f : A → Request S B) (s : S) {e : Error} {s' : S}
      → ((a : A) (s₁ : S) → (b : B) × (s₂ : S) × (f a s₁ ≡ ok b s₂))
      → (m >>= f) s ≡ err e s'
      → m s ≡ err e s'
  >>=-eq-err m f s {e} {s'} total h = go (m s) h
    where
      go :
          (o : Outcome S A)
          → elim o as (λ _. Outcome S B) [ ok a s₁ ↦ f a s₁ | err e₁ s₁ ↦ err e₁ s₁ ] ≡ err e s'
          → o ≡ err e s'
      go (ok a s₁) p = cc ((total a s₁).2)
      go (err e₁ s₁) p = cc

  -- A transaction followed by work that cannot throw: a throw leaves the state as it was.
  pub transaction_atomic :
      (m : Request S A) (f : A → Request S B) (s : S) {e : Error} {s' : S}
      → ((a : A) (s₁ : S) → (b : B) × (s₂ : S) × (f a s₁ ≡ ok b s₂))
      → (transaction m >>= f) s ≡ err e s'
      → s' ≡ s
  transaction_atomic m f s {e} {s'} total h = go (m s) h
    where
      go :
          (o : Outcome S A)
          → elim (elim o as (λ _. Outcome S A) [ ok a s₁ ↦ ok a s₁ | err e₁ s₁ ↦ err e₁ s ]) [
            | ok a s₁ ↦ f a s₁
            | err e₁ s₁ ↦ err e₁ s₁
          ]
            ≡ err e s'
          → s' ≡ s
      go (ok a s₁) p = cc ((total a s₁).2)
      go (err e₁ s₁) p = cc

-- A request that succeeds has passed its guards and found what it reads.
module _ {S B : Type 0} where
  pub guard-then :
      (b : Bool) (e : Error) (k : Request S B) (s : S) {a : B} {s' : S}
      → (guard b e >> k) s ≡ ok a s'
      → (b ≡ true) × (k s ≡ ok a s')
  guard-then true e k s h = (refl, h)
  guard-then false e k s h = cc

  pub or_throw-then :
      {A : Type 0} (o : Option A) (e : Error) (k : A → Request S B) (s : S) {b : B} {s' : S}
      → (or_throw o e >>= k) s ≡ ok b s'
      → (a : A) × (o ≡ some a) × (k a s ≡ ok b s')
  or_throw-then none e k s h = cc
  or_throw-then (some a) e k s h = (a, refl, h)

module _ {S A : Type 0} where
  -- A transaction that succeeds is its body.
  pub transaction-eq-ok :
      (m : Request S A) (s : S) {a : A} {s' : S} → transaction m s ≡ ok a s' → m s ≡ ok a s'
  transaction-eq-ok m s {a} {s'} h = go (m s) h
    where
      go :
          (o : Outcome S A)
          → elim o as (λ _. Outcome S A) [ ok a₁ s₁ ↦ ok a₁ s₁ | err e₁ s₁ ↦ err e₁ s ] ≡ ok a s'
          → o ≡ ok a s'
      go (ok a₁ s₁) p = p
      go (err e₁ s₁) p = cc

  pub ok_injective : {a b : A} {s t : S} → ok a s ≡ ok b t → (a ≡ b) × (s ≡ t)
  ok_injective h = ground arith

-- The state that a request leaves, also where it throws.
abbrev pub state_of : {S A : Type 0} → Outcome S A → S
state_of (ok a s) = s
state_of (err e s) = s

-- A request that relates the state before it to the state after it, whether it throws or not.
pub record Within {S A : Type 0} (R : S → S → Type 0) (m : Request S A) : Type 0 where
  pub holds : (s : S) → R s (state_of (m s))

-- The rules for a relation that is reflexive and transitive.
module _ {S : Type 0} (R : S → S → Type 0) (reflexive : (s : S) → R s s)
    (transitive : (s t u : S) → R s t → R t u → R s u) where
  pub Within->>= :
      {A B : Type 0} (m : Request S A) (f : A → Request S B)
      → Within R m
      → ((a : A) → Within R (f a))
      → Within R (m >>= f)
  Within->>= {A} {B} m f hm hf = record { holds = λ s. go s (m s) (hm.holds s) }
    where
      go :
          (s : S) (o : Outcome S A)
          → R s (state_of o)
          → R s
              (state_of (elim o as (λ _. Outcome S B) [ ok a s₁ ↦ f a s₁ | err e₁ s₁ ↦ err e₁ s₁ ]))
      go s (ok a s₁) r = transitive s s₁ (state_of (f a s₁)) r ((hf a).holds s₁)
      go s (err e s₁) r = r

  pub Within-transaction : {A : Type 0} (m : Request S A) → Within R m → Within R (transaction m)
  Within-transaction {A} m hm = record { holds = λ s. go s (m s) (hm.holds s) }
    where
      go :
          (s : S) (o : Outcome S A)
          → R s (state_of o)
          → R s
              (state_of (elim o as (λ _. Outcome S A) [ ok a s₁ ↦ ok a s₁ | err e₁ s₁ ↦ err e₁ s ]))
      go s (ok a s₁) r = r
      go s (err e s₁) r = reflexive s

  pub Within-guard : (b : Bool) (e : Error) → Within R (guard b e)
  Within-guard true e = record { holds = reflexive }
  Within-guard false e = record { holds = reflexive }

  pub Within-or_throw : {A : Type 0} (o : Option A) (e : Error) → Within R (or_throw o e)
  Within-or_throw none e = record { holds = reflexive }
  Within-or_throw (some a) e = record { holds = reflexive }

  pub Within-read : {A : Type 0} (f : S → A) → Within R (read f)
  Within-read f = record { holds = reflexive }

  pub Within-return : {A : Type 0} (a : A) → Within R (return a)
  Within-return a = record { holds = reflexive }

  pub Within-write : (f : S → S) → ((s : S) → R s (f s)) → Within R (write f)
  Within-write f h = record { holds = h }

-- A request that leaves the state as it was wherever it throws.
pub record Clean {S A : Type 0} (m : Request S A) : Type 0 where
  pub undone : (s : S) (e : Error) (s' : S) → m s ≡ err e s' → s' ≡ s

module _ {S : Type 0} where
  pub Clean-transaction : {A : Type 0} (m : Request S A) → Clean (transaction m)
  Clean-transaction {A} m = record { undone = λ s e s' h. go s e s' (m s) h }
    where
      go :
          (s : S) (e : Error) (s' : S) (o : Outcome S A)
          → elim o as (λ _. Outcome S A) [ ok a s₁ ↦ ok a s₁ | err e₁ s₁ ↦ err e₁ s ] ≡ err e s'
          → s' ≡ s
      go s e s' (ok a s₁) h = cc
      go s e s' (err e₁ s₁) h = cc

  -- Reads before such a request.
  pub Clean->>= :
      {A B : Type 0} (m : Request S A) (f : A → Request S B)
      → Within (λ s s'. s' ≡ s) m
      → ((a : A) → Clean (f a))
      → Clean (m >>= f)
  Clean->>= {A} {B} m f hm hf = record { undone = λ s e s' h. go s e s' (m s) (hm.holds s) h }
    where
      go :
          (s : S) (e : Error) (s' : S) (o : Outcome S A)
          → state_of o ≡ s
          → elim o as (λ _. Outcome S B) [ ok a s₁ ↦ f a s₁ | err e₁ s₁ ↦ err e₁ s₁ ] ≡ err e s'
          → s' ≡ s
      go s e s' (ok a s₁) same h = cc ((hf a).undone s₁ e s' h)
      go s e s' (err e₁ s₁) same h = cc
