-- ===== src/Prelude/Tables.antt =====
-- Database tables as lists of rows: length, search, update in place and counting.
use Prim.Native.Nat.{ℕ, suc, ◌+◌, ◌≤◌}
use mathlib.Core.Path.{◌≡◌, refl, sym, ap, ◌∙◌}
use mathlib.Core.Bool.{Bool, true, false, not}
use mathlib.Core.Logic.{◌⊎◌, inl, inr}
use mathlib.Core.List.{List, [], ◌∷◌, ◌++◌}
use mathlib.Core.Option.{Option, none, some}
use native.Mathlib.Omega.{arith}
use mathlib.Core.Option
use paywall.Prelude.Tests.{if◌then◌else◌, Bool-cases, some_eq}

module _ {ℓ} {A : Type ℓ} where
  abbrev pub length : List A → ℕ
  length [] = 0
  length (x ∷ xs) = suc (length xs)

  pub length-append : (xs ys : List A) → length (xs ++ ys) ≡ length xs + length ys
  length-append [] ys = omega arith
  length-append (x ∷ xs) ys = omega (arith, length-append xs ys)

  -- `findFirst`: the first row in the table's order.
  unfoldable pub find_first : (A → Bool) → List A → Option A
  find_first p [] = none
  find_first p (x ∷ xs) = if p x then some x else find_first p xs

  -- `where` of `findMany`
  unfoldable pub select : (A → Bool) → List A → List A
  select p [] = []
  select p (x ∷ xs) = let rest = select p xs in if p x then x ∷ rest else rest

  -- `update` and `updateMany`: every row that fits is rewritten.
  unfoldable pub update_all : (A → Bool) → (A → A) → List A → List A
  update_all p f [] = []
  update_all p f (x ∷ xs) = (if p x then f x else x) ∷ update_all p f xs

  -- `count`
  unfoldable pub count_all : (A → Bool) → List A → ℕ
  count_all p [] = 0
  count_all p (x ∷ xs) = (if p x then 1 else 0) + count_all p xs

  abbrev pub or_else : Option A → Option A → Option A
  or_else none b = b
  or_else (some a) b = some a

  pub find_first-true : (p : A → Bool) (xs : List A) {a : A} → find_first p xs ≡ some a → p a ≡ true
  unfolding find_first
  find_first-true p [] h = cc
  find_first-true p (x ∷ xs) {a} h = elim (Bool-cases (p x)) [
    | inl e ↦ ground arith
    | inr e ↦ find_first-true p xs (rw (e, find_first) at h)
  ]

  pub find_first-append :
      (p : A → Bool) (xs ys : List A)
      → find_first p (xs ++ ys) ≡ or_else (find_first p xs) (find_first p ys)
  unfolding find_first
  find_first-append p [] ys = refl
  find_first-append p (x ∷ xs) ys = ground (arith, find_first-append p xs ys)

  -- A row found by `p` is found by `p` again after an update of those rows that keeps `p`.
  pub find_first-update_self :
      (p : A → Bool) (f : A → A) (xs : List A)
      → ((x : A) → p x ≡ true → p (f x) ≡ true)
      → find_first p (update_all p f xs) ≡ Option.map f (find_first p xs)
  unfolding find_first update_all
  find_first-update_self p f [] h = refl
  find_first-update_self p f (x ∷ xs) h = ground (arith, h x, find_first-update_self p f xs h)

  -- An update of other rows is not seen.
  pub find_first-update_other :
      (p q : A → Bool) (f : A → A) (xs : List A)
      → ((x : A) → p x ≡ true → (q x ≡ false) × (q (f x) ≡ false))
      → find_first q (update_all p f xs) ≡ find_first q xs
  unfolding find_first update_all
  find_first-update_other p q f [] h = refl
  find_first-update_other p q f (x ∷ xs) h = ground (arith, h x, find_first-update_other p q f xs h)

  -- A row found is found after an update that keeps `p`, updated if it fits.
  pub find_first-update_hit :
      (p q : A → Bool) (f : A → A) (xs : List A) {a : A}
      → ((x : A) → p (f x) ≡ p x)
      → find_first p xs ≡ some a
      → find_first p (update_all q f xs) ≡ some (if q a then f a else a)
  unfolding find_first update_all
  find_first-update_hit p q f [] h found = cc
  find_first-update_hit p q f (x ∷ xs) {a} h found = elim (Bool-cases (p x)) [
    | inl e ↦ ground (arith, h x)
    | inr e ↦ ground (arith, h x, find_first-update_hit p q f xs h (rw (e, find_first) at found))
  ]

  -- A row found after an update was found before it, and is updated if it fits.
  pub find_first-update_inv :
      (p q : A → Bool) (f : A → A) (xs : List A) {a : A}
      → ((x : A) → p (f x) ≡ p x)
      → find_first p (update_all q f xs) ≡ some a
      → (b : A) × (find_first p xs ≡ some b)
        × (((q b ≡ true) × (a ≡ f b)) ⊎ ((q b ≡ false) × (a ≡ b)))
  unfolding find_first update_all
  find_first-update_inv p q f [] h found = cc
  find_first-update_inv p q f (x ∷ xs) {a} h found = elim (Bool-cases (p x)) [
    | inl e ↦ elim (Bool-cases (q x)) [
      | inl hit ↦ (x, ground arith, inl (hit, ground (arith, h x)))
      | inr miss ↦ (x, ground arith, inr (miss, ground arith))
    ]
    | inr e ↦
        let (b, found', c) = find_first-update_inv p q f xs h (ground (arith, h x)) in
        (b, ground arith, c)
  ]

  pub length-update_all :
      (p : A → Bool) (f : A → A) (xs : List A) → length (update_all p f xs) ≡ length xs
  unfolding update_all
  length-update_all p f [] = refl
  length-update_all p f (x ∷ xs) = ap suc (length-update_all p f xs)

  pub count_all-append :
      (p : A → Bool) (xs ys : List A) → count_all p (xs ++ ys) ≡ count_all p xs + count_all p ys
  unfolding count_all
  count_all-append p [] ys = omega arith
  count_all-append p (x ∷ xs) ys = omega (arith, count_all-append p xs ys)

  pub count_all-le : (p : A → Bool) (xs : List A) → count_all p xs ≤ length xs
  unfolding count_all
  count_all-le p [] = omega arith
  count_all-le p (x ∷ xs) = ground (arith, count_all-le p xs)

  -- Counting after an update: of rows that the update keeps in, that it takes out, and that it takes
  -- out all of.
  pub count_all-update_same :
      (p q : A → Bool) (f : A → A) (xs : List A)
      → ((x : A) → q x ≡ true → p (f x) ≡ p x)
      → count_all p (update_all q f xs) ≡ count_all p xs
  unfolding count_all update_all
  count_all-update_same p q f [] h = refl
  count_all-update_same p q f (x ∷ xs) h = ground (arith, h x, count_all-update_same p q f xs h)

  pub count_all-update_le :
      (p q : A → Bool) (f : A → A) (xs : List A)
      → ((x : A) → q x ≡ true → p (f x) ≡ false)
      → count_all p (update_all q f xs) ≤ count_all p xs
  unfolding count_all update_all
  count_all-update_le p q f [] h = omega arith
  count_all-update_le p q f (x ∷ xs) h = ground (arith, h x, count_all-update_le p q f xs h)

  pub count_all-update_none :
      (p : A → Bool) (f : A → A) (xs : List A)
      → ((x : A) → p x ≡ true → p (f x) ≡ false)
      → count_all p (update_all p f xs) ≡ 0
  unfolding count_all update_all
  count_all-update_none p f [] h = refl
  count_all-update_none p f (x ∷ xs) h = ground (arith, h x, count_all-update_none p f xs h)

  pub count_all-update_lt :
      (p q : A → Bool) (f : A → A) (xs : List A) (a : A)
      → ((x : A) → q x ≡ true → p (f x) ≡ false)
      → find_first q xs ≡ some a
      → p a ≡ true
      → suc (count_all p (update_all q f xs)) ≤ count_all p xs
  unfolding count_all update_all find_first
  count_all-update_lt p q f [] a h found e = cc
  count_all-update_lt p q f (x ∷ xs) a h found e = elim (Bool-cases (q x)) [
    | inl hit ↦ ground (arith, h x, count_all-update_le p q f xs h)
    | inr miss ↦ ground (arith, count_all-update_lt p q f xs a h (rw (miss, find_first) at found) e)
  ]

  -- The rows that fit `p` are among those that fit `q`.
  pub count_all-implies :
      (p q : A → Bool) (xs : List A)
      → ((x : A) → p x ≡ true → q x ≡ true)
      → count_all p xs ≤ count_all q xs
  unfolding count_all
  count_all-implies p q [] h = omega arith
  count_all-implies p q (x ∷ xs) h = ground (arith, h x, count_all-implies p q xs h)

  -- A row that is found is counted.
  pub find_first-count :
      (p q : A → Bool) (xs : List A) (a : A)
      → find_first p xs ≡ some a
      → q a ≡ true
      → suc 0 ≤ count_all q xs
  unfolding count_all find_first
  find_first-count p q [] a found e = cc
  find_first-count p q (x ∷ xs) a found e = elim (Bool-cases (p x)) [
    | inl hit ↦ ground arith
    | inr miss ↦ omega (arith, find_first-count p q xs a (rw (miss, find_first) at found) e)
  ]

-- Every row of a table.
pub data Every {ℓ} {A : Type ℓ} (P : A → Type 0) : List A → Type ℓ where
  nothing : Every P []
  and : {x : A} {xs : List A} → P x → Every P xs → Every P (x ∷ xs)

module _ {ℓ} {A : Type ℓ} {P : A → Type 0} where
  pub Every-map : {Q : A → Type 0} {xs : List A} → ((x : A) → P x → Q x) → Every P xs → Every Q xs
  Every-map f nothing = nothing
  Every-map f (and p ps) = and (f _ p) (Every-map f ps)

  pub Every-append_right : (xs : List A) {ys : List A} → Every P (xs ++ ys) → Every P ys
  Every-append_right [] h = h
  Every-append_right (x ∷ xs) (and p ps) = Every-append_right xs ps

-- A row of a table.
pub data Member {ℓ} {A : Type ℓ} (x : A) : List A → Type ℓ where
  top : {xs : List A} → Member x (x ∷ xs)
  below : {y : A} {xs : List A} → Member x xs → Member x (y ∷ xs)

pub Member-inv : {A : Type 0} {x y : A} {xs : List A} → Member x (y ∷ xs) → (y ≡ x) ⊎ Member x xs
Member-inv top = inl refl
Member-inv (below m) = inr m

pub Every-inv :
    {A : Type 0} {P : A → Type 0} {x : A} {xs : List A} → Every P (x ∷ xs) → P x × Every P xs
Every-inv (and p ps) = (p, ps)

-- The rows that are selected are those of the table that fit.
module _ {A : Type 0} (p : A → Bool) where
  pub Member-select : (x : A) (xs : List A) → Member x (select p xs) → Member x xs × (p x ≡ true)
  unfolding select
  Member-select x [] m = elim m [ ]
  Member-select x (y ∷ ys) m = elim (Bool-cases (p y)) [
    | inl e ↦ elim (Member-inv (rw (e, select) at m)) [
      | inl same ↦ (rw same top, ap p (sym same) ∙ e)
      | inr m' ↦ let (m'', e') = Member-select x ys m' in (below m'', e')
    ]
    | inr e ↦ let (m'', e') = Member-select x ys (rw (e, select) at m) in (below m'', e')
  ]

  pub select-Every :
      {P : A → Type 0} (xs : List A) → Every P (select p xs) → Every (λ x. p x ≡ true → P x) xs
  unfolding select
  select-Every [] h = nothing
  select-Every (y ∷ ys) h = elim (Bool-cases (p y)) [
    | inl e ↦ let (q, qs) = Every-inv (rw (e, select) at h) in and (λ e'. q) (select-Every ys qs)
    | inr e ↦ and (λ e'. cc) (select-Every ys (rw (e, select) at h))
  ]

  pub select_none : (xs : List A) → select p xs ≡ [] → Every (λ x. p x ≡ false) xs
  unfolding select
  select_none [] h = nothing
  select_none (y ∷ ys) h = elim (Bool-cases (p y)) [
    | inl e ↦ cc (rw (e, select) at h)
    | inr e ↦ and e (select_none ys (rw (e, select) at h))
  ]

  pub find_first-select-not : (xs : List A) → find_first p (select (λ x. not (p x)) xs) ≡ none
  unfolding select find_first
  find_first-select-not [] = refl
  find_first-select-not (x ∷ xs) = ground (arith, find_first-select-not xs)

  -- A row that is found is one of the table, and no row fits if none is found.
  pub find_first-Member : (xs : List A) {x : A} → find_first p xs ≡ some x → Member x xs
  unfolding find_first
  find_first-Member [] h = cc
  find_first-Member (y ∷ ys) {x} h = elim (Bool-cases (p y)) [
    | inl e ↦ rw (← some_eq (rw (e, find_first) at h)) top
    | inr e ↦ below (find_first-Member ys (rw (e, find_first) at h))
  ]

  pub find_first-Every : (xs : List A) → find_first p xs ≡ none → Every (λ x. p x ≡ false) xs
  unfolding find_first
  find_first-Every [] h = nothing
  find_first-Every (y ∷ ys) h = elim (Bool-cases (p y)) [
    | inl e ↦ cc (rw (e, find_first) at h)
    | inr e ↦ and e (find_first-Every ys (rw (e, find_first) at h))
  ]

  pub find_first-some :
      (xs : List A) (x : A) → Member x xs → p x ≡ true → (y : A) × (find_first p xs ≡ some y)
  unfolding find_first
  find_first-some [] x m h = elim m [ ]
  find_first-some (y ∷ ys) x m h = elim (Bool-cases (p y)) [
    | inl e ↦ (y, rw e refl)
    | inr e ↦ elim (Member-inv m) [
      | inl same ↦ cc (ap p same)
      | inr m' ↦ let (z, found) = find_first-some ys x m' h in (z, rw e found)
    ]
  ]
