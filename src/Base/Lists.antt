-- ===== src/Base/Lists.antt =====
-- Lists with Boolean tests and native lengths, and predicates on lists by recursion.
use Prim.Native.Nat.{ℕ, suc, ◌≤◌, ◌<◌}
use mathlib.Core.Path.{◌≡◌, refl, ap, subst}
use mathlib.Core.Logic.{◌⊎◌, ◌↔◌, inl, inr}
use mathlib.Core.Bool.{Bool, true, false}
use mathlib.Core.Option.{Option, none, some}
use mathlib.Core.List.{List, [], ◌∷◌, ◌++◌, map}
use native.Mathlib.Omega.{arith}
use vpnplatform.Base.Tests.{◌==◌, if◌then◌else◌, Bool-cases}

module _ {ℓ} {A : Type ℓ} where
  abbrev pub length : List A → ℕ
  length [] = 0
  length (x ∷ xs) = suc (length xs)

  abbrev pub filter : (A → Bool) → List A → List A
  filter p [] = []
  filter p (x ∷ xs) = let rest = filter p xs in if p x then x ∷ rest else rest

  abbrev pub find : (A → Bool) → List A → Option A
  find p [] = none
  find p (x ∷ xs) = let rest = find p xs in if p x then some x else rest

  abbrev pub any : (A → Bool) → List A → Bool
  any p [] = false
  any p (x ∷ xs) = let rest = any p xs in if p x then true else rest

  abbrev pub all : (A → Bool) → List A → Bool
  all p [] = true
  all p (x ∷ xs) = let rest = all p xs in if p x then rest else false

  pub length-filter-le : (p : A → Bool) (xs : List A) → length (filter p xs) ≤ length xs
  length-filter-le p [] = omega arith
  length-filter-le p (x ∷ xs) = ground (arith, length-filter-le p xs)

  pub find-head : (p : A → Bool) (a : A) (xs : List A) → p a ≡ true → find p (a ∷ xs) ≡ some a
  find-head p a xs h = rw h refl

  pub find-tail : (p : A → Bool) (a : A) (xs : List A) → p a ≡ false → find p (a ∷ xs) ≡ find p xs
  find-tail p a xs h = rw h refl

-- Equality in a list, and predicates on its elements.
module _ {A : Type 0} where
  -- `a` stands in the list.
  abbrev pub In : A → List A → Type 0
  In a [] = ⊥
  In a (x ∷ xs) = (a ≡ x) ⊎ In a xs

  abbrev pub All {κ} : (A → Type κ) → List A → Type κ
  All P [] = Unit
  All P (x ∷ xs) = P x × All P xs

  pub In-All {κ} : (P : A → Type κ) (a : A) (xs : List A) → All P xs → In a xs → P a
  In-All P a [] h i = absurd i
  In-All P a (x ∷ xs) h (inl e) = rw e h.0
  In-All P a (x ∷ xs) h (inr i) = In-All P a xs h.1 i

  pub In-filter : (p : A → Bool) (a : A) (xs : List A) → In a (filter p xs) → In a xs × (p a ≡ true)
  In-filter p a [] i = absurd i
  In-filter p a (x ∷ xs) i = ground (arith, In-filter p a xs)

  pub filter-In : (p : A → Bool) (a : A) (xs : List A) → In a xs → p a ≡ true → In a (filter p xs)
  filter-In p a [] i h = absurd i
  filter-In p a (x ∷ xs) i h = ground (arith, filter-In p a xs)

  pub find-In : (p : A → Bool) (a : A) (xs : List A) → find p xs ≡ some a → In a xs × (p a ≡ true)
  find-In p a [] e = cc
  find-In p a (x ∷ xs) e = ground (arith, find-In p a xs)

  pub find-none : (p : A → Bool) (a : A) (xs : List A) → find p xs ≡ none → In a xs → p a ≡ false
  find-none p a [] e i = absurd i
  find-none p a (x ∷ xs) e i = ground (arith, find-none p a xs)

  pub All-find : (p : A → Bool) (xs : List A) → All (λ x. p x ≡ false) xs → find p xs ≡ none
  All-find p [] h = refl
  All-find p (x ∷ xs) h = ground (arith, h.0, All-find p xs h.1)

  pub any-In : (p : A → Bool) (a : A) (xs : List A) → In a xs → p a ≡ true → any p xs ≡ true
  any-In p a [] i h = absurd i
  any-In p a (x ∷ xs) i h = ground (arith, any-In p a xs)

  pub In-any : (p : A → Bool) (xs : List A) → any p xs ≡ true → (a : A) × In a xs × (p a ≡ true)
  In-any p [] h = cc
  In-any p (x ∷ xs) h = elim (Bool-cases (p x)) [
    | inl y ↦ (x, inl refl, y)
    | inr n ↦ let (a, i, y) = In-any p xs (ground arith) in (a, inr i, y)
  ]

-- `list.includes(a)`, `set.has(a)`
abbrev pub elem : ℕ → List ℕ → Bool
elem a [] = false
elem a (x ∷ xs) = let rest = elem a xs in if a == x then true else rest

-- No number stands twice.
abbrev pub Nodup : List ℕ → Type 0
Nodup [] = Unit {0}
Nodup (x ∷ xs) = (elem x xs ≡ false) × Nodup xs

pub elem→In : (a : ℕ) (xs : List ℕ) → elem a xs ≡ true → In a xs
elem→In a [] h = cc
elem→In a (x ∷ xs) h = ground (arith, elem→In a xs)

pub In→elem : (a : ℕ) (xs : List ℕ) → In a xs → elem a xs ≡ true
In→elem a [] i = absurd i
In→elem a (x ∷ xs) i = ground (arith, In→elem a xs)

pub elem-snoc : (a b : ℕ) (xs : List ℕ) → elem a (xs ++ b ∷ []) ≡ elem a (b ∷ xs)
elem-snoc a b [] = refl
elem-snoc a b (x ∷ xs) = ground (arith, elem-snoc a b xs)

pub Nodup-snoc : (a : ℕ) (xs : List ℕ) → Nodup xs → elem a xs ≡ false → Nodup (xs ++ a ∷ [])
Nodup-snoc a [] n e = ground arith
Nodup-snoc a (x ∷ xs) n e = ground (arith, Nodup-snoc a xs, elem-snoc x a xs)

pub map-snoc {ℓ} :
    {A : Type ℓ} (f : A → ℕ) (a : A) (xs : List A) → map f (xs ++ a ∷ []) ≡ map f xs ++ f a ∷ []
map-snoc f a [] = refl
map-snoc f a (x ∷ xs) = ap (◌∷◌ (f x)) (map-snoc f a xs)

pub All-snoc :
    {A : Type 0} (P : A → Type 0) (a : A) (xs : List A) → All P xs → P a → All P (xs ++ a ∷ [])
All-snoc P a [] h p = (p, tt)
All-snoc P a (x ∷ xs) h p = (h.0, All-snoc P a xs h.1 p)

pub In-append : {A : Type 0} (a : A) (xs ys : List A) → In a (xs ++ ys) ↔ (In a xs ⊎ In a ys)
In-append a [] ys = (inr, λ h. ground arith)
In-append a (x ∷ xs) ys = ground (arith, In-append a xs ys)

pub In-map : {A : Type 0} (f : A → ℕ) (a : A) (xs : List A) → In a xs → In (f a) (map f xs)
In-map f a [] i = absurd i
In-map f a (x ∷ xs) (inl e) = inl (ap f e)
In-map f a (x ∷ xs) (inr i) = inr (In-map f a xs i)

pub map-In :
    {A : Type 0} (f : A → ℕ) (n : ℕ) (xs : List A) → In n (map f xs) → (a : A) × In a xs × (n ≡ f a)
map-In f n [] i = absurd i
map-In f n (x ∷ xs) (inl e) = (x, inl refl, e)
map-In f n (x ∷ xs) (inr i) = let (a, j, e) = map-In f n xs i in (a, inr j, e)

-- Filtering keeps what holds of the elements and of their keys.
module _ {A : Type 0} (p : A → Bool) where
  pub All-filter : (P : A → Type 0) (xs : List A) → All P xs → All P (filter p xs)
  All-filter P [] h = tt
  All-filter P (x ∷ xs) h = elim (Bool-cases (p x)) [
    | inl y ↦ rw y (h.0, All-filter P xs h.1)
    | inr n ↦ rw n (All-filter P xs h.1)
  ]

  pub filter-All : (xs : List A) → All (λ x. p x ≡ true) (filter p xs)
  filter-All [] = tt
  filter-All (x ∷ xs) = elim (Bool-cases (p x)) [
    | inl y ↦ rw y (y, filter-All xs)
    | inr n ↦ rw n (filter-All xs)
  ]

  pub elem-filter :
      (key : A → ℕ) (n : ℕ) (xs : List A)
      → elem n (map key xs) ≡ false
      → elem n (map key (filter p xs)) ≡ false
  elem-filter key n [] h = refl
  elem-filter key n (x ∷ xs) h = ground (arith, elem-filter key n xs)

  pub Nodup-filter :
      (key : A → ℕ) (xs : List A) → Nodup (map key xs) → Nodup (map key (filter p xs))
  Nodup-filter key [] h = tt
  Nodup-filter key (x ∷ xs) h = ground (arith, Nodup-filter key xs, elem-filter key (key x) xs)

pub All-map {ℓ κ} :
    {A : Type 0} (P : A → Type ℓ) (Q : A → Type κ) (xs : List A)
    → ((a : A) → P a → Q a)
    → All P xs
    → All Q xs
All-map P Q [] f h = tt
All-map P Q (x ∷ xs) f h = (f x h.0, All-map P Q xs f h.1)

pub All-tabulate {κ} :
    {A : Type 0} (P : A → Type κ) (xs : List A) → ((a : A) → In a xs → P a) → All P xs
All-tabulate P [] f = tt
All-tabulate P (x ∷ xs) f = (f x (inl refl), All-tabulate P xs (λ a i. f a (inr i)))

-- A list that is not empty has an element, and conversely.
pub length-pos : {A : Type 0} (xs : List A) → (0 < length xs) ↔ ((a : A) × In a xs)
length-pos [] = (λ h. absurd (omega arith), λ h. absurd h.1)
length-pos (x ∷ xs) = (λ h. (x, inl refl), λ h. omega arith)

-- `list.flatMap` by a function that gives one element or none.
abbrev pub collect {ℓ κ} : {A : Type ℓ} {B : Type κ} → (A → Option B) → List A → List B
collect f [] = []
collect f (x ∷ xs) = let rest = collect f xs in elim (f x) [ none ↦ rest | some b ↦ b ∷ rest ]

module _ {A B : Type 0} (f : A → Option B) where
  collect_head :
      (b : B) (x : A) (xs : List A)
      → In b (collect f (x ∷ xs)) ↔ ((f x ≡ some b) ⊎ In b (collect f xs))
  collect_head b x xs = ground arith

  pub In-collect :
      (b : B) (xs : List A) → In b (collect f xs) ↔ ((a : A) × In a xs × (f a ≡ some b))
  In-collect b [] = (λ i. absurd i, λ (a, i, e). absurd i)
  In-collect b (x ∷ xs) = (
    λ i. elim ((collect_head b x xs).0 i) [
      | inl e ↦ (x, inl refl, e)
      | inr j ↦ let (a, k, e) = (In-collect b xs).0 j in (a, inr k, e)
    ],
    λ (a, i, e). (collect_head b x xs).1 (elim i [
      | inl same ↦ inl (subst (λ y. f y ≡ some b) same e)
      | inr j ↦ inr ((In-collect b xs).1 (a, j, e))
    ]),
  )
