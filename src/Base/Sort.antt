-- ===== src/Base/Sort.antt =====
-- `Array.prototype.sort`: a stable sort by a comparison, as insertion.
use vpnplatform.Base.Tests.{if◌then◌else◌, Bool-cases}
use Prim.Native.Nat.{ℕ, suc}
use mathlib.Core.Path.{◌≡◌, refl, sym, subst, ap, ◌∙◌}
use mathlib.Core.Logic.{◌↔◌, inl, inr}
use mathlib.Core.Bool.{Bool, true, false}
use mathlib.Core.List.{List, [], ◌∷◌, map}
use native.Mathlib.Omega.{arith}
use vpnplatform.Base.Lists.{length, In, elem, Nodup, elem→In, In→elem}

module _ {A : Type 0} (before : A → A → Bool) where
  -- `x` came before the list's elements, so it passes only those that must precede it.
  unfoldable pub insert_by : A → List A → List A
  insert_by x [] = x ∷ []
  insert_by x (y ∷ ys) = let rest = insert_by x ys in if before y x then y ∷ rest else x ∷ y ∷ ys

  unfoldable pub sort_by : List A → List A
  unfolding insert_by
  sort_by [] = []
  sort_by (x ∷ xs) = insert_by x (sort_by xs)

  In-insert_by : (a x : A) (ys : List A) → In a (insert_by x ys) ↔ In a (x ∷ ys)
  unfolding insert_by
  In-insert_by a x [] = (λ h. h, λ h. h)
  In-insert_by a x (y ∷ ys) = ground (arith, In-insert_by a x ys)

  -- Sorting keeps the elements.
  pub In-sort_by : (a : A) (xs : List A) → In a (sort_by xs) ↔ In a xs
  unfolding sort_by
  In-sort_by a [] = (λ h. h, λ h. h)
  In-sort_by a (x ∷ xs) = ground (arith, In-insert_by a x (sort_by xs), In-sort_by a xs)

  length-insert_by : (x : A) (ys : List A) → length (insert_by x ys) ≡ suc (length ys)
  unfolding insert_by
  length-insert_by x [] = refl
  length-insert_by x (y ∷ ys) = ground (arith, length-insert_by x ys)

  pub length-sort_by : (xs : List A) → length (sort_by xs) ≡ length xs
  unfolding sort_by
  length-sort_by [] = refl
  length-sort_by (x ∷ xs) = omega (arith, length-insert_by x (sort_by xs), length-sort_by xs)

-- The same through a key, such as an identifier.
module _ {A : Type 0} (before : A → A → Bool) (key : A → ℕ) where
  elem-insert_by :
      (n : ℕ) (x : A) (ys : List A)
      → elem n (map key (insert_by before x ys)) ≡ elem n (map key (x ∷ ys))
  unfolding insert_by
  elem-insert_by n x [] = refl
  elem-insert_by n x (y ∷ ys) = ground (arith, elem-insert_by n x ys)

  pub elem-sort_by :
      (n : ℕ) (xs : List A) → elem n (map key (sort_by before xs)) ≡ elem n (map key xs)
  unfolding sort_by
  elem-sort_by n [] = refl
  elem-sort_by n (x ∷ xs) =
      ground (arith, elem-insert_by n x (sort_by before xs), elem-sort_by n xs)

  Nodup-insert_by :
      (x : A) (ys : List A) → Nodup (map key (x ∷ ys)) → Nodup (map key (insert_by before x ys))
  unfolding insert_by
  Nodup-insert_by x [] h = h
  Nodup-insert_by x (y ∷ ys) h = ground (arith, Nodup-insert_by x ys, elem-insert_by (key y) x ys)

  pub Nodup-sort_by : (xs : List A) → Nodup (map key xs) → Nodup (map key (sort_by before xs))
  unfolding sort_by
  Nodup-sort_by [] h = h
  Nodup-sort_by (x ∷ xs) h =
      Nodup-insert_by x (sort_by before xs)
        (ground (arith, elem-sort_by (key x) xs, Nodup-sort_by xs))

  pub In-map-sort_by :
      (n : ℕ) (xs : List A) → In n (map key (sort_by before xs)) ↔ In n (map key xs)
  In-map-sort_by n xs = ground (
    arith,
    elem-sort_by n xs,
    elem→In n (map key xs),
    elem→In n (map key (sort_by before xs)),
    In→elem n (map key xs),
    In→elem n (map key (sort_by before xs)),
  )

-- Sorting by a key sorts the keys.
module _ {A B : Type 0} (key : A → B) (before : A → A → Bool) (order : B → B → Bool)
    (agree : (a b : A) → before a b ≡ order (key a) (key b)) where
  map-insert_by :
      (x : A) (ys : List A) → map key (insert_by before x ys) ≡ insert_by order (key x) (map key ys)
  unfolding insert_by
  map-insert_by x [] = refl
  map-insert_by x (y ∷ ys) = ground (arith, agree y x, map-insert_by x ys)

  pub map-sort_by : (xs : List A) → map key (sort_by before xs) ≡ sort_by order (map key xs)
  unfolding sort_by
  map-sort_by [] = refl
  map-sort_by (x ∷ xs) =
      map-insert_by x (sort_by before xs) ∙ ap (insert_by order (key x)) (map-sort_by xs)

-- Where coming before is a strict weak order, the first one of the sorted list is a least one.
module _ {A : Type 0} (before : A → A → Bool) (irreflexive : (a : A) → before a a ≡ false)
    (transitive : (a b c : A) → before a b ≡ false → before b c ≡ false → before a c ≡ false)
    (asymmetric : (a b : A) → before a b ≡ true → before b a ≡ false) where
  -- Nothing in the list comes before `a`.
  abbrev pub Least : A → List A → Type 0
  Least a xs = (b : A) → In b xs → before b a ≡ false

  insert_by-head :
      (x y : A) (ys : List A)
      → Least y (y ∷ ys)
      → (h : A) × (rest : List A) × (insert_by before x (y ∷ ys) ≡ h ∷ rest) × Least h (x ∷ y ∷ ys)
  unfolding insert_by
  insert_by-head x y ys least = elim (Bool-cases (before y x)) [
    | inl first ↦ (
      y,
      insert_by before x ys,
      rw first refl,
      λ b i. elim i [ inl e ↦ rw e (asymmetric y x first) | inr j ↦ least b j ],
    )
    | inr later ↦ (
      x,
      y ∷ ys,
      rw later refl,
      λ b i. elim i [ inl e ↦ rw e (irreflexive x) | inr j ↦ transitive b y x (least b j) later ],
    )
  ]

  sort_by-Least :
      (x : A) (xs : List A)
      → (h : A) × (rest : List A) × (sort_by before (x ∷ xs) ≡ h ∷ rest) × Least h (x ∷ xs)
  unfolding sort_by
  sort_by-Least x [] =
      (x, [], refl, λ b i. elim i [ inl e ↦ rw e (irreflexive x) | inr j ↦ absurd j ])
  sort_by-Least x (y ∷ ys) =
      let (h, rest, e, least) = sort_by-Least y ys in
      let known = λ (b : A) (i : In b (h ∷ rest)).
        least b ((In-sort_by before b (y ∷ ys)).0 (subst (In b) (sym e) i)) in
      let (k, rest', e', least') = insert_by-head x h rest known in
      (
        k,
        rest',
        rw e e',
        λ b i. elim i [
          | inl same ↦ least' b (inl same)
          | inr j ↦ least' b (inr (subst (In b) e ((In-sort_by before b (y ∷ ys)).1 j)))
        ],
      )

  -- The head of a sorted list.
  pub sort_by-head-Least : (h : A) (rest xs : List A) → sort_by before xs ≡ h ∷ rest → Least h xs
  unfolding sort_by
  sort_by-head-Least h rest [] e = absurd (cc)
  sort_by-head-Least h rest (x ∷ xs) e =
      let (k, rest', e', least) = sort_by-Least x xs in
      subst (λ a. Least a (x ∷ xs)) (ground arith) least
