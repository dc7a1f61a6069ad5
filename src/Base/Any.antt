-- ===== src/Base/Any.antt =====
-- `Array.prototype.some` over lists that are built by the other functions on lists.
use Prim.Native.Nat.{ℕ}
use mathlib.Core.Path.{◌≡◌, refl, sym, ap, ◌∙◌}
use mathlib.Core.Logic.{inl, inr}
use mathlib.Core.Bool.{Bool, true, false, ◌&&◌, ◌||◌}
use mathlib.Core.Option.{Option, none, some}
use mathlib.Core.List.{List, [], ◌∷◌, ◌++◌, map}
use native.Mathlib.Omega.{arith}
use vpnplatform.Base.Tests.{◌==◌, is_some, Bool-cases}
use vpnplatform.Base.Lists.{In, any, filter, collect, elem, any-In}
use vpnplatform.Base.Sort.{insert_by, sort_by}

-- `list.length > 0`
abbrev pub nonempty {ℓ} : {A : Type ℓ} → List A → Bool
nonempty [] = false
nonempty (x ∷ xs) = true

abbrev pub option_any {ℓ} : {A : Type ℓ} → (A → Bool) → Option A → Bool
option_any q none = false
option_any q (some a) = q a

module _ {A : Type 0} where
  pub nonempty-append : (xs ys : List A) → nonempty (xs ++ ys) ≡ nonempty xs || nonempty ys
  nonempty-append [] ys = refl
  nonempty-append (x ∷ xs) ys = refl

  pub any-ext :
      (p q : A → Bool) (xs : List A) → ((a : A) → In a xs → p a ≡ q a) → any p xs ≡ any q xs
  any-ext p q [] h = refl
  any-ext p q (x ∷ xs) h = ground (arith, h x (inl refl), any-ext p q xs (λ a i. h a (inr i)))

  pub any-or : (p q : A → Bool) (xs : List A) → any (λ x. p x || q x) xs ≡ any p xs || any q xs
  any-or p q [] = refl
  any-or p q (x ∷ xs) = ground (arith, any-or p q xs)

  pub any-filter : (p q : A → Bool) (xs : List A) → any q (filter p xs) ≡ any (λ x. p x && q x) xs
  any-filter p q [] = refl
  any-filter p q (x ∷ xs) = ground (arith, any-filter p q xs)

  any-insert_by :
      (before : A → A → Bool) (p : A → Bool) (x : A) (ys : List A)
      → any p (insert_by before x ys) ≡ p x || any p ys
  unfolding insert_by
  any-insert_by before p x [] = ground arith
  any-insert_by before p x (y ∷ ys) = ground (arith, any-insert_by before p x ys)

  pub any-sort_by :
      (before : A → A → Bool) (p : A → Bool) (xs : List A) → any p (sort_by before xs) ≡ any p xs
  unfolding sort_by
  any-sort_by before p [] = refl
  any-sort_by before p (x ∷ xs) =
      ground (arith, any-insert_by before p x (sort_by before xs), any-sort_by before p xs)

  any-never : (xs : List A) → any (λ x. false) xs ≡ false
  any-never [] = refl
  any-never (x ∷ xs) = any-never xs

  pub any-and-none :
      (p q : A → Bool) (xs : List A) → any p xs ≡ false → any (λ x. p x && q x) xs ≡ false
  any-and-none p q [] h = refl
  any-and-none p q (x ∷ xs) h = ground (arith, any-and-none p q xs)

  -- Where one element alone passes a test.
  pub any-one :
      (p q : A → Bool) (a : A) (xs : List A)
      → In a xs
      → p a ≡ true
      → ((b : A) → In b xs → p b ≡ true → b ≡ a)
      → any (λ x. p x && q x) xs ≡ q a
  any-one p q a xs i y one =
      let both = λ (x : A). p x && q x in
      elim (Bool-cases (q a)) [
        | inl k ↦ any-In both a xs i (rw (y, k) refl) ∙ sym k
        | inr n ↦
            any-ext both (λ x. false) xs
              (λ b j. elim (Bool-cases (p b)) [
                | inl yb ↦ rw yb (ap q (one b j yb) ∙ n)
                | inr nb ↦ rw nb refl
              ])
            ∙ any-never xs
            ∙ sym n
      ]

pub elem-map-filter :
    {A : Type 0} (n : ℕ) (key : A → ℕ) (p : A → Bool) (xs : List A)
    → elem n (map key (filter p xs)) ≡ any (λ x. p x && (key x == n)) xs
elem-map-filter n key p [] = refl
elem-map-filter n key p (x ∷ xs) = ground (arith, elem-map-filter n key p xs)

module _ {A B : Type 0} (f : A → Option B) where
  pub nonempty-collect : (xs : List A) → nonempty (collect f xs) ≡ any (λ x. is_some (f x)) xs
  nonempty-collect [] = refl
  nonempty-collect (x ∷ xs) = ground (arith, nonempty-collect xs)

  pub any-collect :
      (q : B → Bool) (xs : List A) → any q (collect f xs) ≡ any (λ x. option_any q (f x)) xs
  any-collect q [] = refl
  any-collect q (x ∷ xs) = ground (arith, any-collect q xs)
