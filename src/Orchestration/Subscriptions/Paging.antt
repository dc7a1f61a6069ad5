-- ===== src/Orchestration/Subscriptions/Paging.antt =====
-- The cursors of `findReconciliationCandidates` and `findExpiredSubscriptionCandidates` in
-- packages/orchestration-store/src/subscription-access-store.ts, over the ids of the rows that
-- their queries select, in order. The two queries of a page see the same rows.
use Prim.Native.Nat.{zero, suc}
use vpnplatform.Base.{
  ℕ, ◌+◌, ◌⊎◌, All, All-tabulate, ◌-◌, ◌≤◌, ◌<◌, ◌≡◌, refl, inl, inr, Bool, true, ◌&&◌, Option,
  none, some, List, [], ◌∷◌, ◌++◌, arith, ltb, leb, is_some, length, filter, In, Bool-cases,
  In-append, filter-In, In-filter, if◌then◌else◌, ap, sym, ◌∙◌, subst,
}

-- `LIMIT`
abbrev pub take : ℕ → List ℕ → List ℕ
take zero xs = []
take (suc n) [] = []
take (suc n) (x ∷ xs) = x ∷ take n xs

abbrev pub after_id : Option ℕ → ℕ → Bool
after_id none id = true
after_id (some bound) id = ltb bound id

abbrev pub through_id : Option ℕ → ℕ → Bool
through_id none id = true
through_id (some bound) id = leb id bound

abbrev pub query_candidates : ℕ → (after through : Option ℕ) → List ℕ → List ℕ
query_candidates limit after through ids =
    take limit (filter (λ id. after_id after id && through_id through id) ids)

abbrev pub last_of : Option ℕ → List ℕ → Option ℕ
last_of cursor [] = cursor
last_of cursor (id ∷ ids) = last_of (some id) ids

-- The page, and the cursor after it.
unfoldable pub find_candidates : ℕ → Option ℕ → List ℕ → List ℕ × Option ℕ
find_candidates limit cursor ids =
    let first = query_candidates limit cursor none ids in
    let second = query_candidates (limit - length first) none cursor ids in
    let page = if ltb (length first) limit && is_some cursor then first ++ second else first in
    (page, last_of cursor page)

-- The ids in the order in which they come after the cursor: those beyond it, then the others.
abbrev pub rotation : Option ℕ → List ℕ → List ℕ
rotation none ids = ids
rotation (some cursor) ids = filter (λ id. ltb cursor id) ids ++ filter (λ id. leb id cursor) ids

take-append :
    (n : ℕ) (xs ys : List ℕ)
    → take n (xs ++ ys) ≡ (
        if ltb (length (take n xs)) n
        then take n xs ++ take (n - length (take n xs)) ys
        else take n xs)
take-append zero xs ys = refl
take-append (suc n) [] ys = ground arith
take-append (suc n) (x ∷ xs) ys = ground (arith, take-append n xs ys)

take-all : (n : ℕ) (xs : List ℕ) → length xs ≤ n → take n xs ≡ xs
take-all zero [] h = refl
take-all zero (x ∷ xs) h = absurd (omega arith)
take-all (suc n) [] h = refl
take-all (suc n) (x ∷ xs) h = ap (◌∷◌ x) (take-all n xs (omega arith))

filter-ext : (p q : ℕ → Bool) (xs : List ℕ) → ((a : ℕ) → p a ≡ q a) → filter p xs ≡ filter q xs
filter-ext p q [] h = refl
filter-ext p q (x ∷ xs) h = ground (arith, h x, filter-ext p q xs h)

filter-true : (xs : List ℕ) → filter (λ id. true) xs ≡ xs
filter-true [] = refl
filter-true (x ∷ xs) = ap (◌∷◌ x) (filter-true xs)

length-append : (xs ys : List ℕ) → length (xs ++ ys) ≡ length xs + length ys
length-append [] ys = omega arith
length-append (x ∷ xs) ys = omega (arith, length-append xs ys)

length-split :
    (c : ℕ) (ids : List ℕ)
    → length (filter (λ id. ltb c id) ids) + length (filter (λ id. leb id c) ids) ≡ length ids
length-split c [] = refl
length-split c (x ∷ ids) = ground (arith, length-split c ids)

length-rotation : (cursor : Option ℕ) (ids : List ℕ) → length (rotation cursor ids) ≡ length ids
length-rotation none ids = refl
length-rotation (some c) ids =
    length-append (filter (λ id. ltb c id) ids) (filter (λ id. leb id c) ids) ∙ length-split c ids

In-rotation : (cursor : Option ℕ) (ids : List ℕ) (id : ℕ) → In id ids → In id (rotation cursor ids)
In-rotation none ids id i = i
In-rotation (some c) ids id i =
    (In-append id (filter (λ k. ltb c k) ids) (filter (λ k. leb k c) ids)).1
      (elim (Bool-cases (ltb c id)) [
        | inl y ↦ inl (filter-In (λ k. ltb c k) id ids i y)
        | inr n ↦ inr (filter-In (λ k. leb k c) id ids i (ground arith))
      ])

page-rotation :
    (limit : ℕ) (cursor : Option ℕ) (ids : List ℕ)
    → (find_candidates limit cursor ids).0 ≡ take limit (rotation cursor ids)
unfolding find_candidates
page-rotation limit none ids =
    rw (filter-true ids) (elim (Bool-cases (ltb (length (take limit ids)) limit)) [
      | inl y ↦ rw y refl
      | inr n ↦ rw n refl
    ])
page-rotation limit (some c) ids =
    let beyond = filter (λ (id : ℕ). ltb c id) ids in
    let rest = filter (λ (id : ℕ). leb id c) ids in
    rw
      (
        filter-ext (λ id. ltb c id && true) (λ id. ltb c id) ids (λ a. ground arith),
        take-append limit beyond rest,
      )
      (elim (Bool-cases (ltb (length (take limit beyond)) limit)) [
        | inl y ↦ rw y refl
        | inr n ↦ rw n refl
      ])

-- A page takes the first `limit` ids that come after the cursor, going round: its two queries
-- return what one query over the rotated ids would. Where there are at most `limit` ids, every
-- one is in the page, wherever the cursor stands.
pub find_candidates-rotation :
    (limit : ℕ) (cursor : Option ℕ) (ids : List ℕ)
    → ((find_candidates limit cursor ids).0 ≡ take limit (rotation cursor ids))
      × ((limit < length ids) ⊎ All (λ id. In id (find_candidates limit cursor ids).0) ids)
find_candidates-rotation limit cursor ids =
    let page = page-rotation limit cursor ids in
    (
      page,
      elim (Bool-cases (ltb limit (length ids))) [
        | inl y ↦ inl (ground arith)
        | inr n ↦
            let whole =
              take-all limit (rotation cursor ids) (ground (arith, length-rotation cursor ids)) in
            inr (
              All-tabulate _ ids
                (λ id i. subst (In id) (sym (page ∙ whole)) (In-rotation cursor ids id i)))
      ],
    )

take-In : (n id : ℕ) (xs : List ℕ) → In id (take n xs) → In id xs
take-In zero id xs i = absurd i
take-In (suc n) id [] i = i
take-In (suc n) id (x ∷ xs) (inl e) = inl e
take-In (suc n) id (x ∷ xs) (inr i) = inr (take-In n id xs i)

rotation-In : (cursor : Option ℕ) (ids : List ℕ) (id : ℕ) → In id (rotation cursor ids) → In id ids
rotation-In none ids id i = i
rotation-In (some c) ids id i =
    elim ((In-append id (filter (λ k. ltb c k) ids) (filter (λ k. leb k c) ids)).0 i) [
      | inl j ↦ (In-filter (λ k. ltb c k) id ids j).0
      | inr j ↦ (In-filter (λ k. leb k c) id ids j).0
    ]

pub find_candidates-In :
    (limit : ℕ) (cursor : Option ℕ) (ids : List ℕ) (id : ℕ)
    → In id (find_candidates limit cursor ids).0
    → In id ids
find_candidates-In limit cursor ids id i =
    rotation-In cursor ids id
      (take-In limit id (rotation cursor ids) (subst (In id) (page-rotation limit cursor ids) i))
