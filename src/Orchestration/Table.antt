-- ===== src/Orchestration/Table.antt =====
-- Tables as lists of rows with a key, and `UPDATE … WHERE`.
use vpnplatform.Base.{
  ℕ, suc, ◌≡◌, ◌⊎◌, refl, ap, subst, Bool, true, false, List, [], ◌∷◌, map, arith, ◌==◌,
  if◌then◌else◌, length, filter, All, In, inl, inr, Nodup, elem, Bool-cases, ◌∙◌, sym, In→elem,
  In-map, some, find, find-head, find-tail, elem→In, map-In, In-filter, filter-In,
}
use vpnplatform.Base.Sort.{sort_by, elem-sort_by}

module _ {R : Type 0} where
  abbrev pub update_where : (R → Bool) → (R → R) → List R → List R
  update_where p f [] = []
  update_where p f (r ∷ rs) = (if p r then f r else r) ∷ update_where p f rs

  -- The number of rows that the statement reports.
  abbrev pub affected : (R → Bool) → List R → ℕ
  affected p rs = length (filter p rs)

  pub All-update_where :
      (P : R → Type 0) (p : R → Bool) (f : R → R) (rs : List R)
      → ((r : R) → In r rs → p r ≡ true → P r → P (f r))
      → All P rs
      → All P (update_where p f rs)
  All-update_where P p f [] keep h = tt
  All-update_where P p f (r ∷ rs) keep h =
      let rest = All-update_where P p f rs (λ a i. keep a (inr i)) h.1 in
      elim (Bool-cases (p r)) [
        | inl y ↦ rw y (keep r (inl refl) y h.0, rest)
        | inr n ↦ rw n (h.0, rest)
      ]

  -- A statement that changes the rows it meets, so that `Q` holds of those, and of the others.
  pub update_where-All :
      (Q : R → Type 0) (p : R → Bool) (f : R → R) (rs : List R)
      → ((r : R) → In r rs → p r ≡ true → Q (f r))
      → ((r : R) → In r rs → p r ≡ false → Q r)
      → All Q (update_where p f rs)
  update_where-All Q p f [] hit miss = tt
  update_where-All Q p f (r ∷ rs) hit miss =
      let rest = update_where-All Q p f rs (λ a i. hit a (inr i)) (λ a i. miss a (inr i)) in
      elim (Bool-cases (p r)) [
        | inl y ↦ rw y (hit r (inl refl) y, rest)
        | inr n ↦ rw n (miss r (inl refl) n, rest)
      ]

  pub update_where-none :
      (p : R → Bool) (f : R → R) (rs : List R)
      → All (λ r. p r ≡ false) rs
      → (update_where p f rs ≡ rs) × (affected p rs ≡ 0)
  update_where-none p f [] h = (refl, refl)
  update_where-none p f (r ∷ rs) h =
      let rest = update_where-none p f rs h.1 in ground (arith, rest, h.0)

  -- A row that the statement does not meet stands in the table afterwards.
  pub In-update_where_miss :
      (p : R → Bool) (f : R → R) (a : R) (rs : List R)
      → In a rs
      → p a ≡ false
      → In a (update_where p f rs)
  In-update_where_miss p f a [] i n = absurd i
  In-update_where_miss p f a (r ∷ rs) (inl e) n = inl (ground arith)
  In-update_where_miss p f a (r ∷ rs) (inr i) n = inr (In-update_where_miss p f a rs i n)

  pub In-update_where_hit :
      (p : R → Bool) (f : R → R) (a : R) (rs : List R)
      → In a rs
      → p a ≡ true
      → In (f a) (update_where p f rs)
  In-update_where_hit p f a [] i y = absurd i
  In-update_where_hit p f a (r ∷ rs) (inl e) y =
      inl (subst (λ x. f a ≡ (if p x then f x else x)) e (rw y refl))
  In-update_where_hit p f a (r ∷ rs) (inr i) y = inr (In-update_where_hit p f a rs i y)

  -- A column that the change keeps on the rows that the statement meets.
  pub map-update_where-same :
      {B : Type 0} (g : R → B) (p : R → Bool) (f : R → R) (rs : List R)
      → ((r : R) → In r rs → p r ≡ true → g (f r) ≡ g r)
      → map g (update_where p f rs) ≡ map g rs
  map-update_where-same g p f [] keep = refl
  map-update_where-same g p f (r ∷ rs) keep =
      let rest = map-update_where-same g p f rs (λ a i. keep a (inr i)) in
      elim (Bool-cases (p r)) [
        | inl y ↦ rw y (rw (keep r (inl refl) y, rest) refl)
        | inr n ↦ rw n (ap (◌∷◌ (g r)) rest)
      ]

  -- Each row stands in the table afterwards, changed if the statement meets it.
  pub In-update_where :
      (p : R → Bool) (f : R → R) (a : R) (rs : List R)
      → In a rs
      → In (if p a then f a else a) (update_where p f rs)
  In-update_where p f a rs i = elim (Bool-cases (p a)) [
    | inl y ↦ rw y (In-update_where_hit p f a rs i y)
    | inr n ↦ rw n (In-update_where_miss p f a rs i n)
  ]

  -- Where a row of the table comes from.
  pub update_where-In :
      (p : R → Bool) (f : R → R) (b : R) (rs : List R)
      → In b (update_where p f rs)
      → (a : R) × In a rs × (b ≡ (if p a then f a else a))
  update_where-In p f b [] i = absurd i
  update_where-In p f b (r ∷ rs) (inl e) = (r, inl refl, e)
  update_where-In p f b (r ∷ rs) (inr i) =
      let (a, j, e) = update_where-In p f b rs i in (a, inr j, e)

  -- The row found by a test that the statement does not change, changed if the statement meets it.
  pub find-update_where :
      (q p : R → Bool) (f : R → R) (a : R) (rs : List R)
      → ((r : R) → q (f r) ≡ q r)
      → find q rs ≡ some a
      → find q (update_where p f rs) ≡ some (if p a then f a else a)
  find-update_where q p f a [] same h = cc
  find-update_where q p f a (r ∷ rs) same h =
      let after = if p r then f r else r in
      let kept : q after ≡ q r = ground (arith, same r) in
      elim (Bool-cases (q r)) [
        | inl y ↦
            let one : r ≡ a = ground (arith, find-head q r rs y) in
            find-head q after (update_where p f rs) (kept ∙ y)
            ∙ ap (λ x. some (if p x then f x else x)) one
        | inr n ↦
            find-tail q after (update_where p f rs) (kept ∙ n)
            ∙ find-update_where q p f a rs same (sym (find-tail q r rs n) ∙ h)
      ]

module _ {R : Type 0} (key : R → ℕ) where
  -- A statement that keeps the keys keeps their uniqueness.
  pub map-update_where :
      (p : R → Bool) (f : R → R) (rs : List R)
      → ((r : R) → key (f r) ≡ key r)
      → map key (update_where p f rs) ≡ map key rs
  map-update_where p f [] keep = refl
  map-update_where p f (r ∷ rs) keep = ground (arith, keep r, map-update_where p f rs keep)

  absent_key :
      (a r : R) (rs : List R) → key a ≡ key r → elem (key r) (map key rs) ≡ false → ¬ In a rs
  absent_key a r rs same absent i = ground (arith, In→elem (key a) (map key rs) (In-map key a rs i))

  -- A key belongs to one row.
  pub In-unique :
      (a b : R) (rs : List R) → Nodup (map key rs) → In a rs → In b rs → key a ≡ key b → a ≡ b
  In-unique a b [] n i j e = absurd i
  In-unique a b (r ∷ rs) n (inl i) (inl j) e = i ∙ sym j
  In-unique a b (r ∷ rs) n (inl i) (inr j) e = absurd (absent_key b r rs (ground arith) n.0 j)
  In-unique a b (r ∷ rs) n (inr i) (inl j) e = absurd (absent_key a r rs (ground arith) n.0 i)
  In-unique a b (r ∷ rs) n (inr i) (inr j) e = In-unique a b rs n.1 i j e

  -- A row that is found by its key alone.
  pub In-key : (n : ℕ) (rs : List R) → elem n (map key rs) ≡ true → (r : R) × In r rs × (key r ≡ n)
  In-key n [] h = cc
  In-key n (r ∷ rs) h = elim (Bool-cases (n == key r)) [
    | inl y ↦ (r, inl refl, ground arith)
    | inr m ↦ let (a, i, e) = In-key n rs (ground arith) in (a, inr i, e)
  ]

  no_more :
      (p : R → Bool) (k : ℕ) (rs : List R)
      → ((r : R) → p r ≡ true → key r ≡ k)
      → elem k (map key rs) ≡ false
      → affected p rs ≡ 0
  no_more p k [] only absent = refl
  no_more p k (r ∷ rs) only absent = ground (arith, only r, no_more p k rs only)

  -- A statement that names a row by its key meets that row, or none.
  pub affected_unique :
      (p : R → Bool) (k : ℕ) (rs : List R)
      → ((r : R) → p r ≡ true → key r ≡ k)
      → Nodup (map key rs)
      → ((affected p rs ≡ 1) × ((r : R) × In r rs × (p r ≡ true)))
        ⊎ ((affected p rs ≡ 0) × All (λ r. p r ≡ false) rs)
  affected_unique p k [] only n = inr (refl, tt)
  affected_unique p k (r ∷ rs) only n = elim (Bool-cases (p r)) [
    | inl y ↦ inl (rw y (ap suc (no_more p k rs only (ground (arith, only r y)))), (r, inl refl, y))
    | inr m ↦ elim (affected_unique p k rs only n.1) [
      | inl (one, (a, i, y)) ↦ inl (rw m one, (a, inr i, y))
      | inr (zero', h) ↦ inr (rw m zero', (m, h))
    ]
  ]

  -- `WHERE p ORDER BY …`: a row's key stands among the selected ones exactly if it passes the test.
  pub elem-selected :
      (before : R → R → Bool) (p : R → Bool) (a : R) (rs : List R)
      → Nodup (map key rs)
      → In a rs
      → elem (key a) (map key (sort_by before (filter p rs))) ≡ p a
  elem-selected before p a rs uniq i =
      elem-sort_by before key (key a) (filter p rs) ∙ (elim (Bool-cases (p a)) [
        | inl y ↦ In→elem (key a) _ (In-map key a (filter p rs) (filter-In p a rs i y)) ∙ sym y
        | inr n ↦ elim (Bool-cases (elem (key a) (map key (filter p rs)))) [
          | inr gone ↦ gone ∙ sym n
          | inl e ↦
              let (b, j, same) = map-In key (key a) (filter p rs) (elem→In (key a) _ e) in
              let (k, y) = In-filter p b rs j in
              absurd
                (ground (arith, subst (λ x. p x ≡ false) (In-unique a b rs uniq i k same) n, y))
        ]
      ])

  -- The keys of the rows that pass a test which the statement does not change.
  pub map-filter-update_where :
      (p q : R → Bool) (f : R → R) (rs : List R)
      → ((r : R) → key (f r) ≡ key r)
      → ((r : R) → p (f r) ≡ p r)
      → map key (filter p (update_where q f rs)) ≡ map key (filter p rs)
  map-filter-update_where p q f [] keep same = refl
  map-filter-update_where p q f (r ∷ rs) keep same =
      ground (arith, keep r, same r, map-filter-update_where p q f rs keep same)
