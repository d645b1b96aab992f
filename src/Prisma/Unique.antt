-- ===== src/Prisma/Unique.antt =====
-- Tables whose rows have pairwise different keys: a condition on a key meets one row at most.
use smart_patents_storage_sy.Prelude.{
  ◌++◌, any-append, ℕ, ◌+◌, ◌<◌, ◌≡◌, refl, Bool, true, false, ◌&&◌, not, none, some, List, [], ◌∷◌,
  map, ◌==◌, if◌then◌else◌, find, keep, any, length, change, arith, Bool-cases, inl, inr, All,
  find-map,
}
use smart_patents_storage_sy.Prisma.Rows.{no_clash}

module _ {R : Type 0} (key : R → ℕ) where
  abbrev pub at_key : ℕ → R → Bool
  at_key i r = key r == i

  -- All keys are below the next id.
  abbrev pub Below : ℕ → List R → Type 0
  Below n rows = All (λ r. key r < n) rows

  pub find-fresh : (n : ℕ) (rows : List R) → Below n rows → find (at_key n) rows ≡ none
  find-fresh n [] h = refl
  find-fresh n (x ∷ xs) h = ground (arith, find-fresh n xs h.1)

  pub Below-map :
      (f : R → R) (n : ℕ) (rows : List R)
      → ((r : R) → key (f r) ≡ key r)
      → Below n rows
      → Below n (map f rows)
  Below-map f n [] k h = tt
  Below-map f n (x ∷ xs) k h = (rw (k x) h.0, Below-map f n xs k h.1)

  pub Below-suc : (n : ℕ) (rows : List R) → Below n rows → Below (n + 1) rows
  Below-suc n [] h = tt
  Below-suc n (x ∷ xs) h = (omega arith, Below-suc n xs h.1)

  -- A keyed change seen through a search by key.
  pub find-change :
      (p : R → Bool) (f : R → R) (i : ℕ) (rows : List R)
      → ((r : R) → key (f r) ≡ key r)
      → find (at_key i) (map (change p f) rows)
        ≡ elim (find (at_key i) rows) [ none ↦ none | some r ↦ some (change p f r) ]
  find-change p f i rows k = find-map (at_key i) (change p f) rows (λ r. ground (arith, k r))

  module _ (clash : R → R → Bool)
      (keyed : (x y : R) → clash x y ≡ false → (key x == key y) ≡ false) where
    find-no_clash :
        (x : R) (rows : List R) → any (clash x) rows ≡ false → find (at_key (key x)) rows ≡ none
    find-no_clash x [] h = refl
    find-no_clash x (y ∷ ys) h = ground (arith, keyed x y, find-no_clash x ys)

    keep-none :
        (i : ℕ) (q : R → Bool) (rows : List R)
        → find (at_key i) rows ≡ none
        → keep (λ r. key r == i && q r) rows ≡ []
    keep-none i q [] h = refl
    keep-none i q (x ∷ xs) h = ground (arith, keep-none i q xs)

    -- How many rows a condition on a key and a test meets.
    pub count-at_key :
        (i : ℕ) (q : R → Bool) (rows : List R)
        → no_clash clash rows ≡ true
        → length (keep (λ r. key r == i && q r) rows)
          ≡ elim (find (at_key i) rows) [ none ↦ 0 | some r ↦ if q r then 1 else 0 ]
    count-at_key i q [] h = refl
    count-at_key i q (x ∷ xs) h = elim (Bool-cases (key x == i)) [
      | inl here ↦
          let missing : find (at_key i) xs ≡ none = ground (arith, find-no_clash x xs) in
          rw (keep-none i q xs missing) (ground arith)
      | inr there ↦ ground (arith, count-at_key i q xs)
    ]

    -- A search by key and a test.
    pub find-at_key :
        (i : ℕ) (q : R → Bool) (rows : List R)
        → no_clash clash rows ≡ true
        → find (λ r. key r == i && q r) rows
          ≡ elim (find (at_key i) rows) [ none ↦ none | some r ↦ if q r then some r else none ]
    find-at_key i q [] h = refl
    find-at_key i q (x ∷ xs) h = elim (Bool-cases (key x == i)) [
      | inl here ↦
          let missing : find (at_key i) xs ≡ none = ground (arith, find-no_clash x xs) in
          ground (arith, find-at_key i q xs)
      | inr there ↦ ground (arith, find-at_key i q xs)
    ]

    -- Taking the rows of one key out leaves the other keys alone.
    pub find-remove :
        (i j : ℕ) (q : R → Bool) (rows : List R)
        → no_clash clash rows ≡ true
        → find (at_key j) (keep (λ r. not (key r == i && q r)) rows) ≡ (
            if j == i
            then elim (find (at_key i) rows) [ none ↦ none | some r ↦ if q r then none else some r ]
            else find (at_key j) rows)
    find-remove i j q [] h = ground arith
    find-remove i j q (x ∷ xs) h = elim (Bool-cases (key x == i)) [
      | inl here ↦
          let missing : find (at_key i) xs ≡ none = ground (arith, find-no_clash x xs) in
          ground (arith, find-remove i j q xs)
      | inr there ↦ ground (arith, find-remove i j q xs)
    ]

module _ {R : Type 0} (clash : R → R → Bool) where
  any-keep : (p q : R → Bool) (rows : List R) → any p rows ≡ false → any p (keep q rows) ≡ false
  any-keep p q [] h = refl
  any-keep p q (x ∷ xs) h = ground (arith, any-keep p q xs)

  -- Fewer rows conflict no more.
  pub no_clash-keep :
      (q : R → Bool) (rows : List R)
      → no_clash clash rows ≡ true
      → no_clash clash (keep q rows) ≡ true
  no_clash-keep q [] h = refl
  no_clash-keep q (x ∷ xs) h = ground (arith, no_clash-keep q xs, any-keep (clash x) q xs)

  -- A row that conflicts with none may be added.
  pub no_clash-append :
      (rows : List R) (x : R)
      → no_clash clash rows ≡ true
      → any (λ r. clash r x) rows ≡ false
      → no_clash clash (rows ++ x ∷ []) ≡ true
  no_clash-append [] x h k = refl
  no_clash-append (y ∷ ys) x h k =
      ground (arith, no_clash-append ys x, any-append (clash y) ys (x ∷ []))

  any-map :
      (p q : R → Bool) (f : R → R) (rows : List R)
      → ((y : R) → p (f y) ≡ q y)
      → any p (map f rows) ≡ any q rows
  any-map p q f [] h = refl
  any-map p q f (y ∷ ys) h = rw (h y, any-map p q f ys h)

  -- A change that no constraint notices causes no conflict.
  pub no_clash-map :
      (f : R → R) (rows : List R)
      → ((x y : R) → clash (f x) (f y) ≡ clash x y)
      → no_clash clash (map f rows) ≡ no_clash clash rows
  no_clash-map f [] same = refl
  no_clash-map f (x ∷ xs) same =
      rw (any-map (clash (f x)) (clash x) f xs (same x), no_clash-map f xs same)

  -- A row with the next id conflicts with no row below it, where only the ids are constrained.
  pub free-next :
      (key : R → ℕ) (x : R) (rows : List R)
      → ((r : R) → clash r x ≡ (key r == key x))
      → Below key (key x) rows
      → any (λ r. clash r x) rows ≡ false
  free-next key x [] same h = refl
  free-next key x (r ∷ rs) same h = ground (arith, same r, free-next key x rs same h.1)
