-- ===== src/Prisma/Ordered.antt =====
-- `ORDER BY` of a query: it lists the rows in order, and rows that the order does not tell apart in any
-- order, which may differ from query to query.
use smart_patents_storage_sy.Prelude.{
  ℕ, ◌≡◌, refl, ap, subst, ◌∙◌, sym, Bool, true, false, none, some, List, [], ◌∷◌, ◌==◌, arith,
  find, All, Bool-cases, inl, inr, if◌then◌else◌, any,
}
use mathlib.Core.List.{Permᴰ}
use smart_patents_storage_sy.Prisma.Rows.{no_clash}
use smart_patents_storage_sy.Prisma.Shuffle.{no_clash-shuffle}
use smart_patents_storage_sy.Prisma.Unique.{at_key}

module _ {R : Type 0} (le : R → R → Bool) where
  abbrev pub IsOrdered : List R → Type 0
  IsOrdered [] = Unit
  IsOrdered (x ∷ xs) = All (λ y. le x y ≡ true) xs × IsOrdered xs

  pub record OrderBy : Type 0 where
    pub listed : List R → List R
    pub listed_rows : (rows : List R) → Permᴰ (listed rows) rows
    pub listed_in_order : (rows : List R) → IsOrdered (listed rows)

All-find :
    {R : Type 0} (P : R → Type 0) (p : R → Bool) (rows : List R) (r : R)
    → All P rows
    → find p rows ≡ some r
    → P r
All-find P p [] r h there = absurd (ground arith)
All-find P p (x ∷ xs) r (h, hs) there = elim (Bool-cases (p x)) [
  | inl here ↦ let same : x ≡ r = ground arith in subst P same h
  | inr later ↦ All-find P p xs r hs (ground arith)
]

module _ {R : Type 0} (key : R → ℕ) (clash : R → R → Bool)
    (keyed : (x y : R) → clash x y ≡ false → (key x == key y) ≡ false)
    (both : (x y : R) → clash x y ≡ clash y x) where
  find-swap :
      (i : ℕ) (a b : R) (l : List R)
      → clash a b ≡ false
      → find (at_key key i) (a ∷ b ∷ l) ≡ find (at_key key i) (b ∷ a ∷ l)
  find-swap i a b l h = let apart = keyed a b h in ground arith

  -- Without conflicts, a search by key does not see the order.
  pub find-shuffle :
      (i : ℕ) {l r : List R}
      → Permᴰ l r
      → no_clash clash l ≡ true
      → find (at_key key i) l ≡ find (at_key key i) r
  find-shuffle i Permᴰ.nil u = refl
  find-shuffle i (Permᴰ.cons {a = a} {b = b} {l₁ = l} {l₂ = r} e d) u =
      ap (λ x. find (at_key key i) (x ∷ l)) e
      ∙ ap (λ f. if key b == i then some b else f) (find-shuffle i d (ground arith))
  find-shuffle i (Permᴰ.swap {a = a} {b = b} {a' = a'} {b' = b'} {l = l} e f) u =
      find-swap i a b l (ground arith)
      ∙ ap (λ x. find (at_key key i) (b ∷ x ∷ l)) e
      ∙ ap (λ y. find (at_key key i) (y ∷ b' ∷ l)) f
  find-shuffle i (Permᴰ.trans d e) u =
      find-shuffle i d u ∙ find-shuffle i e (sym (no_clash-shuffle clash both d) ∙ u)

  -- The two lists have the same rows, as searches by key see it.
  abbrev SameRows : List R → List R → Type 0
  SameRows l r = (i : ℕ) → find (at_key key i) l ≡ find (at_key key i) r

  find-other : (a : R) (l : List R) → any (clash a) l ≡ false → find (at_key key (key a)) l ≡ none
  find-other a [] h = refl
  find-other a (x ∷ xs) h = ground (arith, keyed a x, find-other a xs)

  SameRows-rest :
      (a : R) (l r : List R)
      → no_clash clash (a ∷ l) ≡ true
      → no_clash clash (a ∷ r) ≡ true
      → SameRows (a ∷ l) (a ∷ r)
      → SameRows l r
  SameRows-rest a l r u v same i = elim (Bool-cases (key a == i)) [
    | inl here ↦
        let at : key a ≡ i = ground arith in
        let left = find-other a l (ground arith) in
        let right = find-other a r (ground arith) in
        ap (λ k. find (at_key key k) l) (sym at)
        ∙ left
        ∙ sym right
        ∙ ap (λ k. find (at_key key k) r) at
    | inr there ↦ let found = same i in ground arith
  ]

  module _ (le : R → R → Bool)
      (tells_apart : (x y : R) → le x y ≡ true → le y x ≡ true → (key x == key y) ≡ true) where
    heads :
        (a b : R) (l r : List R)
        → IsOrdered le (a ∷ l)
        → IsOrdered le (b ∷ r)
        → SameRows (a ∷ l) (b ∷ r)
        → a ≡ b
    heads a b l r (below, h) (above, k) same = elim (Bool-cases (key a == key b)) [
      | inl one ↦ let found = same (key b) in ground arith
      | inr two ↦
          let found_b : find (at_key key (key b)) l ≡ some b =
            let found = same (key b) in ground arith in
          let found_a : find (at_key key (key a)) r ≡ some a =
            let found = same (key a) in ground arith in
          let up = All-find (λ y. le a y ≡ true) _ l b below found_b in
          let down = All-find (λ y. le b y ≡ true) _ r a above found_a in
          let one = tells_apart a b up down in absurd (ground arith)
    ]

    -- An order that tells rows with different keys apart leaves one way to list them.
    IsOrdered-unique :
        (l r : List R)
        → IsOrdered le l
        → IsOrdered le r
        → no_clash clash l ≡ true
        → no_clash clash r ≡ true
        → SameRows l r
        → l ≡ r
    IsOrdered-unique [] [] h k u v same = refl
    IsOrdered-unique [] (b ∷ r) h k u v same = let found = same (key b) in absurd (ground arith)
    IsOrdered-unique (a ∷ l) [] h k u v same = let found = same (key a) in absurd (ground arith)
    IsOrdered-unique (a ∷ l) (b ∷ r) h k u v same =
        let first = heads a b l r h k same in
        let w : no_clash clash (a ∷ r) ≡ true =
          subst (λ x. no_clash clash (x ∷ r) ≡ true) (sym first) v in
        let rest : SameRows (a ∷ l) (a ∷ r) =
          subst (λ x. SameRows (a ∷ l) (x ∷ r)) (sym first) same in
        ap (λ x. x ∷ l) first
        ∙ ap (λ xs. b ∷ xs)
            (IsOrdered-unique l r h.1 k.1 (ground arith) (ground arith)
              (SameRows-rest a l r u w rest))

    pub OrderBy-unique :
        (o p : OrderBy le) (rows : List R)
        → no_clash clash rows ≡ true
        → o.listed rows ≡ p.listed rows
    OrderBy-unique o p rows u =
        let left = no_clash-shuffle clash both (o.listed_rows rows) ∙ u in
        let right = no_clash-shuffle clash both (p.listed_rows rows) ∙ u in
        IsOrdered-unique (o.listed rows) (p.listed rows) (o.listed_in_order rows)
          (p.listed_in_order rows) left right
          (λ i.
            find-shuffle i (o.listed_rows rows) left
            ∙ sym (find-shuffle i (p.listed_rows rows) right))
