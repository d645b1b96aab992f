-- ===== src/Patents/Listing/Pages.antt =====
-- The pages of a listing put together.
use native.Mathlib.Nat.{lt-div-mul-add}
use smart_patents_storage_sy.Prelude.{
  ℕ, suc, zero, ◌+◌, ◌*◌, ◌-◌, ◌/◌, ◌≤◌, ◌<◌, ◌≡◌, refl, sym, ◌∙◌, ap, List, [], ◌∷◌, ◌++◌, map,
  take, drop, length, arith, ◌==◌, if◌then◌else◌, true, false, Bool, any,
}
use smart_patents_storage_sy.Exec.{Result, ok, err}
use smart_patents_storage_sy.Prisma.{Prisma, no_clash}
use smart_patents_storage_sy.Prisma.Shuffle.{length-shuffle}
use smart_patents_storage_sy.Prisma.Unique.{no_clash-keep}
use smart_patents_storage_sy.Prisma.Ordered.{OrderBy, OrderBy-unique}
use smart_patents_storage_sy.Schema.{Patent, PatentDetail, patent_clash}
use smart_patents_storage_sy.State.{State}
use smart_patents_storage_sy.Patents.Rows.{load_detail}
use smart_patents_storage_sy.Patents.Lifecycle.Applied.{patent_keyed}
use smart_patents_storage_sy.Patents.Access.{Caller, Filters, build_list_filter}
use smart_patents_storage_sy.Patents.Listing.{
  page_rows, total_pages, PatentPage, listed_patents, list_patents, newest_first,
}

module _ {ℓ} {A : Type ℓ} where
  take-split : (n m k : ℕ) (xs : List A) → n + m ≡ k → take n xs ++ take m (drop n xs) ≡ take k xs
  take-split zero m k xs h = ap (λ i. take i xs) (omega arith)
  take-split (suc n) m zero xs h = absurd (omega arith)
  take-split (suc n) zero (suc k) [] h = refl
  take-split (suc n) (suc m) (suc k) [] h = refl
  take-split (suc n) m (suc k) (x ∷ xs) h = ap (λ ys. x ∷ ys) (take-split n m k xs (omega arith))

  take-whole : (n : ℕ) (xs : List A) → length xs ≤ n → take n xs ≡ xs
  take-whole zero [] h = refl
  take-whole zero (x ∷ xs) h = absurd (omega arith)
  take-whole (suc n) [] h = refl
  take-whole (suc n) (x ∷ xs) h = ap (λ ys. x ∷ ys) (take-whole n xs (omega arith))

  map-join : {B : Type ℓ} (f : A → B) (xs ys : List A) → map f (xs ++ ys) ≡ map f xs ++ map f ys
  map-join f [] ys = refl
  map-join f (x ∷ xs) ys = ap (λ zs. f x ∷ zs) (map-join f xs ys)

one_at_least :
    (q total limit : ℕ)
    → 0 < limit
    → total + (limit - 1) < q * limit + limit
    → total ≤ (if q == 0 then 1 else q) * limit
one_at_least zero total limit h k = omega arith
one_at_least (suc q) total limit h k = grind arith

-- The pages hold all entries.
total_pages-enough : (total limit : ℕ) → 0 < limit → total ≤ total_pages total limit * limit
unfolding total_pages
total_pages-enough total limit h =
    one_at_least ((total + (limit - 1)) / limit) total limit h (lt-div-mul-add h)

abbrev pub patents_of : Result PatentPage → List PatentDetail
patents_of (ok page) = page.patents
patents_of (err e) = []

-- The columns of the order tell patents with different ids apart.
newest_first-tells_apart :
    (p q : Patent) → newest_first p q ≡ true → newest_first q p ≡ true → (p.id == q.id) ≡ true
newest_first-tells_apart p q h k = ground arith

abbrev same_id : Patent → Patent → Bool
same_id p q = p.id == q.id

other_ids :
    (p : Patent) (ps : List Patent) → any (patent_clash p) ps ≡ false → any (same_id p) ps ≡ false
other_ids p [] h = refl
other_ids p (q ∷ qs) h = ground (arith, patent_keyed p q, other_ids p qs)

distinct_ids : (ps : List Patent) → no_clash patent_clash ps ≡ true → no_clash same_id ps ≡ true
distinct_ids [] u = refl
distinct_ids (p ∷ ps) u = ground (arith, other_ids p ps, distinct_ids ps)

module _ (prisma : Prisma) (orders : ℕ → OrderBy newest_first) (limit : ℕ) (f : Filters)
    (caller : Caller) (s : State) where
  -- The pages 1 to `k`, put together; `orders` gives the order that the database takes for each page.
  abbrev pub first_pages : ℕ → List PatentDetail
  first_pages zero = []
  first_pages (suc k) =
      first_pages k ++ patents_of (list_patents prisma (orders (suc k)) (suc k) limit f caller s).0

  module _ (order : OrderBy newest_first)
      (unique : no_clash patent_clash s.patents.rows ≡ true) where
    orders-agree :
        (k : ℕ)
        → listed_patents prisma (orders k) f caller s ≡ listed_patents prisma order f caller s
    orders-agree k =
        let rows = prisma.find_many (build_list_filter prisma f caller s) s.patents in
        let kept : no_clash patent_clash rows ≡ true =
          ap (no_clash patent_clash)
            (prisma.find_many_lem (build_list_filter prisma f caller s) s.patents)
          ∙ no_clash-keep patent_clash (build_list_filter prisma f caller s) s.patents.rows
              unique in
        OrderBy-unique (λ (p : Patent). p.id) same_id (λ p q h. h) (λ p q. ground arith)
          newest_first newest_first-tells_apart (orders k) order rows (distinct_ids rows kept)

    first_pages-eq :
        (k : ℕ)
        → first_pages k
          ≡ map (load_detail prisma s) (take (k * limit) (listed_patents prisma order f caller s))
    unfolding list_patents page_rows
    first_pages-eq zero =
        let none_yet : 0 ≡ 0 * limit = omega arith in
        ap (λ i. map (load_detail prisma s) (take i (listed_patents prisma order f caller s)))
          none_yet
    first_pages-eq (suc k) =
        let rows = listed_patents prisma order f caller s in
        let before : suc k - 1 ≡ k = omega arith in
        rw (first_pages-eq k, orders-agree (suc k))
          (sym (
              map-join (load_detail prisma s) (take (k * limit) rows)
                (take limit (drop ((suc k - 1) * limit) rows)))
            ∙ ap (map (load_detail prisma s)) (
                ap (λ i. take (k * limit) rows ++ take limit (drop (i * limit) rows)) before
                ∙ take-split (k * limit) limit (suc k * limit) rows (omega arith)))

    -- With a limit of at least 1 and patents that meet the unique constraints, the pages 1 to
    -- `totalPages` of a listing, all read in one state, put together are the whole listing in its order,
    -- without a patent lost or repeated. That holds for every way in which the database may order the
    -- rows of each page's query and of the whole, within what `ORDER BY` asks for.
    pub list_patents-covers :
        0 < limit
        → first_pages
            (total_pages (prisma.count (build_list_filter prisma f caller s) s.patents) limit)
          ≡ map (load_detail prisma s) (listed_patents prisma order f caller s)
    list_patents-covers h =
        let counted = prisma.count_lem (build_list_filter prisma f caller s) s.patents in
        let read = prisma.find_many_lem (build_list_filter prisma f caller s) s.patents in
        let total = prisma.count (build_list_filter prisma f caller s) s.patents in
        let enough = total_pages-enough total limit h in
        let rows = prisma.find_many (build_list_filter prisma f caller s) s.patents in
        let size = length-shuffle (order.listed_rows rows) in
        let fits : length (listed_patents prisma order f caller s)
            ≤ total_pages total limit * limit =
          rw (size, read, sym counted) enough in
        first_pages-eq (total_pages total limit)
        ∙ ap (map (load_detail prisma s)) (take-whole (total_pages total limit * limit) _ fits)
