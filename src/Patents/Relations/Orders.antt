-- ===== src/Patents/Relations/Orders.antt =====
-- The contiguity check of `resolveInventorLinks`, described by how often each order occurs.
use smart_patents_storage_sy.Prelude.{
  ℕ, ◌+◌, ◌≡◌, refl, true, ◌&&◌, List, [], ◌∷◌, map, ltb, leb, keep, length, if◌then◌else◌, arith,
}
use smart_patents_storage_sy.Prelude.Int.{ℤ, pos, negsuc, leb_ℤ, eq_ℤ}
use smart_patents_storage_sy.Prelude.Sort.{sort, count-sort, length-sort}
use smart_patents_storage_sy.Patents.Relations.{
  counts_up, contiguous, orders_from, links_from, InventorEntry,
}

-- How many entries of the list are the order `k`.
abbrev pub times : ℕ → List ℤ → ℕ
times k orders = length (keep (eq_ℤ (pos k)) orders)

-- 1 for the orders from 1 to `n`, 0 for all others.
abbrev pub once_up_to : ℕ → ℕ → ℕ
once_up_to n k = if ltb 0 k && leb k n then 1 else 0

times-counts_up :
    (k index : ℕ) (orders : List ℤ)
    → counts_up index orders ≡ true
    → times k orders ≡ (if ltb index k && leb k (index + length orders) then 1 else 0)
unfolding counts_up
times-counts_up k index [] h = ground arith
times-counts_up k index (pos n ∷ orders) h = ground (arith, times-counts_up k (index + 1) orders)
times-counts_up k index (negsuc n ∷ orders) h = cc

-- Orders that pass the check hold each of 1 to N exactly once, and nothing else below or above.
pub times-contiguous :
    (orders : List ℤ)
    → contiguous orders ≡ true
    → (k : ℕ) → times k orders ≡ once_up_to (length orders) k
unfolding contiguous
times-contiguous orders h k =
    let counted = count-sort leb_ℤ (eq_ℤ (pos k)) orders in
    let as_long = length-sort leb_ℤ orders in
    let up = times-counts_up k 0 (sort leb_ℤ orders) h in ground arith

-- The links carry the orders that were checked.
pub link_orders :
    (index : ℕ) (entries : List InventorEntry)
    → map (λ l. l.inventor_order) (links_from index entries) ≡ orders_from index entries
unfolding links_from orders_from
link_orders index [] = refl
link_orders index (e ∷ es) = rw (link_orders (index + 1) es)

pub length-orders :
    (index : ℕ) (entries : List InventorEntry) → length (orders_from index entries) ≡ length entries
unfolding orders_from
length-orders index [] = refl
length-orders index (e ∷ es) = rw (length-orders (index + 1) es)
