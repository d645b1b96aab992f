-- ===== src/Patents/Relations/Credits.antt =====
-- What the links that `resolveInventorLinks` returns are worth.
use smart_patents_storage_sy.Prelude.{
  ℕ, ◌+◌, ◌≡◌, refl, ◌∙◌, ap, true, false, List, [], ◌∷◌, map, length, arith,
}
use smart_patents_storage_sy.Prelude.Int.{ℤ}
use smart_patents_storage_sy.Prelude.Decimal.{big_int}
use smart_patents_storage_sy.Exec.{ok}
use smart_patents_storage_sy.Prisma.{Prisma}
use smart_patents_storage_sy.State.{State}
use smart_patents_storage_sy.Patents.Relations.{
  InventorEntry, ResolvedLink, resolve_inventor_links, find_duplicates, orders_from, links_from,
  contiguous, not_empty,
}
use smart_patents_storage_sy.Patents.Relations.Orders.{
  times, once_up_to, times-contiguous, link_orders, length-orders,
}
use smart_patents_storage_sy.Patents.Relations.Duplicates.{distinct, find_duplicates-distinct}

abbrev pub orders_of : List ResolvedLink → List ℤ
orders_of links = map (λ l. l.inventor_order) links

link_ids :
    (index : ℕ) (entries : List InventorEntry)
    → map (λ l. l.inventor_id) (links_from index entries)
      ≡ map big_int (map (λ e. e.inventor_id) entries)
unfolding links_from
link_ids index [] = refl
link_ids index (e ∷ es) = rw (link_ids (index + 1) es)

pub record IsCredited (entries : List InventorEntry) (links : List ResolvedLink) : Type 0 where
  pub no_repeat : distinct (map (λ e. e.inventor_id) entries) ≡ true
  pub ids : map (λ l. l.inventor_id) links ≡ map big_int (map (λ e. e.inventor_id) entries)
  pub ordered : (k : ℕ) → times k (orders_of links) ≡ once_up_to (length entries) k

module _ (prisma : Prisma) (e : InventorEntry) (es : List InventorEntry) (s : State)
    (links : List ResolvedLink) (h : (resolve_inventor_links prisma (e ∷ es) s).0 ≡ ok links) where
  accepted_distinct : not_empty (find_duplicates (map (λ e. e.inventor_id) (e ∷ es))) ≡ false
  unfolding resolve_inventor_links
  accepted_distinct = ground arith

  accepted_contiguous : contiguous (orders_from 0 (e ∷ es)) ≡ true
  unfolding resolve_inventor_links
  accepted_contiguous = ground arith

  accepted_links : links ≡ links_from 0 (e ∷ es)
  unfolding resolve_inventor_links
  accepted_links = ground arith

  accepted-IsCredited : IsCredited (e ∷ es) links
  accepted-IsCredited = record {
    no_repeat =
        ground
          (arith, accepted_distinct, find_duplicates-distinct (map (λ e. e.inventor_id) (e ∷ es)));
    ids = ap (map (λ l. l.inventor_id)) accepted_links ∙ link_ids 0 (e ∷ es);
    ordered = λ k.
        ap (λ ls. times k (orders_of ls)) accepted_links
        ∙ ap (times k) (link_orders 0 (e ∷ es))
        ∙ times-contiguous (orders_from 0 (e ∷ es)) accepted_contiguous k
        ∙ ap (λ n. once_up_to n k) (length-orders 0 (e ∷ es));
  }

nil_links :
    (prisma : Prisma) (s : State) (links : List ResolvedLink)
    → (resolve_inventor_links prisma [] s).0 ≡ ok links
    → links ≡ []
unfolding resolve_inventor_links
nil_links prisma s links h = ground arith

-- When the links of a request are accepted, the texts of its inventor ids are pairwise different, the
-- links name the inventors of these texts in the order of the request, and each credit order from 1 to
-- their number is held by exactly one link. Texts of one number, such as 3 and 03, are different here.
pub resolve_inventor_links-IsCredited :
    (prisma : Prisma) (entries : List InventorEntry) (s : State) (links : List ResolvedLink)
    → (resolve_inventor_links prisma entries s).0 ≡ ok links
    → IsCredited entries links
resolve_inventor_links-IsCredited prisma [] s links h =
    let none = nil_links prisma s links h in
    record { no_repeat = refl; ids = rw none refl; ordered = λ k. rw none (ground arith) }
resolve_inventor_links-IsCredited prisma (e ∷ es) s links h =
    accepted-IsCredited prisma e es s links h
