-- ===== src/Patents/Listing/Newest.antt =====
-- An order that the database may take for a listing: insertion by `newest_first`.
use smart_patents_storage_sy.Prelude.{
  ◌≡◌, refl, true, List, [], ◌∷◌, arith, All, Bool-cases, inl, inr,
}
use smart_patents_storage_sy.Prelude.Sort.{sort, insert, All-insert}
use mathlib.Core.List.{Permᴰ}
use mathlib.Core.List.Permᴰ
use smart_patents_storage_sy.Prisma.Ordered.{OrderBy, IsOrdered}
use smart_patents_storage_sy.Schema.{Patent}
use smart_patents_storage_sy.Patents.Listing.{newest_first}

insert-rows : (p : Patent) (ps : List Patent) → Permᴰ (insert newest_first p ps) (p ∷ ps)
unfolding insert
insert-rows p [] = Permᴰ.refl (p ∷ [])
insert-rows p (q ∷ qs) = elim (Bool-cases (newest_first p q)) [
  | inl newer ↦ rw newer (Permᴰ.refl (p ∷ q ∷ qs))
  | inr older ↦ rw older (Permᴰ.trans (Permᴰ.cons refl (insert-rows p qs)) (Permᴰ.swap refl refl))
]

pub sort-rows : (ps : List Patent) → Permᴰ (sort newest_first ps) ps
unfolding sort
sort-rows [] = Permᴰ.nil
sort-rows (p ∷ ps) =
    Permᴰ.trans (insert-rows p (sort newest_first ps)) (Permᴰ.cons refl (sort-rows ps))

newer_than_rest :
    (p q : Patent) (ps : List Patent)
    → newest_first p q ≡ true
    → All (λ r. newest_first q r ≡ true) ps
    → All (λ r. newest_first p r ≡ true) ps
newer_than_rest p q [] h k = tt
newer_than_rest p q (r ∷ rs) h (k, ks) = (ground arith, newer_than_rest p q rs h ks)

insert-IsOrdered :
    (p : Patent) (ps : List Patent)
    → IsOrdered newest_first ps
    → IsOrdered newest_first (insert newest_first p ps)
unfolding insert
insert-IsOrdered p [] h = (tt, tt)
insert-IsOrdered p (q ∷ qs) (below, h) = elim (Bool-cases (newest_first p q)) [
  | inl newer ↦ rw newer ((newer, newer_than_rest p q qs newer below), (below, h))
  | inr older ↦
      let turned : newest_first q p ≡ true = ground arith in
      rw older (
        All-insert newest_first (λ r. newest_first q r ≡ true) p qs turned below,
        insert-IsOrdered p qs h,
      )
]

pub sort-IsOrdered : (ps : List Patent) → IsOrdered newest_first (sort newest_first ps)
unfolding sort
sort-IsOrdered [] = tt
sort-IsOrdered (p ∷ ps) = insert-IsOrdered p (sort newest_first ps) (sort-IsOrdered ps)

abbrev pub by_insertion : OrderBy newest_first
by_insertion = record {
  listed = sort newest_first;
  listed_rows = sort-rows;
  listed_in_order = sort-IsOrdered;
}
