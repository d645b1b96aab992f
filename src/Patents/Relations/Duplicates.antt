-- ===== src/Patents/Relations/Duplicates.antt =====
-- `findDuplicates` finds nothing exactly when no value is repeated.
use smart_patents_storage_sy.Prelude.{
  ◌≡◌, refl, String, Bool, true, ◌&&◌, not, List, [], ◌∷◌, ◌++◌, str_eq, arith, eq_iff, any-append,
  Bool-cases, inl, inr,
}
use smart_patents_storage_sy.Patents.Relations.{duplicates_from, find_duplicates, has, not_empty}

-- No value of the list occurs again further on.
abbrev pub distinct : List String → Bool
distinct [] = true
distinct (v ∷ values) = not (has values v) && distinct values

-- No value of the list is among those seen before.
abbrev none_of : List String → List String → Bool
none_of seen [] = true
none_of seen (v ∷ values) = not (has seen v) && none_of seen values

none_of-append :
    (seen : List String) (v : String) (values : List String)
    → none_of (seen ++ v ∷ []) values ≡ (none_of seen values && not (has values v))
none_of-append seen v [] = refl
none_of-append seen v (w ∷ values) = ground (
  arith,
  none_of-append seen v values,
  any-append (str_eq w) seen (v ∷ []),
  eq_iff w v,
  eq_iff v w,
)

duplicates_from-grows :
    (seen : List String) (d : String) (ds values : List String)
    → not_empty (duplicates_from seen (d ∷ ds) values) ≡ true
unfolding duplicates_from
duplicates_from-grows seen d ds [] = refl
duplicates_from-grows seen d ds (v ∷ values) = elim (Bool-cases (has seen v)) [
  | inl old ↦ elim (Bool-cases (has (d ∷ ds) v)) [
    | inl again ↦ rw (old, again) (duplicates_from-grows seen d ds values)
    | inr new ↦ rw (old, new) (duplicates_from-grows seen d (ds ++ v ∷ []) values)
  ]
  | inr fresh ↦ rw fresh (duplicates_from-grows (seen ++ v ∷ []) d ds values)
]

duplicates_from-distinct :
    (seen values : List String)
    → not_empty (duplicates_from seen [] values) ≡ not (none_of seen values && distinct values)
unfolding duplicates_from
duplicates_from-distinct seen [] = refl
duplicates_from-distinct seen (v ∷ values) = elim (Bool-cases (has seen v)) [
  | inl old ↦ rw old (duplicates_from-grows seen v [] values)
  | inr fresh ↦ rw fresh (
      ground
        (arith, duplicates_from-distinct (seen ++ v ∷ []) values, none_of-append seen v values))
]

none_of-nil : (values : List String) → none_of [] values ≡ true
none_of-nil [] = refl
none_of-nil (v ∷ values) = none_of-nil values

-- The check for repeated ids refuses a list exactly when some id occurs twice in it.
pub find_duplicates-distinct :
    (values : List String) → not_empty (find_duplicates values) ≡ not (distinct values)
unfolding find_duplicates
find_duplicates-distinct values =
    ground (arith, duplicates_from-distinct [] values, none_of-nil values)
