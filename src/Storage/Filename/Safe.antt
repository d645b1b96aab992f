-- ===== src/Storage/Filename/Safe.antt =====
-- What a sanitised file name looks like.
use Prim.Native.Char.{code}
use smart_patents_storage_sy.Prelude.{
  ℕ, suc, zero, ◌≤◌, ◌≡◌, refl, String, Bool, true, false, ◌&&◌, not, str_eq, ltb, ◌==◌, arith,
  Bool-cases, inl, inr, ◌⊎◌,
}
use smart_patents_storage_sy.Storage.Filename.{
  allowed, clean, drop_dots, slice, or_document, sanitise_filename, dot, basename,
}

-- Every character is allowed in a file name.
abbrev pub all_allowed : String → Bool
all_allowed String.[] = true
all_allowed (String.◌∷◌ c s) = allowed c && all_allowed s

-- The text has a first character, which is not a dot.
abbrev pub starts_well : String → Bool
starts_well String.[] = false
starts_well (String.◌∷◌ c s) = not (code c == dot)

abbrev pub size : String → ℕ
size String.[] = 0
size (String.◌∷◌ c s) = suc (size s)

clean-allowed : (s : String) → all_allowed (clean s) ≡ true
unfolding clean
clean-allowed String.[] = refl
clean-allowed (String.◌∷◌ c s) = elim (Bool-cases (allowed c)) [
  | inl fine ↦ rw (fine) (ground (arith, clean-allowed s))
  | inr bad ↦ elim (Bool-cases (ltb 65535 (code c))) [
    | inl wide ↦ rw (bad, wide) (clean-allowed s)
    | inr narrow ↦ rw (bad, narrow) (clean-allowed s)
  ]
]

drop_dots-allowed : (s : String) → all_allowed s ≡ true → all_allowed (drop_dots s) ≡ true
unfolding drop_dots
drop_dots-allowed String.[] h = refl
drop_dots-allowed (String.◌∷◌ c s) h = ground (arith, drop_dots-allowed s)

drop_dots-start : (s : String) → (drop_dots s ≡ "") ⊎ (starts_well (drop_dots s) ≡ true)
unfolding drop_dots
drop_dots-start String.[] = inl refl
drop_dots-start (String.◌∷◌ c s) = elim (Bool-cases (code c == dot)) [
  | inl is_dot ↦ rw is_dot (drop_dots-start s)
  | inr other ↦ rw other (inr (rw other refl))
]

slice-allowed : (n : ℕ) (s : String) → all_allowed s ≡ true → all_allowed (slice n s) ≡ true
unfolding slice
slice-allowed zero s h = refl
slice-allowed (suc n) String.[] h = refl
slice-allowed (suc n) (String.◌∷◌ c s) h = ground (arith, slice-allowed n s)

size-slice : (n : ℕ) (s : String) → size (slice n s) ≤ n
unfolding slice
size-slice zero s = omega arith
size-slice (suc n) String.[] = omega arith
size-slice (suc n) (String.◌∷◌ c s) = omega (arith, size-slice n s)

slice-start : (n : ℕ) (s : String) → starts_well s ≡ true → starts_well (slice (suc n) s) ≡ true
unfolding slice
slice-start n String.[] h = h
slice-start n (String.◌∷◌ c s) h = h

-- The last part of an object key: 1 to 120 characters that are allowed, the first no dot.
pub record IsSafe (name : String) : Type 0 where
  pub characters : all_allowed name ≡ true
  pub start : starts_well name ≡ true
  pub short : size name ≤ 120

or_document-allowed : (s : String) → all_allowed s ≡ true → all_allowed (or_document s) ≡ true
or_document-allowed s h = elim (Bool-cases (str_eq s "")) [ inl e ↦ rw e refl | inr e ↦ rw e h ]

or_document-start :
    (s : String) → (s ≡ "") ⊎ (starts_well s ≡ true) → starts_well (or_document s) ≡ true
or_document-start s (inl e) = rw e refl
or_document-start s (inr h) = elim (Bool-cases (str_eq s "")) [ inl e ↦ rw e refl | inr e ↦ rw e h ]

-- Whatever file name a client sends, the name in the object key has 1 to 120 characters, each a
-- letter, a digit, a dot, an underscore or a dash, and does not begin with a dot.
pub sanitise_filename-IsSafe : (filename : String) → IsSafe (sanitise_filename filename)
unfolding sanitise_filename
sanitise_filename-IsSafe filename =
    let dotted = clean (basename (or_document filename)) in
    let name = or_document (drop_dots dotted) in
    record {
      characters = slice-allowed 120 name (
          or_document-allowed (drop_dots dotted)
            (drop_dots-allowed dotted (clean-allowed (basename (or_document filename)))));
      start = slice-start 119 name (or_document-start (drop_dots dotted) (drop_dots-start dotted));
      short = size-slice 120 name;
    }
