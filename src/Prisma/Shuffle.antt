-- ===== src/Prisma/Shuffle.antt =====
-- What a reordering of a list keeps.
use smart_patents_storage_sy.Prelude.{
  ◌≡◌, refl, ap, ◌∙◌, subst, Bool, List, ◌∷◌, arith, All, length, any,
}
use mathlib.Core.List.{Permᴰ}
use smart_patents_storage_sy.Prisma.Rows.{no_clash}

module _ {ℓ} {A : Type ℓ} where
  pub All-shuffle {κ} : (P : A → Type κ) {l r : List A} → Permᴰ l r → All P l → All P r
  All-shuffle P Permᴰ.nil h = tt
  All-shuffle P (Permᴰ.cons e d) (p, h) = (subst P e p, All-shuffle P d h)
  All-shuffle P (Permᴰ.swap e f) (p, (q, h)) = (subst P f q, (subst P e p, h))
  All-shuffle P (Permᴰ.trans d e) h = All-shuffle P e (All-shuffle P d h)

  pub any-shuffle : (p : A → Bool) {l r : List A} → Permᴰ l r → any p l ≡ any p r
  any-shuffle p Permᴰ.nil = refl
  any-shuffle p (Permᴰ.cons e d) = rw (e, any-shuffle p d) refl
  any-shuffle p (Permᴰ.swap e f) = rw (e, f) (ground arith)
  any-shuffle p (Permᴰ.trans d e) = any-shuffle p d ∙ any-shuffle p e

  pub length-shuffle : {l r : List A} → Permᴰ l r → length l ≡ length r
  length-shuffle Permᴰ.nil = refl
  length-shuffle (Permᴰ.cons e d) = omega (arith, length-shuffle d)
  length-shuffle (Permᴰ.swap e f) = refl
  length-shuffle (Permᴰ.trans d e) = length-shuffle d ∙ length-shuffle e

module _ {A : Type 0} where
  no_clash-swap :
      (clash : A → A → Bool)
      → ((x y : A) → clash x y ≡ clash y x)
      → (a b : A) (l : List A) → no_clash clash (a ∷ b ∷ l) ≡ no_clash clash (b ∷ a ∷ l)
  no_clash-swap clash both a b l = let same = both a b in ground arith

  -- A constraint that is symmetric does not see the order of the rows.
  pub no_clash-shuffle :
      (clash : A → A → Bool)
      → ((x y : A) → clash x y ≡ clash y x)
      → {l r : List A} → Permᴰ l r
      → no_clash clash l ≡ no_clash clash r
  no_clash-shuffle clash both Permᴰ.nil = refl
  no_clash-shuffle clash both (Permᴰ.cons {a = a} {b = b} e d) =
      rw (e, any-shuffle (clash b) d, no_clash-shuffle clash both d) refl
  no_clash-shuffle clash both (Permᴰ.swap {b = b} {a' = a'} {b' = b'} {l = l} e f) =
      ap (λ x. no_clash clash (x ∷ b ∷ l)) e
      ∙ ap (λ y. no_clash clash (b' ∷ y ∷ l)) f
      ∙ no_clash-swap clash both b' a' l
  no_clash-shuffle clash both (Permᴰ.trans d e) =
      no_clash-shuffle clash both d ∙ no_clash-shuffle clash both e
