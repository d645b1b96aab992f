-- ===== src/Exec.antt =====
-- Asynchronous functions that read and write shared state and may throw. What was written before a
-- throw stays written, unless a transaction rolls it back.
use smart_patents_storage_sy.Prelude.{◌≡◌, refl, Bool, true, false}
use smart_patents_storage_sy.Errors.{Error}

pub data Result {ℓ} (A : Type ℓ) : Type ℓ where
  ok : A → Result A
  err : Error → Result A

abbrev pub is_ok {ℓ} : {A : Type ℓ} → Result A → Bool
is_ok (ok _) = true
is_ok (err _) = false

abbrev pub Exec {ℓ} : Type ℓ → Type ℓ → Type ℓ
Exec S A = S → Result A × S

module _ {ℓ} {S A : Type ℓ} where
  abbrev pub pure : A → Exec S A
  pure a s = (ok a, s)

  abbrev pub throw : Error → Exec S A
  throw e s = (err e, s)

  abbrev pub gets : (S → A) → Exec S A
  gets f s = (ok (f s), s)

  abbrev pub lift : Result A → Exec S A
  lift r s = (r, s)

  abbrev pub roll_back : Result A → S → S → Result A × S
  roll_back (ok a) t s = (ok a, t)
  roll_back (err e) t s = (err e, s)

  -- `prisma.$transaction`: a throw undoes what the body has written.
  abbrev pub transaction : Exec S A → Exec S A
  transaction m s = roll_back (m s).0 (m s).1 s

module _ {ℓ} {S A B : Type ℓ} where
  abbrev pub continue : Result A → (A → Exec S B) → Exec S B
  continue (ok a) f s = f a s
  continue (err e) f s = (err e, s)

  infixl 5 ◌>>=◌ ◌>>◌
  abbrev pub ◌>>=◌ : Exec S A → (A → Exec S B) → Exec S B
  ◌>>=◌ m f s = continue (m s).0 f (m s).1

  abbrev pub ◌>>◌ : Exec S A → Exec S B → Exec S B
  m >> n = m >>= λ _. n

  continue-eq-ok :
      (m : Exec S A) (f : A → Exec S B) (s : S) (b : B) (x : Result A × S)
      → m s ≡ x
      → (continue x.0 f x.1).0 ≡ ok b
      → (a : A) × (t : S) × (m s ≡ (ok a, t)) × ((f a t).0 ≡ ok b)
  continue-eq-ok m f s b (ok a, t) e h = (a, t, e, h)
  continue-eq-ok m f s b (err e', t) e h = cc

  -- A block that returns has run its first action to the end.
  pub >>=-eq-ok :
      (m : Exec S A) (f : A → Exec S B) (s : S) (b : B)
      → ((m >>= f) s).0 ≡ ok b
      → (a : A) × (t : S) × (m s ≡ (ok a, t)) × ((f a t).0 ≡ ok b)
  >>=-eq-ok m f s b h = continue-eq-ok m f s b (m s) refl h

module _ {ℓ κ} {S A : Type ℓ} (P : S → Type κ) where
  roll_back_keeps :
      (r : Result A) (t s : S) → P s → ((a : A) → r ≡ ok a → P t) → P (roll_back r t s).1
  roll_back_keeps (ok a) t s h k = k a refl
  roll_back_keeps (err e) t s h k = h

  -- What holds before a transaction holds after it, if it does where the body returns.
  pub transaction_keeps :
      (m : Exec S A) (s : S) → P s → ((a : A) → (m s).0 ≡ ok a → P (m s).1) → P (transaction m s).1
  transaction_keeps m s h k = roll_back_keeps (m s).0 (m s).1 s h k
