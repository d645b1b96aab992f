-- ===== src/Prisma/Rows.antt =====
-- The rows of a table before and after a write of the database client: what the laws of the
-- interface speak of.
use smart_patents_storage_sy.Prelude.{
  ℕ, ◌+◌, Bool, true, ◌&&◌, not, none, some, List, [], ◌∷◌, ◌++◌, map, if◌then◌else◌, find, keep,
  any, length, change,
}
use smart_patents_storage_sy.Errors.{Error, known}
use smart_patents_storage_sy.Exec.{Result, ok, err}

pub record Table (R : Type 0) : Type 0 where
  pub next : ℕ
  pub rows : List R

-- The codes of `PrismaClientKnownRequestError` that the services meet.
abbrev pub unique_violation : Error
unique_violation = known "P2002"

abbrev pub record_missing : Error
record_missing = known "P2025"

module _ {R : Type 0} where
  -- No two rows conflict.
  abbrev pub no_clash : (R → R → Bool) → List R → Bool
  no_clash clash [] = true
  no_clash clash (x ∷ xs) = not (any (clash x) xs) && no_clash clash xs

  abbrev pub created : (R → R → Bool) → (ℕ → R) → Table R → Result (R × Table R)
  created clash mk t =
      if any (λ r. clash r (mk t.next)) t.rows
      then err unique_violation
      else ok (mk t.next, record { next = t.next + 1; rows = t.rows ++ mk t.next ∷ [] })

  abbrev pub updated_many : (R → R → Bool) → (R → Bool) → (R → R) → Table R → Result (ℕ × Table R)
  updated_many clash p f t =
      if no_clash clash (map (change p f) t.rows)
      then ok (length (keep p t.rows), record t { rows = map (change p f) t.rows })
      else err unique_violation

  abbrev pub updated_one : (R → R → Bool) → (R → Bool) → (R → R) → Table R → Result (R × Table R)
  updated_one clash p f t = elim (find p t.rows) [
    | none ↦ err record_missing
    | some r ↦
        if no_clash clash (map (change p f) t.rows)
        then ok (f r, record t { rows = map (change p f) t.rows })
        else err unique_violation
  ]

  abbrev pub created_many : (R → R → Bool) → List R → Table R → Result (Table R)
  created_many clash new t =
      if no_clash clash (t.rows ++ new)
      then ok (record t { rows = t.rows ++ new })
      else err unique_violation
