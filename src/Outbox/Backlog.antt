-- ===== src/Outbox/Backlog.antt =====
-- Rows with distinct ids: the backlog of unpublished events, and the batch that is taken from it.
use smart_patents_storage_sy.Prelude.{
  ℕ, zero, suc, ◌+◌, ◌≡◌, refl, ◌∙◌, Bool, true, false, ◌&&◌, ◌||◌, not, none, some, List, [], ◌∷◌,
  map, ◌==◌, any, take, keep, length, change, is_some, find, all, arith, ltb, leb, Bool-cases, inl,
  inr, All, All-take, if◌then◌else◌,
}
use smart_patents_storage_sy.Prelude.Sort.{
  sort, insert, any-insert, any-sort, All-sort, length-sort,
}
use smart_patents_storage_sy.Prisma.{no_clash}
use smart_patents_storage_sy.Prisma.Unique.{at_key, no_clash-keep}
use smart_patents_storage_sy.State.{OutboxEvent, outbox_clash}
use smart_patents_storage_sy.Outbox.Defs.{Engine, claimable, next_batch, published_at_time}

abbrev pub unpublished : OutboxEvent → Bool
unpublished e = not (is_some e.published_at)

abbrev pub backlog : List OutboxEvent → ℕ
backlog rows = length (keep unpublished rows)

abbrev pub at_id : ℕ → OutboxEvent → Bool
at_id = at_key (λ (e : OutboxEvent). e.id)

abbrev pub HasUniqueIds : List OutboxEvent → Type 0
HasUniqueIds rows = no_clash outbox_clash rows ≡ true

-- The id finds an unpublished row.
abbrev pub IsPending : List OutboxEvent → OutboxEvent → Type 0
IsPending rows e = (r : OutboxEvent) × (find (at_id e.id) rows ≡ some r) × (r.published_at ≡ none)

keyed : (e f : OutboxEvent) → outbox_clash e f ≡ false → (e.id == f.id) ≡ false
keyed e f h = h

-- Publishing one row takes one event off the backlog.
backlog-untouched :
    (now id : ℕ) (rows : List OutboxEvent)
    → find (at_id id) rows ≡ none
    → backlog (map (change (at_id id) (published_at_time now)) rows) ≡ backlog rows
backlog-untouched now id [] h = refl
backlog-untouched now id (r ∷ rs) h = ground (arith, backlog-untouched now id rs)

no_clash-gone :
    (r : OutboxEvent) (rs : List OutboxEvent)
    → any (outbox_clash r) rs ≡ false
    → find (at_id r.id) rs ≡ none
no_clash-gone r [] h = refl
no_clash-gone r (x ∷ xs) h = ground (arith, no_clash-gone r xs)

pub backlog-published :
    (now id : ℕ) (rows : List OutboxEvent) (r : OutboxEvent)
    → HasUniqueIds rows
    → find (at_id id) rows ≡ some r
    → r.published_at ≡ none
    → backlog rows ≡ backlog (map (change (at_id id) (published_at_time now)) rows) + 1
backlog-published now id [] r u there unsent = ground arith
backlog-published now id (x ∷ xs) r u there unsent = elim (Bool-cases (x.id == id)) [
  | inl here ↦
      let same : x.id ≡ id = ground arith in
      let gone : find (at_id id) xs ≡ none = rw (← same) (no_clash-gone x xs (ground arith)) in
      let rest = backlog-untouched now id xs gone in
      let first : x.published_at ≡ none = ground arith in rw (here, first, rest) (omega arith)
  | inr other ↦
      let rest = backlog-published now id xs r (ground arith) (ground arith) unsent in ground arith
]

-- Every unpublished row is untouched by a claim and below the attempt limit.
abbrev pub is_ready : ℕ → OutboxEvent → Bool
is_ready max_attempts e =
    is_some e.published_at || not (is_some e.claimed_at) && ltb e.attempts max_attempts

abbrev pub IsReady : ℕ → List OutboxEvent → Type 0
IsReady max_attempts rows = all (is_ready max_attempts) rows ≡ true

found_behind :
    (x : OutboxEvent) (xs ys : List OutboxEvent)
    → any (outbox_clash x) ys ≡ false
    → All (λ e. find (at_id e.id) xs ≡ some e) ys
    → All (λ e. find (at_id e.id) (x ∷ xs) ≡ some e) ys
found_behind x xs [] h k = tt
found_behind x xs (y ∷ ys) h (k, ks) = (ground arith, found_behind x xs ys (ground arith) ks)

found :
    (rows : List OutboxEvent) → HasUniqueIds rows → All (λ e. find (at_id e.id) rows ≡ some e) rows
found [] u = tt
found (x ∷ xs) u = (ground arith, found_behind x xs xs (ground arith) (found xs (ground arith)))

keep-IsPending :
    (p : OutboxEvent → Bool) (rows ys : List OutboxEvent)
    → ((e : OutboxEvent) → p e ≡ true → e.published_at ≡ none)
    → All (λ e. find (at_id e.id) rows ≡ some e) ys
    → All (IsPending rows) (keep p ys)
keep-IsPending p rows [] unsent k = tt
keep-IsPending p rows (y ∷ ys) unsent (k, ks) = elim (Bool-cases (p y)) [
  | inl e ↦ rw e ((y, k, unsent y e), keep-IsPending p rows ys unsent ks)
  | inr e ↦ rw e (keep-IsPending p rows ys unsent ks)
]

any-take :
    (p : OutboxEvent → Bool) (n : ℕ) (xs : List OutboxEvent)
    → any p xs ≡ false
    → any p (take n xs) ≡ false
any-take p zero xs h = refl
any-take p (suc n) [] h = refl
any-take p (suc n) (x ∷ xs) h = ground (arith, any-take p n xs)

no_clash-take : (n : ℕ) (xs : List OutboxEvent) → HasUniqueIds xs → HasUniqueIds (take n xs)
no_clash-take zero xs u = refl
no_clash-take (suc n) [] u = refl
no_clash-take (suc n) (x ∷ xs) u =
    ground (arith, no_clash-take n xs, any-take (outbox_clash x) n xs)

no_clash-insert :
    (le : OutboxEvent → OutboxEvent → Bool) (x : OutboxEvent) (ys : List OutboxEvent)
    → HasUniqueIds (x ∷ ys)
    → HasUniqueIds (insert le x ys)
unfolding insert
no_clash-insert le x [] u = refl
no_clash-insert le x (y ∷ ys) u =
    ground (arith, no_clash-insert le x ys, any-insert le (outbox_clash y) x ys)

no_clash-sort :
    (le : OutboxEvent → OutboxEvent → Bool) (xs : List OutboxEvent)
    → HasUniqueIds xs
    → HasUniqueIds (sort le xs)
unfolding sort
no_clash-sort le [] u = refl
no_clash-sort le (x ∷ xs) u =
    no_clash-insert le x (sort le xs)
      (ground (arith, no_clash-sort le xs, any-sort le (outbox_clash x) xs))

length-take :
    (n : ℕ) (xs : List OutboxEvent)
    → length (take n xs) ≡ (if leb n (length xs) then n else length xs)
length-take zero xs = ground arith
length-take (suc n) [] = ground arith
length-take (suc n) (x ∷ xs) = ground (arith, length-take n xs)

module _ (engine : Engine) (unlocked : (e : OutboxEvent) → engine.locked e ≡ false)
    (max_attempts now : ℕ) where
  keep_ready :
      (rows : List OutboxEvent)
      → IsReady max_attempts rows
      → keep (λ e. claimable max_attempts now e && not (engine.locked e)) rows
        ≡ keep unpublished rows
  keep_ready [] h = refl
  keep_ready (r ∷ rs) h = ground (arith, keep_ready rs, unlocked r)

  module _ (batch_size : ℕ) (rows : List OutboxEvent) (u : HasUniqueIds rows) where
    pub next_batch_unique : HasUniqueIds (next_batch engine max_attempts now batch_size rows)
    unfolding next_batch
    next_batch_unique =
        no_clash-take batch_size _
          (no_clash-sort (λ a b. leb a.id b.id) _ (no_clash-keep outbox_clash _ rows u))

    pub next_batch-IsPending :
        All (IsPending rows) (next_batch engine max_attempts now batch_size rows)
    unfolding next_batch
    next_batch-IsPending = All-take _ batch_size _ (
        All-sort (λ a b. leb a.id b.id) _ _
          (keep-IsPending _ rows rows (λ e h. ground arith) (found rows u)))

    pub length-next_batch :
        IsReady max_attempts rows
        → length (next_batch engine max_attempts now batch_size rows)
          ≡ (if leb batch_size (backlog rows) then batch_size else backlog rows)
    unfolding next_batch
    length-next_batch ready =
        let ordered =
          length-sort (λ a b. leb a.id b.id)
            (keep (λ e. claimable max_attempts now e && not (engine.locked e)) rows) in
        length-take batch_size _ ∙ rw (ordered, keep_ready rows ready) refl
