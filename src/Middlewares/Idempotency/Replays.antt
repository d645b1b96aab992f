-- ===== src/Middlewares/Idempotency/Replays.antt =====
-- What a repeated request gets: while the first one runs, after it succeeded, after it failed.
use smart_patents_storage_sy.Prelude.{
  ℕ, ◌≡◌, refl, ◌∙◌, String, Bool, true, false, not, Option, none, some, List, [], ◌∷◌, ◌++◌, map,
  str_eq, keep, any, find, change, arith, if◌then◌else◌, inl, inr, any-append, Option-cases, eq_iff,
}
use smart_patents_storage_sy.Errors.{conflict}
use smart_patents_storage_sy.Exec.{Exec}
use smart_patents_storage_sy.Prisma.{Prisma, Table, no_clash}
use smart_patents_storage_sy.Prisma.Unique.{no_clash-append}
use smart_patents_storage_sy.Middlewares.ErrorHandler.{Response}
use smart_patents_storage_sy.Middlewares.Idempotency.{
  Request, IdempotencyKey, key_clash, reservation, is_key, granted, refused, with_outcome,
  on_existing, reserve, admit, settle_key, serve, is_success, answer,
}

module _ (user_id : ℕ) (key : String) (r : Request) where
  abbrev free : List IdempotencyKey → Bool
  free rows = any (is_key user_id key r) rows

  -- the new row, and the table after the insert
  abbrev new : IdempotencyKey
  new = reservation user_id key r 0

  self : is_key user_id key r new ≡ true
  self = ground (arith, eq_iff r.endpoint r.endpoint, eq_iff key key)

  recorded_rows :
      (f : IdempotencyKey → IdempotencyKey) (rows : List IdempotencyKey)
      → free rows ≡ false
      → map (change (is_key user_id key r) f) (rows ++ new ∷ []) ≡ rows ++ f new ∷ []
  recorded_rows f [] h = rw self refl
  recorded_rows f (x ∷ xs) h = ground (arith, recorded_rows f xs)

  released_rows :
      (rows : List IdempotencyKey)
      → free rows ≡ false
      → keep (λ row. not (is_key user_id key r row)) (rows ++ new ∷ []) ≡ rows
  released_rows [] h = rw self refl
  released_rows (x ∷ xs) h = ground (arith, released_rows xs)

  found :
      (row : IdempotencyKey) (rows : List IdempotencyKey)
      → free rows ≡ false
      → is_key user_id key r row ≡ true
      → find (is_key user_id key r) (rows ++ row ∷ []) ≡ some row
  found row [] h k = rw k refl
  found row (x ∷ xs) h k = ground (arith, found row xs)

module _ (prisma : Prisma) (r : Request) where
  existing :
      (user_id : ℕ) (key : String) (o : Option IdempotencyKey)
      → on_existing r o ≡ granted user_id key
      → ⊥
  unfolding on_existing
  existing user_id key none h = ground arith
  existing user_id key (some row) h = ground arith

  reserved :
      (u user_id : ℕ) (k key : String) (keys : Table IdempotencyKey)
      → (reserve prisma u k r keys).0 ≡ granted user_id key
      → (u ≡ user_id)
        × (k ≡ key)
        × (any (is_key u k r) keys.rows ≡ false)
        × ((reserve prisma u k r keys).1.rows ≡ keys.rows ++ reservation u k r 0 ∷ [])
  unfolding reserve
  reserved u user_id k key keys h =
      let made = prisma.create_lem key_clash (reservation u k r) keys in
      let old = existing user_id key (prisma.find_first (is_key u k r) keys) in ground arith

  record Granted (user_id : ℕ) (key : String) (keys : Table IdempotencyKey) : Type 0 where
    pub free : any (is_key user_id key r) keys.rows ≡ false
    pub rows : (admit prisma r keys).1.rows ≡ keys.rows ++ reservation user_id key r 0 ∷ []
    pub via :
        (again : Request) (t : Table IdempotencyKey)
        → again.key ≡ r.key
        → again.user_id ≡ r.user_id
        → admit prisma again t ≡ reserve prisma user_id key again t

  admit-Granted :
      (user_id : ℕ) (key : String) (keys : Table IdempotencyKey)
      → (admit prisma r keys).0 ≡ granted user_id key
      → Granted user_id key keys
  unfolding admit
  admit-Granted user_id key keys h = elim (Option-cases r.key) [
    | inl none_given ↦ absurd (ground arith)
    | inr (k, given) ↦ elim (Option-cases r.user_id) [
      | inl anonymous ↦ absurd (ground arith)
      | inr (u, known_user) ↦
          let (same_user, same_key, free_rows, new_rows) =
            reserved u user_id k key keys (ground arith) in
          record { free = ground arith; rows = ground arith; via = λ again t ks us. ground arith }
    ]
  ]

  -- an attempt to reserve a key that has a row
  reserve_of_taken :
      (user_id : ℕ) (key : String) (row : IdempotencyKey) (rows : List IdempotencyKey)
      (t : Table IdempotencyKey)
      → t.rows ≡ rows ++ row ∷ []
      → any (is_key user_id key r) rows ≡ false
      → is_key user_id key r row ≡ true
      → reserve prisma user_id key r t ≡ (on_existing r (some row), t)
  unfolding reserve
  reserve_of_taken user_id key row rows t is free k =
      let made = prisma.create_lem key_clash (reservation user_id key r) t in
      let read = prisma.find_first_lem (is_key user_id key r) t in
      let there = found user_id key r row rows free k in
      let some_row = any-append (is_key user_id key r) rows (row ∷ []) in ground arith

module _ (prisma : Prisma) (r : Request) where
  -- A retry that meets the first request still running is refused with a 409, and so is another body
  -- under the same key; the handler of neither runs.
  pub admit-in_flight :
      (again : Request) (user_id : ℕ) (key : String) (keys : Table IdempotencyKey)
      → (admit prisma r keys).0 ≡ granted user_id key
      → again.key ≡ r.key
      → again.user_id ≡ r.user_id
      → again.endpoint ≡ r.endpoint
      → admit prisma again (admit prisma r keys).1 ≡ (
        refused (
            if str_eq r.request_hash again.request_hash
            then conflict "A request with this Idempotency-Key is still in progress; retry shortly"
            else conflict "This Idempotency-Key was already used with a different request body"),
        (admit prisma r keys).1,
      )
  unfolding on_existing
  admit-in_flight again user_id key keys h k u e =
      let g = admit-Granted prisma r user_id key keys h in
      let t = (admit prisma r keys).1 in
      let free : any (is_key user_id key again) keys.rows ≡ false = rw e (g.free) in
      let there : is_key user_id key again (reservation user_id key r 0) ≡ true =
        rw e (self user_id key r) in
      let taken =
        reserve_of_taken prisma again user_id key (reservation user_id key r 0) keys.rows t g.rows
          free there in
      g.via again t k u ∙ taken ∙ ground arith

  settled_rows :
      (user_id : ℕ) (key : String) (keys : Table IdempotencyKey) (response : Response)
      → no_clash key_clash keys.rows ≡ true
      → (admit prisma r keys).0 ≡ granted user_id key
      → is_success prisma response ≡ true
      → (settle_key prisma user_id key r response (admit prisma r keys).1).rows
        ≡ keys.rows ++ with_outcome response (reservation user_id key r 0) ∷ []
  unfolding settle_key
  settled_rows user_id key keys response unique h good =
      let g = admit-Granted prisma r user_id key keys h in
      let t = (admit prisma r keys).1 in
      let there = self user_id key r in
      let one = found user_id key r (reservation user_id key r 0) keys.rows g.free there in
      let written = prisma.update_lem key_clash (is_key user_id key r) (with_outcome response) t in
      let rows = recorded_rows user_id key r (with_outcome response) keys.rows g.free in
      let room =
        no_clash-append key_clash keys.rows (with_outcome response (reservation user_id key r 0))
          unique g.free in
      let is = g.rows in ground arith

module _ (prisma : Prisma) {S : Type 0} (handler : Exec S Response) (r : Request) where
  -- Once a request with a key has been answered with a 2xx, the same request again gets that response
  -- and runs no handler: neither the keys nor the other tables change.
  pub serve-replays :
      (again : Exec S Response) (user_id : ℕ) (key : String) (keys : Table IdempotencyKey) (s : S)
      → no_clash key_clash keys.rows ≡ true
      → (admit prisma r keys).0 ≡ granted user_id key
      → is_success prisma (serve prisma handler r (keys, s)).0 ≡ true
      → serve prisma again r (serve prisma handler r (keys, s)).1 ≡ serve prisma handler r (keys, s)
  unfolding serve on_existing
  serve-replays again user_id key keys s unique h good =
      let g = admit-Granted prisma r user_id key keys h in
      let response = answer (handler s).0 in
      let fine : is_success prisma response ≡ true = ground arith in
      let t = settle_key prisma user_id key r response (admit prisma r keys).1 in
      let settled = settled_rows prisma r user_id key keys response unique h fine in
      let taken =
        reserve_of_taken prisma r user_id key (with_outcome response (reservation user_id key r 0))
          keys.rows t settled g.free (self user_id key r) in
      let second = g.via r t refl refl in ground (arith, eq_iff r.request_hash r.request_hash)

  -- A request with a key that is not answered with a 2xx leaves the keys as they were, so that it can
  -- be sent again.
  pub serve-releases :
      (user_id : ℕ) (key : String) (keys : Table IdempotencyKey) (s : S)
      → (admit prisma r keys).0 ≡ granted user_id key
      → is_success prisma (serve prisma handler r (keys, s)).0 ≡ false
      → (serve prisma handler r (keys, s)).1.0.rows ≡ keys.rows
  unfolding serve settle_key
  serve-releases user_id key keys s h bad =
      let g = admit-Granted prisma r user_id key keys h in
      let gone = prisma.delete_many_lem (is_key user_id key r) (admit prisma r keys).1 in
      let left = released_rows user_id key r keys.rows g.free in let is = g.rows in ground arith
