-- ===== src/Catalog/Inventors.antt =====
-- src/services/inventorService.js. The order of a listing is the database's.
use smart_patents_storage_sy.Prelude.{
  ℕ, String, Bool, false, ◌&&◌, ◌||◌, not, Option, none, some, ◌==◌, ltb, str_eq, if◌then◌else◌,
  is_some,
}
use smart_patents_storage_sy.Prelude.Decimal.{◌&◌, decimal}
use smart_patents_storage_sy.Errors.{conflict, not_found, forbidden}
use smart_patents_storage_sy.Exec.{Exec, ok, err, pure, throw, gets, ◌>>=◌, ◌>>◌}
use smart_patents_storage_sy.Prisma.{Prisma, record_missing}
use smart_patents_storage_sy.Schema.{Inventor, PatentInventor}
use smart_patents_storage_sy.State.{State}
use smart_patents_storage_sy.Patents.Access.{Caller, is_admin}
use smart_patents_storage_sy.Patents.Review.{or_null}

-- Two nulls do not conflict.
abbrev pub same_id : Option ℕ → Option ℕ → Bool
same_id (some a) (some b) = a == b
same_id _ _ = false

-- `id`, `email` and `userId` are unique.
abbrev pub inventor_clash : Inventor → Inventor → Bool
inventor_clash a b = a.id == b.id || str_eq a.email b.email || same_id a.user_id b.user_id

pub record InventorInput : Type 0 where
  pub full_name : String
  pub email : String
  pub organization : Option String
  pub link_to_me : Bool

pub record InventorUpdates : Type 0 where
  pub full_name : Option String
  pub email : Option String
  pub organization : Option (Option String)

abbrev pub new_inventor : ℕ → InventorInput → Caller → ℕ → Inventor
new_inventor now i caller id = record {
  id = id;
  user_id = if i.link_to_me then some caller.user_id else none;
  full_name = i.full_name;
  email = i.email;
  organization = or_null i.organization;
  created_at = now;
}

abbrev or_old {ℓ} : {A : Type ℓ} → Option A → A → A
or_old none old = old
or_old (some new) old = new

abbrev pub with_updates : InventorUpdates → Inventor → Inventor
with_updates u i = record i {
  full_name = or_old u.full_name i.full_name;
  email = or_old u.email i.email;
  organization = or_old u.organization i.organization;
}

-- `updates.email && updates.email !== inventor.email`
abbrev new_email : Option String → String → Option String
new_email none old = none
new_email (some email) old = if str_eq email "" || str_eq email old then none else some email

abbrev pub is_linked_to : ℕ → Inventor → Bool
is_linked_to user_id i = same_id i.user_id (some user_id)

abbrev pub has_inventor_email : String → Inventor → Bool
has_inventor_email email i = str_eq i.email email

abbrev pub is_credit_of : ℕ → PatentInventor → Bool
is_credit_of id l = l.inventor_id == id

abbrev pub email_taken : String
email_taken = "An inventor with that email already exists"

module _ (prisma : Prisma) where
  abbrev find_inventor : (Inventor → Bool) → Exec State (Option Inventor)
  find_inventor p = gets (λ s. prisma.find_first p s.inventors)

  abbrev insert_inventor : (ℕ → Inventor) → Exec State Inventor
  insert_inventor mk s = elim (prisma.create inventor_clash mk s.inventors) [
    | ok (i, t) ↦ (ok i, record s { inventors = t })
    | err e ↦ (err e, s)
  ]

  abbrev when : {A : Type 0} → Bool → Exec State (Option A) → Exec State (Option A)
  when b m = if b then m else pure none

  unfoldable pub create_inventor : ℕ → InventorInput → Caller → Exec State Inventor
  create_inventor now input caller = do
    existing ← find_inventor (has_inventor_email input.email)
    if is_some existing then throw (conflict email_taken) else (do
      already_linked ← when input.link_to_me (find_inventor (is_linked_to caller.user_id))
      if is_some already_linked
          then throw (conflict "Your account is already linked to an inventor profile")
          else insert_inventor (new_inventor now input caller))

  unfoldable pub get_inventor_by_id : ℕ → Exec State Inventor
  get_inventor_by_id id = do
    inventor ← find_inventor (λ i. i.id == id)
    elim inventor [ none ↦ throw (not_found "Inventor not found") | some i ↦ pure i ]

  abbrev email_clash : Option String → Exec State (Option Inventor)
  email_clash none = pure none
  email_clash (some email) = find_inventor (has_inventor_email email)

  unfoldable pub update_inventor : ℕ → InventorUpdates → Caller → Exec State Inventor
  unfolding get_inventor_by_id
  update_inventor id updates caller = do
    inventor ← get_inventor_by_id id
    if not (is_admin caller) && not (is_linked_to caller.user_id inventor)
        then throw (forbidden "You can only edit an inventor profile linked to your account")
        else (do
          clash ← email_clash (new_email updates.email inventor.email)
          if is_some clash then throw (conflict email_taken) else λ s.
              elim (prisma.update inventor_clash (λ i. i.id == id) (with_updates updates)
                s.inventors) [
                  | ok (i, t) ↦ (ok i, record s { inventors = t })
                  | err e ↦ (err e, s)
                ])

  -- `inventor.delete`: the credits cascade.
  abbrev pub remove_inventor : ℕ → Exec State (Unit {0})
  remove_inventor id s =
      let (n, t) = prisma.delete_many (λ (i : Inventor). i.id == id) s.inventors in
      if n == 0 then (err record_missing, s) else (
        ok tt,
        record s {
          inventors = t;
          patent_inventors = (prisma.delete_many (is_credit_of id) s.patent_inventors).1;
        },
      )

  unfoldable pub delete_inventor : ℕ → Exec State (Unit {0})
  unfolding get_inventor_by_id
  delete_inventor id = do
    get_inventor_by_id id
    credited ← gets (λ s. prisma.count (is_credit_of id) s.patent_inventors)
    if ltb 0 credited
        then throw (
            conflict (
              "This inventor is credited on "
              & decimal credited
              & " patent(s) and cannot be deleted; detach them first"))
        else remove_inventor id
