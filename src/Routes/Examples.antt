-- ===== src/Routes/Examples.antt =====
-- Tests of the routes: a router that takes the first route of the method and the path.
use smart_patents_storage_sy.Prelude.{
  ◌≡◌, refl, Bool, true, ◌&&◌, some, List, [], ◌∷◌, All, find, str_eq, arith, subst, Bool-cases,
  inl, inr,
}
use smart_patents_storage_sy.Prelude.Decimal.{◌&◌}
use smart_patents_storage_sy.Schema.{Role}
use smart_patents_storage_sy.Patents.Access.{Caller}
use smart_patents_storage_sy.Middlewares.Auth.{bearer}
use smart_patents_storage_sy.Middlewares.Auth.Examples.{jwt}
use smart_patents_storage_sy.Routes.Entries.{Route, approve_patent}
use smart_patents_storage_sy.Routes.Table.{Request, Express, entered, enter}
use smart_patents_storage_sy.Routes.Guarded.{enter-allowed, allowed, IsVouched}

abbrev serves : Request → Route → Bool
serves q r = str_eq r.method q.method && str_eq r.path q.path

find-All :
    (P : Route → Type 0) (p : Route → Bool) (rs : List Route) (r : Route)
    → All P rs
    → find p rs ≡ some r
    → P r
find-All P p [] r h e = absurd (ground arith)
find-All P p (x ∷ xs) r (h, hs) e = elim (Bool-cases (p x)) [
  | inl here ↦ subst P (ground arith) h
  | inr there ↦ find-All P p xs r hs (ground arith)
]

abbrev by_path : Express
by_path = record {
  pick = λ rs q. find (serves q) rs;
  pick_lem = λ P rs q r h e. find-All P (serves q) rs r h e;
}

abbrev approval : Request
approval = record {
  method = "POST";
  path = "/patents/:id/approve";
  authorization = some (bearer & "a9");
  id = "42";
}

abbrev admin_nine : Caller
admin_nine = record { user_id = 9; role = Role.admin }

approves : enter jwt 200 by_path approval ≡ entered approve_patent (some admin_nine) "42"
unfolding enter
approves = refl

enter-allowed_example :
    (allowed approve_patent (some admin_nine) "42" ≡ true)
    × IsVouched jwt 200 (some (bearer & "a9")) (some admin_nine)
enter-allowed_example =
    enter-allowed jwt 200 by_path approval approve_patent (some admin_nine) "42" approves
