-- ===== src/Middlewares/Examples.antt =====
-- Tests of the replay protection: a handler that counts its runs.
use smart_patents_storage_sy.Prelude.{ℕ, ◌+◌, ◌≡◌, refl, true, false, some, []}
use smart_patents_storage_sy.Errors.{conflict}
use smart_patents_storage_sy.Exec.{Exec, ok, err}
use smart_patents_storage_sy.Prisma.{Table}
use smart_patents_storage_sy.Prisma.Memory.{memory}
use smart_patents_storage_sy.Middlewares.ErrorHandler.{Response, send_success, error_handler}
use smart_patents_storage_sy.Middlewares.Idempotency.{
  Request, IdempotencyKey, granted, refused, admit, serve, reserve, text_length, is_success,
}
use smart_patents_storage_sy.Middlewares.Idempotency.Replays.{
  admit-in_flight, serve-replays, serve-releases,
}
use smart_patents_storage_sy.Samples.{no_rows}

abbrev post : Request
post = record {
  key = some "k";
  user_id = some 5;
  endpoint = "POST /patents";
  request_hash = "hash";
}

abbrev no_keys : Table IdempotencyKey
no_keys = no_rows

abbrev counting : Exec ℕ Response
counting n = (ok (send_success 201 "{}"), n + 1)

abbrev failing : Exec ℕ Response
failing n = (err (conflict "no"), n)

free : (admit memory post no_keys).0 ≡ granted 5 "k"
unfolding admit text_length reserve
free = refl

answered : is_success memory (serve memory counting post (no_keys, 0)).0 ≡ true
unfolding serve admit text_length reserve
answered = refl

refused_once : is_success memory (serve memory failing post (no_keys, 0)).0 ≡ false
unfolding serve admit text_length reserve error_handler
refused_once = refl

admit-in_flight_example : admit memory post (admit memory post no_keys).1 ≡ (
  refused (conflict "A request with this Idempotency-Key is still in progress; retry shortly"),
  (admit memory post no_keys).1,
)
admit-in_flight_example = admit-in_flight memory post post 5 "k" no_keys free refl refl refl

serve-replays_example :
    serve memory counting post (serve memory counting post (no_keys, 0)).1
    ≡ serve memory counting post (no_keys, 0)
serve-replays_example =
    serve-replays memory counting post counting 5 "k" no_keys 0 refl free answered

serve-releases_example : (serve memory failing post (no_keys, 0)).1.0.rows ≡ []
serve-releases_example = serve-releases memory failing post 5 "k" no_keys 0 free refused_once
