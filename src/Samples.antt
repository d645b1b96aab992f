-- ===== src/Samples.antt =====
-- Concrete data for the tests: a configuration, a patent, the states it goes through, brokers.
use mathlib.Core.List.Permᴰ
use smart_patents_storage_sy.Prelude.{
  ℕ, ◌≡◌, true, false, none, some, List, [], ◌∷◌, ◌++◌, refl, inl, inr, Option, arith,
}
use smart_patents_storage_sy.Errors.{Error, other}
use smart_patents_storage_sy.Exec.{ok, err}
use smart_patents_storage_sy.Prisma.{Table}
use smart_patents_storage_sy.Schema.{Role, PatentStatus, Patent, User, RefreshToken, Inventor}
use smart_patents_storage_sy.State.{State, OutboxEvent}
use smart_patents_storage_sy.Events.{withdrawn}
use smart_patents_storage_sy.Storage.{Config, ObjectStorage, missing, present}
use smart_patents_storage_sy.Outbox.Defs.{Engine}
use smart_patents_storage_sy.Outbox.Relay.{Message, Broker, World, Pass}
use smart_patents_storage_sy.Patents.Access.{Caller}
use smart_patents_storage_sy.Patents.Review.{Moment}
use smart_patents_storage_sy.Patents.Editing.{CreateInput}
use smart_patents_storage_sy.Users.Crypto.{Crypto, Draw}

abbrev pub config : Config
config = record {
  max_upload_bytes = 26214400;
  upload_url_ttl_seconds = 900;
  download_url_ttl_seconds = 300;
  allowed_upload_types = "application/pdf" ∷ [];
  outbox_batch_size = 2;
  outbox_max_attempts = 10;
  refresh_token_ttl_days = 7;
}

abbrev pub no_rows : {R : Type 0} → Table R
no_rows = record { next = 1; rows = [] }

abbrev pub empty_state : State
empty_state = record {
  users = no_rows;
  refresh_tokens = no_rows;
  patents = no_rows;
  patent_reviews = no_rows;
  inventors = no_rows;
  patent_inventors = no_rows;
  categories = no_rows;
  patent_categories = no_rows;
  outbox = no_rows;
  bucket = [];
}

abbrev pub moment : Moment
moment = record { now = 100; uuid = "u" }

abbrev pub ada : User
ada = record {
  id = 5;
  name = "Ada";
  email = "ada@x";
  password_hash = "h";
  role = Role.user;
  created_by = none;
  created_at = 1;
}

abbrev pub owner : Caller
owner = record { user_id = 5; role = Role.user }

abbrev pub boss : Caller
boss = record { user_id = 9; role = Role.admin }

abbrev pub input : CreateInput
input = record {
  title = "T";
  abstract = "A";
  specification = "S";
  document_key = "patents/5/a";
  publication_number = none;
  jurisdiction = none;
  category_ids = [];
  inventors = [];
}

abbrev pub patent_with : PatentStatus → Patent
patent_with status = record {
  id = 1;
  title = "T";
  abstract = "A";
  specification = "S";
  document_key = some "patents/5/a";
  version = 1;
  publication_number = none;
  jurisdiction = none;
  status = status;
  submitted_by = 5;
  submitted_at = none;
  reviewed_at = none;
  created_at = 1;
}

abbrev pub state_with : PatentStatus → State
state_with status = record empty_state {
  patents = record { next = 2; rows = patent_with status ∷ [] };
}

abbrev pub inventor : Inventor
inventor = record {
  id = 3;
  user_id = some 5;
  full_name = "Ada";
  email = "ada@x";
  organization = none;
  created_at = 1;
}

abbrev pub with_inventor : State
with_inventor = record empty_state { inventors = record { next = 4; rows = inventor ∷ [] } }

abbrev pub event_at : ℕ → OutboxEvent
event_at id = record {
  id = id;
  aggregate_type = "patent";
  aggregate_id = 1;
  event_type = "PatentVersionWithdrawn";
  payload =
      withdrawn (record {
        event_id = "u";
        patent_id = 1;
        version = 1;
        reason = "declined";
        occurred_at = 1;
      });
  created_at = 1;
  published_at = none;
  claimed_at = none;
  attempts = 0;
  last_error = none;
}

abbrev pub backlog : State
backlog = record empty_state {
  outbox = record { next = 4; rows = event_at 1 ∷ event_at 2 ∷ event_at 3 ∷ [] };
}

abbrev pub world : World
world = record { db = backlog; log = [] }

abbrev pub pass : Pass
pass = record { now = 1000; db_now = 1000 }

abbrev pub engine : Engine
engine = record { locked = λ e. false; returning = λ es. es; returning_lem = λ es. Permᴰ.refl es }

abbrev pub down : Error
down = other "broker down"

pub refused :
    (m : Message) (log : List Message) (u : Unit {0}) → err down ≡ ok u → log ≡ log ++ m ∷ []
refused m log u h = ground arith

-- A broker that takes every message, and one that takes none.
abbrev pub working_broker : Broker
working_broker = record {
  send = λ m log. (ok tt, log ++ m ∷ []);
  send_ok = λ m log u h. refl;
  send_err = λ m log e h. inr refl;
}

abbrev pub failing_broker : Broker
failing_broker = record {
  send = λ m log. (err down, log);
  send_ok = λ m log u h. refused m log u h;
  send_err = λ m log e h. inl refl;
}

abbrev pub bytes : OutboxEvent → ℕ
bytes e = 200

abbrev pub crypto : Crypto
crypto = record {
  hash_password = λ plain salt. plain;
  verify_password = λ plain hash. true;
  sign_access_token = λ claims now. "access";
  hash_refresh_token = λ token. token;
  verify-hash = λ plain salt. refl;
}

abbrev pub draw : Draw
draw = record { now = 100; token = "new"; salt = "s" }

abbrev pub later_draw : Draw
later_draw = record { now = 101; token = "newer"; salt = "s" }

abbrev pub token_with : Option ℕ → RefreshToken
token_with rotated_at = record {
  id = 7;
  user_id = 5;
  token_hash = "old";
  rotated_at = rotated_at;
  revoked_at = none;
  expires_at = 500;
}

abbrev pub signed_in : Option ℕ → State
signed_in rotated_at = record empty_state {
  users = record { next = 6; rows = ada ∷ [] };
  refresh_tokens = record { next = 8; rows = token_with rotated_at ∷ [] };
}

-- A storage that holds no object.
abbrev pub quiet_storage : ObjectStorage
quiet_storage = record {
  head = λ key bucket. missing;
  delete = λ key bucket. some bucket;
  head_bucket = λ bucket. present;
  create_bucket = λ bucket. ok tt;
  sign_upload = λ key content_type. key;
  sign_download = λ key. key;
}
