-- ===== src/Corpus/Lists.antt =====
-- The projection over outboxes that grow, and that the relay marks.
use smart_patents_storage_sy.Prelude.{
  ℕ, ◌≡◌, refl, Bool, List, [], ◌∷◌, ◌++◌, map, ◌==◌, if◌then◌else◌,
}
use smart_patents_storage_sy.State.{OutboxEvent}
use smart_patents_storage_sy.Corpus.Defs.{project, adds}

-- One more event is one more application.
pub project-append :
    (id : ℕ) (held : Bool) (es : List OutboxEvent) (e : OutboxEvent)
    → project id held (es ++ e ∷ [])
      ≡ (if e.aggregate_id == id then adds e.payload else project id held es)
unfolding project
project-append id held [] e = refl
project-append id held (x ∷ es) e =
    project-append id (if x.aggregate_id == id then adds x.payload else held) es e

-- Marks leave the payloads alone.
pub project-map :
    (f : OutboxEvent → OutboxEvent) (id : ℕ) (held : Bool) (es : List OutboxEvent)
    → ((e : OutboxEvent) → (f e).aggregate_id ≡ e.aggregate_id)
    → ((e : OutboxEvent) → (f e).payload ≡ e.payload)
    → project id held (map f es) ≡ project id held es
unfolding project
project-map f id held [] k p = refl
project-map f id held (e ∷ es) k p =
    rw (k e, p e) (project-map f id (if e.aggregate_id == id then adds e.payload else held) es k p)
