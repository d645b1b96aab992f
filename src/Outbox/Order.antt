-- ===== src/Outbox/Order.antt =====
-- What a pass of the relay appends to the topic, and in which order.
use smart_patents_storage_sy.Prelude.{
  ℕ, ◌+◌, ◌≤◌, ◌≡◌, refl, Bool, false, List, [], ◌∷◌, ◌++◌, map, take, ◌⊎◌, inl, inr,
}
use smart_patents_storage_sy.Exec.{Result, ok, err, is_ok, Exec}
use smart_patents_storage_sy.Prisma.{Prisma}
use smart_patents_storage_sy.State.{OutboxEvent}
use smart_patents_storage_sy.Outbox.Relay.{Broker, Message, World, message_of, publish_all}

abbrev is_true : Result Bool → Bool
is_true (ok b) = b
is_true (err _) = false

module _ (prisma : Prisma) (broker : Broker) (bytes : OutboxEvent → ℕ) where
  -- What one attempt adds to the topic: its message, or nothing; nothing lost when it reports success.
  pub send-cases :
      (m : Message) (log : List Message)
      → ((broker.send m log).1 ≡ log ++ m ∷ [])
        ⊎ (((broker.send m log).1 ≡ log) × (is_ok (broker.send m log).0 ≡ false))
  send-cases m log = go (broker.send m log).0 refl
    where
      go :
          (r : Result (Unit {0}))
          → (broker.send m log).0 ≡ r
          → ((broker.send m log).1 ≡ log ++ m ∷ [])
            ⊎ (((broker.send m log).1 ≡ log) × (is_ok (broker.send m log).0 ≡ false))
      go (ok u) e = inl (broker.send_ok m log u e)
      go (err x) e = elim (broker.send_err m log x e) [
        | inl same ↦ inr (same, rw e refl)
        | inr more ↦ inl more
      ]

  -- What the reported count says of the number of messages sent.
  abbrev pub Counted : ℕ → ℕ → Result ℕ → Type 0
  Counted published sent (ok n) = (n ≤ published + sent) × (published + sent ≤ n + 1)
  Counted published sent (err _) = Unit

  abbrev pub PassCounted : ℕ → Result (ℕ × ℕ) → Type 0
  PassCounted sent (ok (claimed, n)) = (n ≤ sent) × (sent ≤ n + 1)
  PassCounted sent (err _) = Unit

  abbrev Sent : ℕ → List OutboxEvent → ℕ → World → Type 0
  Sent now events published w =
      (k : ℕ) × ((publish_all prisma broker bytes now events published w).1.log
        ≡ w.log ++ map message_of (take k events))
      × Counted published k (publish_all prisma broker bytes now events published w).0
