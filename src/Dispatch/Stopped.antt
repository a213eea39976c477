-- ===== src/Dispatch/Stopped.antt =====
-- dispatch.py: a node that may not have work is refused before any GitHub call.
use the_ozolith.Common.{
  ℕ, String, ◌≡◌, refl, ◌⊎◌, inl, inr, true, false, Option, none, some, List, ◌∷◌, ◌==◌, nat_eq,
  string_eq, pair_eq, triple_eq, list_eq,
}
use the_ozolith.Common.Table.{find}
use the_ozolith.Common.Message.{Message, lit, repr}
use the_ozolith.Common.Exec.{ok}
use the_ozolith.Store.{Store, NodeHealth, NodeRow}
use the_ozolith.Store.Nodes.{node_version, node_drivers_hash}
use the_ozolith.Store.Quarantine.{node_quarantine, or_quarantined}
use the_ozolith.Store.Commands.{pending_lifecycle_commands}
use the_ozolith.GitHub.{Client, World}
use the_ozolith.Dispatch.Gates.{
  quarantine_block, version_block, drivers_block, lifecycle_block, or_then, node_block,
}
use the_ozolith.Dispatch.Grant.{Request, Answer, grant_work}
use the_ozolith.Dispatch.Pause.{registered, gate, grant_work-closed}

-- the node's health row is under quarantine
abbrev IsQuarantined : String → Store → Type 0
IsQuarantined node s =
    (h : NodeHealth) × (find node s.node_health ≡ some h) × (h.quarantined ≡ true)

-- there is a pin, and the node reported a version, which is another
abbrev IsOffPin : (node pin : String) (s : Store) → Type 0
IsOffPin node pin s =
    (row : NodeRow) × (find node s.nodes ≡ some row)
    × ((pin == "") ≡ false)
    × ((row.version == "") ≡ false)
    × ((row.version == pin) ≡ false)

-- the deployment has a drivers hash, and the node reported another, the empty one included
abbrev IsOffHash : (node drivers_hash : String) (s : Store) → Type 0
IsOffHash node drivers_hash s =
    (row : NodeRow) × (find node s.nodes ≡ some row)
    × ((drivers_hash == "") ≡ false)
    × (row.drivers_hash_reported ≡ true)
    × ((row.drivers_hash == drivers_hash) ≡ false)

-- a lifecycle command waits for the node
abbrev IsLeaving : String → Store → Type 0
IsLeaving node s =
    (verb : String) × (verbs : List String) × (pending_lifecycle_commands node s ≡ verb ∷ verbs)

-- the node may not have new work
abbrev pub IsStopped : Request → Store → Type 0
IsStopped req s =
    IsQuarantined req.node s
    ⊎ (IsOffPin req.node req.pin s ⊎ (IsOffHash req.node req.drivers_hash s ⊎ IsLeaving req.node s))

-- the gate answers a reason
abbrev Closes : Option Message → Type 0
Closes o = (reason : Message) × (o ≡ some reason)

Closes-left : (a b : Option Message) → Closes a → Closes (or_then a b)
Closes-left none b (m, e) = absurd (cc e)
Closes-left (some n) b (m, e) = (n, refl)

Closes-right : (a b : Option Message) → Closes b → Closes (or_then a b)
Closes-right none b h = h
Closes-right (some n) b h = (n, refl)

module _ (node : String) (s : Store) where
  quarantine_lem : IsQuarantined node s → Closes (quarantine_block node s)
  unfolding quarantine_block node_quarantine
  quarantine_lem (h, there, on) = (
    lit "node " ∷ repr node ∷ lit " quarantined: " ∷ or_quarantined h.reason,
    rw (there, on) refl,
  )

  version_lem : (pin : String) → IsOffPin node pin s → Closes (version_block node pin s)
  unfolding version_block node_version
  version_lem pin (row, there, pinned, reported, off) = rw (there, pinned, reported, off) (_, refl)

  drivers_lem : (hash : String) → IsOffHash node hash s → Closes (drivers_block node hash s)
  unfolding drivers_block node_drivers_hash
  drivers_lem hash (row, there, deployed, reported, off) =
      rw (there, deployed, reported, off) (_, refl)

  lifecycle_lem : IsLeaving node s → Closes (lifecycle_block node s)
  unfolding lifecycle_block
  lifecycle_lem (verb, verbs, e) = rw e (_, refl)

gate_lem : (req : Request) (s : Store) → IsStopped req s → Closes (gate req s)
unfolding node_block
gate_lem req s (inl h) = Closes-left _ _ (quarantine_lem req.node s h)
gate_lem req s (inr h) = Closes-right (quarantine_block req.node s) _ (elim h [
  | inl pin ↦ Closes-left _ _ (version_lem req.node s req.pin pin)
  | inr rest ↦ Closes-right (version_block req.node req.pin s) _ (elim rest [
    | inl hash ↦ Closes-left _ _ (drivers_lem req.node s req.drivers_hash hash)
    | inr leaving ↦
        Closes-right (drivers_block req.node req.drivers_hash s) _
          (lifecycle_lem req.node s leaving)
  ])
])

-- A node that may not have work is refused, with a reason, and nothing changes but its driver row: no
-- GitHub call is made. It may not when its health row is under quarantine; when it reported a version
-- and the pin is another; when it reported a drivers hash and the deployment's is another; or when a
-- lifecycle command waits for it.
pub grant_work-stopped :
    {G : Type 0} (client : Client G) (fuel : ℕ) (req : Request) (w : World G)
    → IsStopped req (registered client req w).store
    → (reason : Message) × (grant_work client fuel req w
        ≡ (ok (Answer.refused reason), registered client req w))
grant_work-stopped client fuel req w h =
    let (reason, closed) = gate_lem req (registered client req w).store h in
    (reason, grant_work-closed client fuel req w reason closed)
