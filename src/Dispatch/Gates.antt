-- ===== src/Dispatch/Gates.antt =====
-- dispatch.py: the gates before any grant, which read the store alone.
use the_ozolith.Common.{
  String, ◌||◌, Option, none, some, List, [], ◌∷◌, ◌++◌, if◌then◌else◌, ◌==◌, nat_eq, string_eq,
  pair_eq, triple_eq, list_eq,
}
use the_ozolith.Common.Message.{Message, lit, repr, say}
use Prim.Native.String.{slice}
use the_ozolith.Store.{Store}
use the_ozolith.Store.Nodes.{node_version, node_drivers_hash}
use the_ozolith.Store.Quarantine.{node_quarantine}
use the_ozolith.Store.Commands.{pending_lifecycle_commands}

abbrev off_pin : String → String → String → Message
off_pin node reported pin =
    lit "node "
    ∷ repr node
    ∷ lit " runs product version "
    ∷ lit reported
    ∷ lit ", the pin is "
    ∷ lit pin
    ∷ say "; no new work until it converges"

-- `_version_block`
unfoldable pub version_block : String → String → Store → Option Message
version_block node pin s =
    if pin == ""
    then none
    else if node_version node s == "" || node_version node s == pin
    then none
    else some (off_pin node (node_version node s) pin)

abbrev running : String → String
running reported = if reported == "" then "(none applied)" else slice reported 0 12

abbrev off_hash : String → String → String → Message
off_hash node reported drivers_hash =
    lit "node "
    ∷ repr node
    ∷ lit " runs config distribution "
    ∷ lit (running reported)
    ∷ lit ", the deployment is "
    ∷ lit (slice drivers_hash 0 12)
    ∷ say "; no new work until it converges"

abbrev drivers_answer : String → String → Option String → Option Message
drivers_answer node drivers_hash none = none
drivers_answer node drivers_hash (some reported) =
    if reported == drivers_hash then none else some (off_hash node reported drivers_hash)

-- `_drivers_block`
unfoldable pub drivers_block : String → String → Store → Option Message
drivers_block node drivers_hash s =
    if drivers_hash == "" then none else drivers_answer node drivers_hash (node_drivers_hash node s)

abbrev quarantine_answer : String → Option Message → Option Message
quarantine_answer node none = none
quarantine_answer node (some reason) =
    some (lit "node " ∷ repr node ∷ lit " quarantined: " ∷ reason)

unfoldable pub quarantine_block : String → Store → Option Message
quarantine_block node s = quarantine_answer node (node_quarantine node s)

-- `'/'.join(pending)`
abbrev slashed : List String → Message
slashed [] = []
slashed (v ∷ []) = say v
slashed (v ∷ u ∷ vs) = lit v ∷ lit "/" ∷ slashed (u ∷ vs)

abbrev lifecycle_answer : String → List String → Option Message
lifecycle_answer node [] = none
lifecycle_answer node (v ∷ vs) =
    some (lit "node " ∷ repr node ∷ lit " has pending " ∷ slashed (v ∷ vs) ++ say "; no new work")

unfoldable pub lifecycle_block : String → Store → Option Message
lifecycle_block node s = lifecycle_answer node (pending_lifecycle_commands node s)

-- the first of two answers
abbrev pub or_then : Option Message → Option Message → Option Message
or_then none b = b
or_then (some m) b = some m

-- the gates of `grant_work`, in its order
unfoldable pub node_block : String → String → String → Store → Option Message
node_block node pin drivers_hash s = or_then (quarantine_block node s) (
    or_then (version_block node pin s)
      (or_then (drivers_block node drivers_hash s) (lifecycle_block node s)))

-- the gates of `review_targets`
unfoldable pub review_block : String → String → String → Store → Option Message
review_block node pin drivers_hash s =
    or_then (version_block node pin s) (drivers_block node drivers_hash s)
