-- ===== src/Store/Nodes.antt =====
-- store.py: the nodes table, which heartbeats write and the dispatch gates read.
use the_ozolith.Common.{
  ℕ, String, not, Option, none, some, if◌then◌else◌, is_some, nat_eq, string_eq, pair_eq, triple_eq,
}
use the_ozolith.Common.Table.{find, put}
use the_ozolith.Store.{Store, NodeRow}

abbrev registered_or : ℕ → Option NodeRow → ℕ
registered_or now none = now
registered_or now (some row) = row.registered_at

abbrev or_empty : Option String → String
or_empty none = ""
or_empty (some s) = s

unfoldable pub touch_node : String → String → Option String → String → ℕ → Store → Store
touch_node name version drivers_hash built_against now s = record s { nodes = put name row s.nodes }
  where
    row : NodeRow
    row = record {
      version = version;
      drivers_hash = or_empty drivers_hash;
      drivers_hash_reported = is_some drivers_hash;
      drivers_built_against = built_against;
      registered_at = registered_or now (find name s.nodes);
      last_seen = now;
    }

abbrev seen_of : Option NodeRow → Option ℕ
seen_of none = none
seen_of (some row) = some row.last_seen

unfoldable pub node_last_seen : String → Store → Option ℕ
node_last_seen name s = seen_of (find name s.nodes)

abbrev version_of : Option NodeRow → String
version_of none = ""
version_of (some row) = row.version

unfoldable pub node_version : String → Store → String
node_version name s = version_of (find name s.nodes)

abbrev hash_of : Option NodeRow → Option String
hash_of none = none
hash_of (some row) = if not row.drivers_hash_reported then none else some row.drivers_hash

unfoldable pub node_drivers_hash : String → Store → Option String
node_drivers_hash name s = hash_of (find name s.nodes)
