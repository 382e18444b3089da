-- ===== src/Raft/Membership.antt =====
-- pkg/raftstore/consensus/membership.go: the members of a Raft group, and the changes that are let
-- through.
pub mod Laws
use dss.Prelude.{
  ℕ, ◌-◌, String, Bool, true, false, Option, none, some, List, [], ◌∷◌, ◌++◌, not, ◌==◌, ◌&&◌, ltb,
  nat_eq, any, map, filter, length, if◌then◌else◌,
}
use dss.Exec.{Result, ok, err, coded, uncoded, bad_request}
use dss.Raft.NodeMap
use dss.Raft.NodeMap.{NodeId, NodeMap}

-- `member`
pub record Member : Type 0 where
  pub url : String

-- A call of the transport's `AddPeer` or `RemovePeer`.
pub data PeerCall : Type 0 where
  add_peer : NodeId → String → PeerCall
  remove_peer : NodeId → PeerCall

-- `membership`, with the calls of its transport in order.
pub record Membership : Type 0 where
  pub node_id : NodeId
  pub peer_calls : List PeerCall
  pub members : NodeMap Member
  pub removed_ids : List NodeId

abbrev pub min_voters : ℕ
min_voters = 3

-- `raft.None`
abbrev pub no_node : NodeId
no_node = 0

-- `isIDRemoved`, which is `slices.Contains(m.removedIDs, id)`.
unfoldable pub is_id_removed : NodeId → Membership → Bool
is_id_removed id m = any (nat_eq id) m.removed_ids

-- `addNode`
unfoldable pub add_node : NodeId → Member → Membership → Membership
add_node id mem m = record m {
  members = NodeMap.set m.members id mem;
  peer_calls =
      if not (nat_eq id m.node_id) then m.peer_calls ++ add_peer id mem.url ∷ [] else m.peer_calls;
}

-- `removeNode`
unfoldable pub remove_node : NodeId → Membership → Membership
remove_node id m = record m {
  members = NodeMap.delete m.members id;
  removed_ids = m.removed_ids ++ id ∷ [];
  peer_calls =
      if not (nat_eq id m.node_id) then m.peer_calls ++ remove_peer id ∷ [] else m.peer_calls;
}

abbrev pub is_present : Option Member → Bool
is_present none = false
is_present (some mem) = true

-- The peers that `restore` adds.
unfoldable pub peers_to_add : NodeId → NodeMap Member → List PeerCall
peers_to_add self [] = []
peers_to_add self ((id, mem) ∷ m) =
    let rest = peers_to_add self m in
    if not (nat_eq id self) && not (mem.url == "") then add_peer id mem.url ∷ rest else rest

-- `restore`; nil members are none.
unfoldable pub restore : NodeMap Member → List NodeId → Membership → Result Membership
unfolding peers_to_add
restore members removed_ids m =
    if any (λ id. is_present (NodeMap.get members id)) removed_ids
    then err uncoded
    else ok (record m {
      members = members;
      removed_ids = removed_ids;
      peer_calls = m.peer_calls ++ (map remove_peer removed_ids ++ peers_to_add m.node_id members);
    })

-- `raftpb.ConfChangeType`
pub data ConfChangeType : Type 0 where
  conf_change_add_node conf_change_remove_node conf_change_update_node : ConfChangeType
  conf_change_add_learner_node : ConfChangeType

-- `raftpb.ConfChangeSingle`
pub record ConfChangeSingle : Type 0 where
  pub type : ConfChangeType
  pub node_id : NodeId

-- The last part of `validateConfChange`, at the entry of the node in the members.
unfoldable pub validate_type :
    (String → Bool) → ConfChangeType → String → Option Member → ℕ → Result (Unit {0})
validate_type valid_url conf_change_add_node url (some mem) voters = err (coded bad_request)
validate_type valid_url conf_change_add_node url none voters =
    if valid_url url then ok tt else err (coded bad_request)
validate_type valid_url conf_change_remove_node url none voters = err (coded bad_request)
validate_type valid_url conf_change_remove_node url (some mem) voters =
    if ltb (voters - 1) min_voters then err (coded bad_request) else ok tt
validate_type valid_url conf_change_update_node url found voters = err (coded bad_request)
validate_type valid_url conf_change_add_learner_node url found voters = err (coded bad_request)

-- `validateConfChange`, where `valid_url` says which URLs etcd's `types.NewURLs` accepts.
unfoldable pub validate_conf_change :
    (String → Bool) → ConfChangeSingle → String → Membership → Result (Unit {0})
unfolding is_id_removed validate_type
validate_conf_change valid_url change url m =
    if nat_eq change.node_id no_node
    then err (coded bad_request)
    else if is_id_removed change.node_id m
    then err (coded bad_request)
    else validate_type valid_url change.type url (NodeMap.get m.members change.node_id)
        (length m.members)
