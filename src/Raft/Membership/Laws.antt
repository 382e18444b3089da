-- ===== src/Raft/Membership/Laws.antt =====
-- Which memberships are sound, and what a change may do to one.
use dss.Prelude.{
  ◌-◌, ◌≤◌, ◌≡◌, refl, sym, ◌∙◌, subst, inl, inr, Bool, true, false, none, some, List, [], ◌∷◌,
  ◌++◌, ltb, nat_eq, any, length, arith, Bool-cases, nat_eq_iff, if◌then◌else◌,
}
use dss.Raft.NodeMap
use dss.Raft.NodeMap.{
  NodeId, NodeMap, get-set, get-delete, set-HasDistinctKeys, delete-HasDistinctKeys, length-delete,
  length-set,
}
use dss.Raft.Membership.{Member, Membership, min_voters, is_id_removed, add_node, remove_node}

-- Each member stands once, and no removed node is one.
pub record IsSound (m : Membership) : Type 0 where
  pub distinct : NodeMap.HasDistinctKeys m.members
  pub retired : (id : NodeId) → is_id_removed id m ≡ true → NodeMap.get m.members id ≡ none

-- A step keeps a membership sound, keeps three voters where there are as many, a removed ID stays
-- removed, and a member that is one no more is removed.
pub record IsKept (m m' : Membership) : Type 0 where
  pub sound : IsSound m → IsSound m'
  pub enough : IsSound m → min_voters ≤ length m.members → min_voters ≤ length m'.members
  pub stays : (id : NodeId) → is_id_removed id m ≡ true → is_id_removed id m' ≡ true
  pub retires :
      (id : NodeId) (mem : Member)
      → NodeMap.get m.members id ≡ some mem
      → NodeMap.get m'.members id ≡ none
      → is_id_removed id m' ≡ true

pub same-IsKept : (m : Membership) → IsKept m m
same-IsKept m = record {
  sound = λ s. s;
  enough = λ s e. e;
  stays = λ id r. r;
  retires = λ id mem g n. absurd (ground (arith, g, n));
}

any_append :
    (p : NodeId → Bool) (xs : List NodeId) (y : NodeId)
    → any p (xs ++ y ∷ []) ≡ (if any p xs then true else p y)
unfolding any
any_append p [] y = ground arith
any_append p (x ∷ xs) y = ground (arith, any_append p xs y)

-- A node that is not removed and not a member.
pub add-IsKept :
    (m : Membership) (id : NodeId) (mem : Member)
    → is_id_removed id m ≡ false
    → NodeMap.get m.members id ≡ none
    → IsKept m (add_node id mem m)
unfolding add_node is_id_removed
add-IsKept m id mem fresh absent = record {
  sound = λ s. record {
    distinct = set-HasDistinctKeys m.members id mem s.distinct;
    retired = λ j r. elim (Bool-cases (nat_eq id j)) [
      | inl e ↦ absurd (ground (arith, fresh, r, (nat_eq_iff id j).0 e))
      | inr e ↦ get-set m.members id j mem ∙ rw e (s.retired j r)
    ];
  };
  enough =
      λ s e. subst (λ n. min_voters ≤ n) (sym (length-set m.members id mem absent)) (omega arith);
  stays = λ j r. r;
  retires = λ j q g n. elim (Bool-cases (nat_eq id j)) [
    | inl e ↦ absurd (ground (arith, rw (get-set m.members id j mem, e) at n))
    | inr e ↦ absurd (ground (arith, g, rw (get-set m.members id j mem, e) at n))
  ];
}

pub remove-IsKept :
    (m : Membership) (id : NodeId) (mem : Member)
    → NodeMap.get m.members id ≡ some mem
    → ltb (length m.members - 1) min_voters ≡ false
    → IsKept m (remove_node id m)
unfolding remove_node is_id_removed
remove-IsKept m id mem found many = record {
  sound = λ s. record {
    distinct = delete-HasDistinctKeys m.members id s.distinct;
    retired = λ j r. elim (Bool-cases (nat_eq id j)) [
      | inl e ↦ get-delete m.members id j ∙ rw e refl
      | inr e ↦
          get-delete m.members id j
          ∙ rw e (s.retired j (ground (arith, r, any_append (nat_eq j) m.removed_ids id)))
    ];
  };
  enough = λ s e. let one = length-delete m.members id s.distinct found in ground arith;
  stays = λ j r. any_append (nat_eq j) m.removed_ids id ∙ rw r refl;
  retires = λ j q g n. elim (Bool-cases (nat_eq id j)) [
    | inl e ↦
        let same = (nat_eq_iff id j).0 e in
        any_append (nat_eq j) m.removed_ids id ∙ ground (arith, (nat_eq_iff j id).1 (sym same))
    | inr e ↦ absurd (ground (arith, g, rw (get-delete m.members id j, e) at n))
  ];
}
