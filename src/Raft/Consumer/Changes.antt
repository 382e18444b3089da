-- ===== src/Raft/Consumer/Changes.antt =====
-- What a change of the members that a client asked for does.
use dss.Prelude.{
  ℕ, ◌≡◌, refl, subst, inl, inr, String, Bool, false, Option, none, some, List, [], ◌∷◌, nat_eq,
  length, arith, Bool-cases,
}
use dss.Exec.{Result, ok, err}
use dss.Exec.Laws.{Result-cases}
use dss.Raft.NodeMap
use dss.Raft.Membership.{
  Member, Membership, no_node, is_id_removed, ConfChangeType, conf_change_add_node,
  conf_change_remove_node, conf_change_update_node, conf_change_add_learner_node, ConfChangeSingle,
  validate_type, validate_conf_change,
}
use dss.Raft.Membership.Laws.{IsKept, same-IsKept, add-IsKept, remove-IsKept}
use dss.Raft.Consumer.{
  ConfChangeContext, ConfChangeV2, Consensus, Environment, changed, untrack, checked_change,
  apply_checked, read_context, apply_config_change_v2,
}

module _ (valid_url : String → Bool) (m : Membership) (url : String) (mem : Member) where
  type_lem :
      (t : ConfChangeType) (id : ℕ) (found : Option Member)
      → NodeMap.get m.members id ≡ found
      → is_id_removed id m ≡ false
      → validate_type valid_url t url found (length m.members) ≡ ok tt
      → IsKept m (changed (record { type = t; node_id = id }) mem m)
  unfolding validate_type changed
  type_lem conf_change_add_node id (some x) e fresh h = absurd (ground arith)
  type_lem conf_change_add_node id none e fresh h = add-IsKept m id mem fresh e
  type_lem conf_change_remove_node id none e fresh h = absurd (ground arith)
  type_lem conf_change_remove_node id (some x) e fresh h = remove-IsKept m id x e (ground arith)
  type_lem conf_change_update_node id found e fresh h = absurd (ground arith)
  type_lem conf_change_add_learner_node id found e fresh h = absurd (ground arith)

  validated_lem :
      (change : ConfChangeSingle)
      → validate_conf_change valid_url change url m ≡ ok tt
      → IsKept m (changed change mem m)
  unfolding validate_conf_change
  validated_lem change h = elim (Bool-cases (nat_eq change.node_id no_node)) [
    | inl e ↦ let k = rw e at h in absurd (ground arith)
    | inr e ↦ elim (Bool-cases (is_id_removed change.node_id m)) [
      | inl f ↦ let k = rw (e, f) at h in absurd (ground arith)
      | inr f ↦ type_lem change.type change.node_id _ refl f (rw (e, f) at h)
    ]
  ]

module _ {S R : Type 0} (env : Environment S R) where
  checked_lem :
      (changes : List ConfChangeSingle) (url : String) (mem : Member) (m : Membership)
      (change : ConfChangeSingle)
      → checked_change env changes url m ≡ ok change
      → IsKept m (changed change mem m)
  unfolding checked_change
  checked_lem [] url mem m change h = absurd (ground arith)
  checked_lem (a ∷ []) url mem m change h =
      elim (Result-cases (validate_conf_change env.valid_url a url m)) [
        | inl (u, e) ↦
            subst (λ x. IsKept m (changed x mem m)) (cc (rw e at h))
              (validated_lem env.valid_url m url mem a e)
        | inr (x, e) ↦ let k = rw e at h in absurd (ground arith)
      ]
  checked_lem (a ∷ b ∷ rest) url mem m change h = absurd (ground arith)

  apply_checked_lem :
      (cctx : ConfChangeContext) (x : Result ConfChangeSingle) (c : Consensus S R)
      → ((change : ConfChangeSingle)
          → x ≡ ok change
          → IsKept c.membership (changed change cctx.member c.membership))
      → IsKept c.membership (apply_checked env cctx x c).1.membership
  unfolding apply_checked untrack
  apply_checked_lem cctx (err e) c k = same-IsKept c.membership
  apply_checked_lem cctx (ok change) c k = ground (arith, k change refl)

  -- Whatever change of the members a client asks for, and whether it is applied or rejected: a sound
  -- membership stays sound, that is, no removed node becomes a member; a removed ID stays removed; a
  -- member that is one no more has its ID among the removed ones; and of a sound membership with three
  -- members or more, three are left.
  pub apply_config_change_v2-IsKept :
      (cc : ConfChangeV2) (c : Consensus S R)
      → IsKept c.membership (apply_config_change_v2 env cc c).1.membership
  unfolding apply_config_change_v2
  apply_config_change_v2-IsKept cc c = elim (Result-cases (read_context cc.context)) [
    | inr (x, e) ↦ rw e (same-IsKept c.membership)
    | inl (cctx, e) ↦ rw e (
        apply_checked_lem cctx (checked_change env cc.changes cctx.member.url c.membership) c
          (λ change h. checked_lem cc.changes cctx.member.url cctx.member c.membership change h))
  ]
