-- ===== src/Rid/Isa/Access.antt =====
-- The checks of a request's version and owner.
use dss.Prelude.{
  ◌≡◌, refl, ◌⊎◌, inl, inr, true, Option, none, some, ◌==◌, arith, Bool-cases, eq_iff, str_eq_refl,
}
use dss.Exec.{Error, ok, err, coded, version_mismatch, permission_denied}
use dss.Models.Version.{Version, matches}
use dss.Rid.Models.{Owner}
use dss.Rid.Store.Records.{State}
use dss.Rid.Isa.{check_access}

pub matches_symm : (v w : Option Version) → matches v w ≡ true → matches w v ≡ true
unfolding matches
matches_symm none w h = cc h
matches_symm (some v) none h = cc h
matches_symm (some v) (some w) h = ground (arith, eq_iff v.s w.s, eq_iff w.s v.s)

pub matches_refl : (v : Version) → matches (some v) (some v) ≡ true
unfolding matches
matches_refl v = str_eq_refl v.s

pub access-cases :
    (version : Option Version) (owner : Owner) (old : Option Version) (old_owner : Owner)
    (s : State)
    → ((check_access version owner old old_owner s ≡ (ok tt, s))
        × (matches version old ≡ true)
        × (old_owner ≡ owner))
      ⊎ ((e : Error) × (check_access version owner old old_owner s ≡ (err e, s)))
unfolding check_access
access-cases version owner old old_owner s = elim (Bool-cases (matches version old)) [
  | inr v ↦ inr (coded version_mismatch, rw v refl)
  | inl v ↦ elim (Bool-cases (old_owner == owner)) [
    | inr o ↦ inr (coded permission_denied, rw (v, o) refl)
    | inl o ↦ inl (rw (v, o) refl, v, (eq_iff old_owner owner).0 o)
  ]
]
