-- ===== src/Rid/Isa/Notified.antt =====
-- Whom an update of an ISA notifies: the subscriptions in its cells before, and those in its cells
-- after.
use mathlib.Core.List.{Memᴰ}
use mathlib.Core.List.Memᴰ
use dss.Prelude.{
  ℕ, ◌≡◌, refl, sym, subst, ◌↔◌, ◌⊎◌, inl, inr, Bool, true, false, none, [], ◌∷◌, ◌||◌, arith,
}
use dss.GoMap
use dss.GoMap.{GoMap}
use dss.External.{External, CellUnion, Time, IsAtLevel, S2Laws}
use dss.Models.{levelify}
use dss.Rid.Store.Records.{State, SubscriptionRecord, overlaps}
use dss.Rid.Store.Isas.Search.{SharesCell, overlaps_iff}
use dss.Rid.Store.Subscriptions.{is_live_in_cells, is_owner, bumped}
use dss.Rid.Isa.{notified_cells}

-- Not expired, and in one of the two areas.
abbrev pub in_either : Time → CellUnion → CellUnion → SubscriptionRecord → Bool
in_either now a b rec = is_live_in_cells now a none rec || is_live_in_cells now b none rec

abbrev pub notified_either : Time → CellUnion → CellUnion → State → State
notified_either now a b s = record s {
  subscriptions = GoMap.modify_where (in_either now a b) bumped s.subscriptions;
}

bool_eq : (a b : Bool) → ((a ≡ true) ↔ (b ≡ true)) → a ≡ b
bool_eq true b h = sym (h.0 refl)
bool_eq false true h = h.1 refl
bool_eq false false h = refl

pub or_iff : (a b : Bool) → ((a || b) ≡ true) ↔ ((a ≡ true) ⊎ (b ≡ true))
or_iff true b = (λ h. inl refl, λ h. refl)
or_iff false b = (λ h. inr h, λ h. elim h [ inl e ↦ ground arith | inr e ↦ e ])

module _ (ext : External) (laws : S2Laws ext) (a b : CellUnion) (at_a : IsAtLevel ext 13 a)
    (at_b : IsAtLevel ext 13 b) where
  all-IsAtLevel : (u : CellUnion) → Memᴰ u (a ∷ b ∷ []) → IsAtLevel ext 13 u
  all-IsAtLevel u m = elim (Memᴰ.cases_cons m) [
    | inl e ↦ subst (IsAtLevel ext 13) (sym e) at_a
    | inr n ↦ elim (Memᴰ.cases_cons n) [
      | inl e ↦ subst (IsAtLevel ext 13) (sym e) at_b
      | inr k ↦ absurd (Memᴰ.not-nil k)
    ]
  ]

  mem-notified_cells : (c : ℕ) → Memᴰ c (notified_cells ext a b) ↔ (Memᴰ c a ⊎ Memᴰ c b)
  unfolding notified_cells levelify
  mem-notified_cells c =
      let both = laws.mem-relevel 13 c (a ∷ b ∷ []) all-IsAtLevel in
      (
        λ m.
            let (u, n, k) = both.0 m in
            elim (Memᴰ.cases_cons n) [
              | inl e ↦ inl (subst (Memᴰ c) e k)
              | inr n' ↦ elim (Memᴰ.cases_cons n') [
                | inl e ↦ inr (subst (Memᴰ c) e k)
                | inr x ↦ absurd (Memᴰ.not-nil x)
              ]
            ],
        λ w. elim w [
          | inl m ↦ both.1 (a, Memᴰ.head refl, m)
          | inr m ↦ both.1 (b, Memᴰ.tail (Memᴰ.head refl), m)
        ],
      )

  shares_iff :
      (cs : CellUnion)
      → SharesCell cs (notified_cells ext a b) ↔ (SharesCell cs a ⊎ SharesCell cs b)
  shares_iff cs = (
    λ s. elim ((mem-notified_cells s.cell).0 s.right) [
      | inl m ↦ inl (record { cell = s.cell; left = s.left; right = m })
      | inr m ↦ inr (record { cell = s.cell; left = s.left; right = m })
    ],
    λ w. elim w [
      | inl s ↦ record {
        cell = s.cell;
        left = s.left;
        right = (mem-notified_cells s.cell).1 (inl s.right);
      }
      | inr s ↦ record {
        cell = s.cell;
        left = s.left;
        right = (mem-notified_cells s.cell).1 (inr s.right);
      }
    ],
  )

  overlaps_either :
      (cs : CellUnion) → overlaps cs (notified_cells ext a b) ≡ (overlaps cs a || overlaps cs b)
  overlaps_either cs = bool_eq _ _ (
    λ h. (or_iff _ _).1 (elim ((shares_iff cs).0 ((overlaps_iff cs (notified_cells ext a b)).0 h)) [
      | inl s ↦ inl ((overlaps_iff cs a).1 s)
      | inr s ↦ inr ((overlaps_iff cs b).1 s)
    ]),
    λ h. (overlaps_iff cs (notified_cells ext a b)).1 (
        (shares_iff cs).1 (elim ((or_iff _ _).0 h) [
          | inl e ↦ inl ((overlaps_iff cs a).0 e)
          | inr e ↦ inr ((overlaps_iff cs b).0 e)
        ])),
  )

  live_either :
      (now : Time) (rec : SubscriptionRecord)
      → is_live_in_cells now (notified_cells ext a b) none rec ≡ in_either now a b rec
  unfolding is_live_in_cells is_owner
  live_either now rec = rw overlaps_either (ground arith)

  pub notified_either_lem :
      (now : Time) (m : GoMap SubscriptionRecord)
      → GoMap.modify_where (is_live_in_cells now (notified_cells ext a b) none) bumped m
        ≡ GoMap.modify_where (in_either now a b) bumped m
  unfolding GoMap.modify_where
  notified_either_lem now [] = refl
  notified_either_lem now ((k, rec) ∷ m) =
      rw (live_either now rec) (rw (notified_either_lem now m) refl)
