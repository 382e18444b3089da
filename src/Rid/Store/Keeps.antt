-- ===== src/Rid/Store/Keeps.antt =====
-- What a write stores: a record of the model that was given, whose extent has been validated.
use mathlib.Core.List.{Memᴰ}
use mathlib.Core.List.Memᴰ
use dss.Prelude.{ℕ, ◌≡◌, ◌≢◌, ◌<◌, inl, inr, Bool, Option, some, [], ◌∷◌, arith}
use dss.GoMap
use dss.GoMap.{
  GoMap, set-AllEntries, delete-AllEntries, modify_where-AllEntries, set-HasDistinctKeys,
  delete-HasDistinctKeys, modify_where-HasDistinctKeys,
}
use mathlib.Core.List.{cons-ne-nil}
use dss.Exec.{ok}
use dss.Exec.Laws.{bind_result-ok}
use dss.External.{External, CellUnion, Time}
use dss.Models.{validate_cell}
use dss.Rid.Models.{EntityId}
use dss.Rid.Store.Records.{
  State, initial_state, IsaRecord, SubscriptionRecord, validate_cells, validate_times,
  validate_write_data,
}
use dss.Rid.Store.Subscriptions.{bumped}

-- One or more cells of the level that the program uses, for some time.
pub record HasExtent (ext : External) (cells : CellUnion) (start end : Time) : Type 0 where
  pub some_cell : cells ≢ []
  pub level : (c : ℕ) → Memᴰ c cells → ext.level c ≡ 13
  pub ordered : start < end

abbrev pub IsaFits : External → EntityId → IsaRecord → Type 0
IsaFits ext id rec = (rec.id ≡ id) × HasExtent ext rec.cells rec.start_time rec.end_time

abbrev pub SubscriptionFits : External → EntityId → SubscriptionRecord → Type 0
SubscriptionFits ext id rec = (rec.id ≡ id) × HasExtent ext rec.cells rec.start_time rec.end_time

pub record IsValid (ext : External) (s : State) : Type 0 where
  pub distinct_isas : GoMap.HasDistinctKeys s.isas
  pub distinct_subs : GoMap.HasDistinctKeys s.subscriptions
  pub isas_fit : GoMap.AllEntries (IsaFits ext) s.isas
  pub subs_fit : GoMap.AllEntries (SubscriptionFits ext) s.subscriptions

times_lem : (a b : Time) → validate_times (some a) (some b) ≡ ok tt → a < b
unfolding validate_times
times_lem a b h = ground arith

module _ (ext : External) where
  level_lem : (c : ℕ) → validate_cell ext c ≡ ok tt → ext.level c ≡ 13
  unfolding validate_cell
  level_lem c h = ground arith

  levels_lem :
      (cells : CellUnion)
      → validate_cells ext cells ≡ ok tt
      → (c : ℕ) → Memᴰ c cells
      → ext.level c ≡ 13
  unfolding validate_cells
  levels_lem [] h c m = absurd (Memᴰ.not-nil m)
  levels_lem (d ∷ cells) h c m =
      let (u, e, k) = bind_result-ok (validate_cell ext d) (λ _. validate_cells ext cells) h in
      elim (Memᴰ.cases_cons m) [ inl q ↦ rw q (level_lem d e) | inr n ↦ levels_lem cells k c n ]

  -- Data that pass `validateWriteData` have an extent.
  pub validated-HasExtent :
      (cells : CellUnion) (start end : Option Time) (a b : Time)
      → validate_write_data ext cells start end ≡ ok tt
      → start ≡ some a
      → end ≡ some b
      → HasExtent ext cells a b
  unfolding validate_write_data
  validated-HasExtent [] start end a b h p q = absurd (ground arith)
  validated-HasExtent (c ∷ cells) start end a b h p q =
      let (u, e, k) =
        bind_result-ok (validate_cells ext (c ∷ cells)) (λ _. validate_times start end) h in
      record {
        some_cell = cons-ne-nil c cells;
        level = levels_lem (c ∷ cells) e;
        ordered = times_lem a b (rw (p, q) at k);
      }

  pub initial-IsValid : IsValid ext initial_state
  unfolding GoMap.get
  initial-IsValid = record {
    distinct_isas = tt;
    distinct_subs = tt;
    isas_fit = λ id rec e. absurd (ground arith);
    subs_fit = λ id rec e. absurd (ground arith);
  }

  module _ (s : State) (v : IsValid ext s) where
    pub stored_isa-IsValid :
        (id : EntityId) (rec : IsaRecord)
        → IsaFits ext id rec
        → IsValid ext (record s { isas = GoMap.set s.isas id rec })
    stored_isa-IsValid id rec fits = record {
      distinct_isas = set-HasDistinctKeys s.isas id rec v.distinct_isas;
      distinct_subs = v.distinct_subs;
      isas_fit = set-AllEntries (IsaFits ext) s.isas id rec fits v.isas_fit;
      subs_fit = v.subs_fit;
    }

    pub stored_subscription-IsValid :
        (id : EntityId) (rec : SubscriptionRecord)
        → SubscriptionFits ext id rec
        → IsValid ext (record s { subscriptions = GoMap.set s.subscriptions id rec })
    stored_subscription-IsValid id rec fits = record {
      distinct_isas = v.distinct_isas;
      distinct_subs = set-HasDistinctKeys s.subscriptions id rec v.distinct_subs;
      isas_fit = v.isas_fit;
      subs_fit = set-AllEntries (SubscriptionFits ext) s.subscriptions id rec fits v.subs_fit;
    }

    pub deleted_isa-IsValid :
        (id : EntityId) → IsValid ext (record s { isas = GoMap.delete s.isas id })
    deleted_isa-IsValid id = record {
      distinct_isas = delete-HasDistinctKeys s.isas id v.distinct_isas;
      distinct_subs = v.distinct_subs;
      isas_fit = delete-AllEntries (IsaFits ext) s.isas id v.isas_fit;
      subs_fit = v.subs_fit;
    }

    pub deleted_subscription-IsValid :
        (id : EntityId) → IsValid ext (record s { subscriptions = GoMap.delete s.subscriptions id })
    deleted_subscription-IsValid id = record {
      distinct_isas = v.distinct_isas;
      distinct_subs = delete-HasDistinctKeys s.subscriptions id v.distinct_subs;
      isas_fit = v.isas_fit;
      subs_fit = delete-AllEntries (SubscriptionFits ext) s.subscriptions id v.subs_fit;
    }

    pub bumped-IsValid :
        (p : SubscriptionRecord → Bool)
        → IsValid ext (record s { subscriptions = GoMap.modify_where p bumped s.subscriptions })
    unfolding bumped
    bumped-IsValid p = record {
      distinct_isas = v.distinct_isas;
      distinct_subs = modify_where-HasDistinctKeys p bumped s.subscriptions v.distinct_subs;
      isas_fit = v.isas_fit;
      subs_fit =
          modify_where-AllEntries (SubscriptionFits ext) p bumped s.subscriptions
            (λ id rec fits. fits) v.subs_fit;
    }
