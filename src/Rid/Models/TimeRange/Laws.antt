-- ===== src/Rid/Models/TimeRange/Laws.antt =====
-- The times that an adjustment accepts, said without the code, and those it gives.
use dss.Prelude.{◌+◌, ◌≤◌, ◌≡◌, refl, Option, none, some, arith}
use dss.Exec.{ok, deref}
use dss.Exec.Laws.{bind_result-ok}
use dss.External.{Time}
use dss.Models.{CellsVolume4D}
use dss.Rid.Models.{Isa, Subscription}
use dss.Rid.Models.TimeRange.{
  max_clock_skew, max_subscription_duration, requested_start, requested_end, with_range, isa_range,
  adjust_isa, default_end, subscription_range, adjust_subscription,
}

-- What the start time may be: that of the request, at most five minutes past, or the stored one, or
-- the present.
abbrev pub StartsAt : Time → Option Time → Option CellsVolume4D → Time → Type 0
StartsAt now (some t) old a = (a ≡ t) × (now ≤ t + max_clock_skew)
StartsAt now none (some old) a = old.start_time ≡ some a
StartsAt now none none a = a ≡ now

-- An ISA has an end time of the request, or the stored one.
pub record IsAdjustedIsa (now : Time) (isa : Isa) (old : Option CellsVolume4D) (r : Isa)
    : Type 0 where
  pub start : Time
  pub end : Time
  pub starts : StartsAt now isa.start_time old start
  pub ends : requested_end isa.end_time old ≡ some end
  pub ordered : start ≤ end
  pub result : r ≡ record isa { volume = with_range isa.volume start end }

-- A subscription may also end a day after its start.
abbrev pub EndsAt : Option Time → Time → Time → Type 0
EndsAt (some t) start end = end ≡ t
EndsAt none start end = end ≡ start + max_subscription_duration

pub record IsAdjustedSubscription (now : Time) (sub : Subscription) (old : Option CellsVolume4D)
    (r : Subscription) : Type 0 where
  pub start : Time
  pub end : Time
  pub starts : StartsAt now sub.start_time old start
  pub ends : EndsAt (requested_end sub.end_time old) start end
  pub ordered : start ≤ end
  pub short : end ≤ start + max_subscription_duration
  pub result : r ≡ record sub { volume = with_range sub.volume start end }

starts_lem :
    (now : Time) (s : Option Time) (old : Option CellsVolume4D) (m : Option Time) (a : Time)
    → requested_start now s old ≡ ok m
    → m ≡ some a
    → StartsAt now s old a
unfolding requested_start
starts_lem now (some t) old m a h d = ground arith
starts_lem now none (some old) m a h d = ground arith
starts_lem now none none m a h d = ground arith

deref_lem : (m : Option Time) (a : Time) → deref m ≡ ok a → m ≡ some a
deref_lem none a h = ground arith
deref_lem (some t) a h = ground arith

record IsRange (v : CellsVolume4D) (s e : Option Time) (r : CellsVolume4D) : Type 0 where
  start : Time
  end : Time
  s_eq : s ≡ some start
  e_eq : e ≡ some end
  ordered : start ≤ end
  result : r ≡ with_range v start end

isa_range_lem :
    (v : CellsVolume4D) (s e : Option Time) (r : CellsVolume4D)
    → isa_range v s e ≡ ok r
    → IsRange v s e r
unfolding isa_range
isa_range_lem v s none r h = absurd (ground arith)
isa_range_lem v none (some end) r h = absurd (ground arith)
isa_range_lem v (some start) (some end) r h = record {
  start = start;
  end = end;
  s_eq = refl;
  e_eq = refl;
  ordered = ground arith;
  result = ground arith;
}

pub adjust_isa_lem :
    (now : Time) (isa : Isa) (old : Option CellsVolume4D) (r : Isa)
    → adjust_isa now isa old ≡ ok r
    → IsAdjustedIsa now isa old r
unfolding adjust_isa
adjust_isa_lem now isa old r h =
    let (m, e0, h0) = bind_result-ok (requested_start now isa.start_time old) _ h in
    let (v, e1, h1) =
      bind_result-ok (isa_range isa.volume m (requested_end isa.end_time old)) _ h0 in
    let q = isa_range_lem isa.volume m (requested_end isa.end_time old) v e1 in
    record {
      start = q.start;
      end = q.end;
      starts = starts_lem now isa.start_time old m q.start e0 q.s_eq;
      ends = q.e_eq;
      ordered = q.ordered;
      result = cc (h1, q.result);
    }

ends_lem : (e : Option Time) (a : Time) → EndsAt e a (default_end a e)
unfolding default_end
ends_lem (some t) a = refl
ends_lem none a = refl

subscription_range_lem :
    (v : CellsVolume4D) (a b : Time) (r : CellsVolume4D)
    → subscription_range v a b ≡ ok r
    → (a ≤ b) × (b ≤ a + max_subscription_duration) × (r ≡ with_range v a b)
unfolding subscription_range
subscription_range_lem v a b r h = (ground arith, ground arith, ground arith)

pub adjust_subscription_lem :
    (now : Time) (sub : Subscription) (old : Option CellsVolume4D) (r : Subscription)
    → adjust_subscription now sub old ≡ ok r
    → IsAdjustedSubscription now sub old r
unfolding adjust_subscription
adjust_subscription_lem now sub old r h =
    let (m, e0, h0) = bind_result-ok (requested_start now sub.start_time old) _ h in
    let (a, e1, h1) = bind_result-ok (deref m) _ h0 in
    let b = default_end a (requested_end sub.end_time old) in
    let (v, e2, h2) = bind_result-ok (subscription_range sub.volume a b) _ h1 in
    let (p, q, same) = subscription_range_lem sub.volume a b v e2 in
    record {
      start = a;
      end = b;
      starts = starts_lem now sub.start_time old m a e0 (deref_lem m a e1);
      ends = ends_lem (requested_end sub.end_time old) a;
      ordered = p;
      short = q;
      result = cc (h2, same);
    }
