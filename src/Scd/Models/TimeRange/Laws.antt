-- ===== src/Scd/Models/TimeRange/Laws.antt =====
-- The times that an adjustment accepts, said without the code, and those it gives.
use dss.Prelude.{◌+◌, ◌≤◌, ◌≡◌, refl, Option, none, some, arith}
use dss.Exec.{ok, deref}
use dss.Exec.Laws.{bind_result-ok}
use dss.External.{Time}
use dss.Scd.Models.Defs.{Subscription}
use dss.Scd.Models.TimeRange.{
  max_clock_skew, max_subscription_duration, adjusted_start, requested_end, adjusted_end,
  with_times, adjust_time_range,
}

-- What the start time may be.
abbrev pub StartsAt : Time → Option Time → Option Subscription → Time → Type 0
StartsAt now none none a = a ≡ now
StartsAt now none (some old) a = old.start_time ≡ some a
StartsAt now (some t) old a = (a ≡ t) × (now ≤ t + max_clock_skew)

-- What the end time may be.
abbrev pub EndsAtOrDayLater : Option Time → Time → Time → Type 0
EndsAtOrDayLater (some t) a b = b ≡ t
EndsAtOrDayLater none a b = b ≡ a + max_subscription_duration

abbrev pub EndsAt : Option Time → Option Subscription → Time → Time → Type 0
EndsAt (some t) old a b = b ≡ t
EndsAt none none a b = b ≡ a + max_subscription_duration
EndsAt none (some old) a b = EndsAtOrDayLater old.end_time a b

pub record IsAdjusted (now : Time) (sub : Subscription) (old : Option Subscription)
    (r : Subscription) : Type 0 where
  pub start : Time
  pub end : Time
  pub starts : StartsAt now sub.start_time old start
  pub ends : EndsAt sub.end_time old start end
  pub ordered : start ≤ end
  pub short : end ≤ start + max_subscription_duration
  pub result :
      r ≡ record sub { volume = record sub.volume { start_time = some start; end_time = some end } }

starts_lem :
    (now : Time) (s : Option Time) (old : Option Subscription) (m : Option Time) (a : Time)
    → adjusted_start now s old ≡ ok m
    → deref m ≡ ok a
    → StartsAt now s old a
unfolding adjusted_start
starts_lem now none none m a h d = ground arith
starts_lem now none (some old) none a h d = ground arith
starts_lem now none (some old) (some t) a h d = ground arith
starts_lem now (some t) old m a h d = ground arith

adjusted_end_lem : (e : Option Time) (a : Time) → EndsAtOrDayLater e a (adjusted_end a e)
unfolding adjusted_end
adjusted_end_lem (some t) a = refl
adjusted_end_lem none a = refl

ends_lem :
    (e : Option Time) (old : Option Subscription) (a : Time)
    → EndsAt e old a (adjusted_end a (requested_end e old))
unfolding requested_end adjusted_end
ends_lem (some t) old a = refl
ends_lem none none a = refl
ends_lem none (some old) a = adjusted_end_lem old.end_time a

with_times_lem :
    (sub : Subscription) (a b : Time) (r : Subscription)
    → with_times sub a b ≡ ok r
    → (a ≤ b)
      × (b ≤ a + max_subscription_duration)
      × (r ≡ record sub { volume = record sub.volume { start_time = some a; end_time = some b } })
unfolding with_times
with_times_lem sub a b r h = (ground arith, ground arith, ground arith)

-- If it succeeds, AdjustTimeRange changes only the two times, to a range of at most 24 hours that
-- does not end before it starts. It takes each time from the request, or else from the existing
-- subscription, or else starts now, and ends 24 hours later; a start time of the request is at most
-- five minutes past.
pub adjust-IsAdjusted :
    (now : Time) (sub : Subscription) (old : Option Subscription) (r : Subscription)
    → adjust_time_range now sub old ≡ ok r
    → IsAdjusted now sub old r
unfolding adjust_time_range
adjust-IsAdjusted now sub old r h =
    let (m, e0, h0) = bind_result-ok (adjusted_start now sub.start_time old) _ h in
    let (a, e1, h1) = bind_result-ok (deref m) _ h0 in
    let (p, q, e2) = with_times_lem sub a (adjusted_end a (requested_end sub.end_time old)) r h1 in
    record {
      start = a;
      end = adjusted_end a (requested_end sub.end_time old);
      starts = starts_lem now sub.start_time old m a e0 e1;
      ends = ends_lem sub.end_time old a;
      ordered = p;
      short = q;
      result = e2;
    }
