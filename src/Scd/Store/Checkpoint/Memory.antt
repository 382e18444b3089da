-- ===== src/Scd/Store/Checkpoint/Memory.antt =====
-- What the clones and the writes in place do to the records that a table of pointers holds.
use mathlib.Core.List.{Memᴰ}
use mathlib.Core.List.Memᴰ
use dss.Prelude.{
  ℕ, ◌≡◌, ◌≢◌, refl, sym, ◌∙◌, subst, ◌⊎◌, inl, inr, String, Bool, [], ◌∷◌, ◌==◌, nat_eq,
  Bool-cases, nat_eq_iff, if◌then◌else◌,
}
use dss.GoMap
use dss.GoMap.{GoMap}
use dss.Scd.Store.Records.{SubscriptionRecord}
use dss.Scd.Store.Subscriptions.{bumped}
use dss.Scd.Store.Checkpoint.Pointers.{Heap, write, raise_at, raise_loop, read}

abbrev pub Holds : GoMap ℕ → ℕ → Type 0
Holds m q = Memᴰ q (GoMap.values m)

-- No two ids have one pointer.
abbrev pub AreDistinct : GoMap ℕ → Type 0
AreDistinct [] = Unit
AreDistinct ((id, q) ∷ m) = (¬ Holds m q) × AreDistinct m

pub read-same :
    (h h' : Heap) (m : GoMap ℕ) → ((q : ℕ) → Holds m q → h'.at_ q ≡ h.at_ q) → read h' m ≡ read h m
unfolding read
read-same h h' [] same = refl
read-same h h' ((id, q) ∷ m) same =
    rw (same q (Memᴰ.head refl), read-same h h' m (λ x n. same x (Memᴰ.tail n))) refl

pub read-set :
    (h : Heap) (m : GoMap ℕ) (id : String) (q : ℕ)
    → read h (GoMap.set m id q) ≡ GoMap.set (read h m) id (h.at_ q)
unfolding read GoMap.set
read-set h [] id q = refl
read-set h ((j, p) ∷ m) id q = elim (Bool-cases (j == id)) [
  | inl e ↦ rw e refl
  | inr e ↦ rw e (rw (read-set h m id q) refl)
]

pub read-delete :
    (h : Heap) (m : GoMap ℕ) (id : String) → read h (GoMap.delete m id) ≡ GoMap.delete (read h m) id
unfolding read GoMap.delete
read-delete h [] id = refl
read-delete h ((j, p) ∷ m) id = elim (Bool-cases (j == id)) [
  | inl e ↦ rw e (read-delete h m id)
  | inr e ↦ rw e (rw (read-delete h m id) refl)
]

pub set-Holds :
    (m : GoMap ℕ) (id : String) (p q : ℕ) → Holds (GoMap.set m id p) q → (q ≡ p) ⊎ Holds m q
unfolding GoMap.set
set-Holds [] id p q n = elim (Memᴰ.cases_cons n) [ inl e ↦ inl e | inr k ↦ inr k ]
set-Holds ((j, x) ∷ m) id p q n = elim (Bool-cases (j == id)) [
  | inl e ↦ elim (Memᴰ.cases_cons (rw e at n)) [ inl s ↦ inl s | inr k ↦ inr (Memᴰ.tail k) ]
  | inr e ↦ elim (Memᴰ.cases_cons (rw e at n)) [
    | inl s ↦ inr (Memᴰ.head s)
    | inr k ↦ elim (set-Holds m id p q k) [ inl s ↦ inl s | inr l ↦ inr (Memᴰ.tail l) ]
  ]
]

pub delete-Holds : (m : GoMap ℕ) (id : String) (q : ℕ) → Holds (GoMap.delete m id) q → Holds m q
unfolding GoMap.delete
delete-Holds [] id q n = n
delete-Holds ((j, x) ∷ m) id q n = elim (Bool-cases (j == id)) [
  | inl e ↦ Memᴰ.tail (delete-Holds m id q (rw e at n))
  | inr e ↦ elim (Memᴰ.cases_cons (rw e at n)) [
    | inl s ↦ Memᴰ.head s
    | inr k ↦ Memᴰ.tail (delete-Holds m id q k)
  ]
]

pub set-AreDistinct :
    (m : GoMap ℕ) (id : String) (p : ℕ)
    → ¬ Holds m p
    → AreDistinct m
    → AreDistinct (GoMap.set m id p)
unfolding GoMap.set
set-AreDistinct [] id p new d = (Memᴰ.not-nil, tt)
set-AreDistinct ((j, x) ∷ m) id p new d = elim (Bool-cases (j == id)) [
  | inl e ↦ rw e (λ n. new (Memᴰ.tail n), d.1)
  | inr e ↦ rw e (
    λ n. elim (set-Holds m id p x n) [ inl s ↦ new (Memᴰ.head (sym s)) | inr k ↦ d.0 k ],
    set-AreDistinct m id p (λ n. new (Memᴰ.tail n)) d.1,
  )
]

pub delete-AreDistinct :
    (m : GoMap ℕ) (id : String) → AreDistinct m → AreDistinct (GoMap.delete m id)
unfolding GoMap.delete
delete-AreDistinct [] id d = d
delete-AreDistinct ((j, x) ∷ m) id d = elim (Bool-cases (j == id)) [
  | inl e ↦ rw e (delete-AreDistinct m id d.1)
  | inr e ↦ rw e (λ n. d.0 (delete-Holds m id x n), delete-AreDistinct m id d.1)
]

raise_at-other :
    (notified : SubscriptionRecord → Bool) (q x : ℕ) (h : Heap)
    → x ≢ q
    → (raise_at notified q h).at_ x ≡ h.at_ x
unfolding raise_at write
raise_at-other notified q x h other = elim (Bool-cases (nat_eq x q)) [
  | inl e ↦ absurd (other ((nat_eq_iff x q).0 e))
  | inr e ↦ elim (Bool-cases (notified (h.at_ q))) [ inl y ↦ rw y (rw e refl) | inr y ↦ rw y refl ]
]

raise_at-at :
    (notified : SubscriptionRecord → Bool) (q : ℕ) (h : Heap)
    → (raise_at notified q h).at_ q ≡ (if notified (h.at_ q) then bumped (h.at_ q) else h.at_ q)
unfolding raise_at write
raise_at-at notified q h = elim (Bool-cases (notified (h.at_ q))) [
  | inl y ↦ rw y (rw ((nat_eq_iff q q).1 refl) refl)
  | inr y ↦ rw y refl
]

raise_at-next :
    (notified : SubscriptionRecord → Bool) (q : ℕ) (h : Heap)
    → (raise_at notified q h).next ≡ h.next
unfolding raise_at write
raise_at-next notified q h = elim (Bool-cases (notified (h.at_ q))) [
  | inl y ↦ rw y refl
  | inr y ↦ rw y refl
]

module _ (notified : SubscriptionRecord → Bool) where
  pub raise_loop-next : (m : GoMap ℕ) (h : Heap) → (raise_loop notified m h).next ≡ h.next
  unfolding raise_loop
  raise_loop-next [] h = refl
  raise_loop-next ((id, q) ∷ m) h =
      raise_loop-next m (raise_at notified q h) ∙ raise_at-next notified q h

  -- A loop writes to the pointers of its table only.
  pub raise_loop-other :
      (m : GoMap ℕ) (h : Heap) (x : ℕ) → ¬ Holds m x → (raise_loop notified m h).at_ x ≡ h.at_ x
  unfolding raise_loop
  raise_loop-other [] h x out = refl
  raise_loop-other ((id, q) ∷ m) h x out =
      raise_loop-other m (raise_at notified q h) x (λ n. out (Memᴰ.tail n))
      ∙ raise_at-other notified q x h (λ e. out (Memᴰ.head e))

  pub read-raise_loop :
      (m : GoMap ℕ) (h : Heap)
      → AreDistinct m
      → read (raise_loop notified m h) m ≡ GoMap.modify_where notified bumped (read h m)
  unfolding raise_loop read GoMap.modify_where
  read-raise_loop [] h d = refl
  read-raise_loop ((id, q) ∷ m) h d =
      let h1 = raise_at notified q h in
      let rest : read h1 m ≡ read h m =
        read-same h h1 m (λ x n. raise_at-other notified q x h (λ e. d.0 (subst (Holds m) e n))) in
      rw (raise_loop-other m h1 q d.0, raise_at-at notified q h, read-raise_loop m h1 d.1, rest)
        refl
