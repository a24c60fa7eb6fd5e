-- ===== src/Subscription/Listing.antt =====
-- The lists of bills: whose they are, how many, and in which order.
use prime_detailer_backend.Base.{
  ℕ, zero, suc, ◌≤◌, ◌≡◌, refl, ◌∙◌, ap, sym, subst, ◌++◌, Bool-cases, inl, inr, String, List, [],
  ◌∷◌, All, filter, length, if◌then◌else◌, arith, leb,
}
use mathlib.Core.List.{Permᴰ}
use mathlib.Core.List.Permᴰ
use prime_detailer_backend.Subscription.Records.{Database, SubscriptionBill}
use prime_detailer_backend.Subscription.Renewal.{bill_of_org}
use prime_detailer_backend.Subscription.Bills.{insert_newest, newest_bills, newest_first, take}

-- From the newest on: none is older than the next.
abbrev pub IsNewestFirst : List SubscriptionBill → Type 0
IsNewestFirst [] = Unit
IsNewestFirst (b ∷ bs) =
    All (λ (c : SubscriptionBill). c.created_at ≤ b.created_at) bs × IsNewestFirst bs

abbrev age : SubscriptionBill → ℕ
age b = b.created_at

insert-All :
    (P : SubscriptionBill → Type 0) (b : SubscriptionBill) (bs : List SubscriptionBill)
    → P b
    → All P bs
    → All P (insert_newest age b bs)
insert-All P b [] h hs = (h, tt)
insert-All P b (c ∷ bs) h hs = elim (Bool-cases (leb c.created_at b.created_at)) [
  | inl newer ↦ rw newer (h, hs)
  | inr older ↦ rw older (hs.0, insert-All P b bs h hs.1)
]

later_All :
    (x y : ℕ) (bs : List SubscriptionBill)
    → x ≤ y
    → All (λ (c : SubscriptionBill). c.created_at ≤ x) bs
    → All (λ (c : SubscriptionBill). c.created_at ≤ y) bs
later_All x y [] h hs = tt
later_All x y (b ∷ bs) h hs = (omega (arith, hs.0), later_All x y bs h hs.1)

insert-IsNewestFirst :
    (b : SubscriptionBill) (bs : List SubscriptionBill)
    → IsNewestFirst bs
    → IsNewestFirst (insert_newest age b bs)
insert-IsNewestFirst b [] h = (tt, tt)
insert-IsNewestFirst b (c ∷ bs) h = elim (Bool-cases (leb c.created_at b.created_at)) [
  | inl newer ↦
      let before : c.created_at ≤ b.created_at = ground arith in
      rw newer ((before, later_All c.created_at b.created_at bs before h.0), h)
  | inr older ↦
      let after : b.created_at ≤ c.created_at = ground arith in
      rw older (
        insert-All (λ (d : SubscriptionBill). d.created_at ≤ c.created_at) b bs after h.0,
        insert-IsNewestFirst b bs h.1,
      )
]

sorted-IsNewestFirst : (bs : List SubscriptionBill) → IsNewestFirst (newest_first age bs)
sorted-IsNewestFirst [] = tt
sorted-IsNewestFirst (b ∷ bs) =
    insert-IsNewestFirst b (newest_first age bs) (sorted-IsNewestFirst bs)

length-insert :
    (b : SubscriptionBill) (bs : List SubscriptionBill)
    → length (insert_newest age b bs) ≡ suc (length bs)
length-insert b [] = refl
length-insert b (c ∷ bs) = ground (arith, length-insert b bs)

length-sorted : (bs : List SubscriptionBill) → length (newest_first age bs) ≡ length bs
length-sorted [] = refl
length-sorted (b ∷ bs) = omega (arith, length-insert b (newest_first age bs), length-sorted bs)

take-All :
    (P : SubscriptionBill → Type 0) (n : ℕ) (bs : List SubscriptionBill)
    → All P bs
    → All P (take n bs)
take-All P zero bs h = tt
take-All P (suc n) [] h = tt
take-All P (suc n) (b ∷ bs) h = (h.0, take-All P n bs h.1)

take-IsNewestFirst :
    (n : ℕ) (bs : List SubscriptionBill) → IsNewestFirst bs → IsNewestFirst (take n bs)
take-IsNewestFirst zero bs h = tt
take-IsNewestFirst (suc n) [] h = tt
take-IsNewestFirst (suc n) (b ∷ bs) h = (
  take-All (λ (c : SubscriptionBill). c.created_at ≤ b.created_at) n bs h.0,
  take-IsNewestFirst n bs h.1,
)

length-take :
    (n : ℕ) (bs : List SubscriptionBill)
    → length (take n bs) ≡ (if leb (length bs) n then length bs else n)
length-take zero bs = ground arith
length-take (suc n) [] = ground arith
length-take (suc n) (b ∷ bs) = ground (arith, length-take n bs)

insert-Permᴰ :
    (b : SubscriptionBill) (bs : List SubscriptionBill) → Permᴰ (insert_newest age b bs) (b ∷ bs)
insert-Permᴰ b [] = Permᴰ.refl (b ∷ [])
insert-Permᴰ b (c ∷ bs) = elim (Bool-cases (leb c.created_at b.created_at)) [
  | inl newer ↦ rw newer (Permᴰ.refl (b ∷ c ∷ bs))
  | inr older ↦ rw older (Permᴰ.trans (Permᴰ.cons refl (insert-Permᴰ b bs)) (Permᴰ.swap refl refl))
]

sorted-Permᴰ : (bs : List SubscriptionBill) → Permᴰ (newest_first age bs) bs
sorted-Permᴰ [] = Permᴰ.nil
sorted-Permᴰ (b ∷ bs) =
    Permᴰ.trans (insert-Permᴰ b (newest_first age bs)) (Permᴰ.cons refl (sorted-Permᴰ bs))

-- What is left after the first `count`.
abbrev after : ℕ → List SubscriptionBill → List SubscriptionBill
after zero bs = bs
after (suc count) [] = []
after (suc count) (b ∷ bs) = after count bs

take-after : (n : ℕ) (bs : List SubscriptionBill) → take n bs ++ after n bs ≡ bs
take-after zero bs = refl
take-after (suc n) [] = refl
take-after (suc n) (b ∷ bs) = ap (λ rest. b ∷ rest) (take-after n bs)

after-All :
    (P : SubscriptionBill → Type 0) (n : ℕ) (bs : List SubscriptionBill)
    → All P bs
    → All P (after n bs)
after-All P zero bs h = h
after-All P (suc n) [] h = tt
after-All P (suc n) (b ∷ bs) h = after-All P n bs h.1

-- None of the first is older than this one.
abbrev pub IsNoNewerThan : List SubscriptionBill → SubscriptionBill → Type 0
IsNoNewerThan shown b = All (λ (s : SubscriptionBill). b.created_at ≤ s.created_at) shown

no_newer-none : (bs : List SubscriptionBill) → All (IsNoNewerThan []) bs
no_newer-none [] = tt
no_newer-none (b ∷ bs) = (tt, no_newer-none bs)

no_newer-one_more :
    (s : SubscriptionBill) (shown bs : List SubscriptionBill)
    → All (λ (b : SubscriptionBill). b.created_at ≤ s.created_at) bs
    → All (IsNoNewerThan shown) bs
    → All (IsNoNewerThan (s ∷ shown)) bs
no_newer-one_more s shown [] h hs = tt
no_newer-one_more s shown (b ∷ bs) h hs = ((h.0, hs.0), no_newer-one_more s shown bs h.1 hs.1)

after-no_newer :
    (n : ℕ) (bs : List SubscriptionBill)
    → IsNewestFirst bs
    → All (IsNoNewerThan (take n bs)) (after n bs)
after-no_newer zero bs h = no_newer-none bs
after-no_newer (suc n) [] h = tt
after-no_newer (suc n) (b ∷ bs) h =
    no_newer-one_more b (take n bs) (after n bs)
      (after-All (λ (c : SubscriptionBill). c.created_at ≤ b.created_at) n bs h.0)
      (after-no_newer n bs h.1)

-- These are the newest of some bills: with the others, which are no newer, they are all of them.
abbrev pub AreNewestOf : List SubscriptionBill → List SubscriptionBill → Type 0
AreNewestOf own shown =
    (older : List SubscriptionBill) × Permᴰ (shown ++ older) own × All (IsNoNewerThan shown) older

-- The bills that an organisation is shown are the newest of its own: in order from the newest on,
-- none that is left out is newer than one that is shown, and they are all of its bills if those are
-- fifty at most, or else fifty.
pub newest_bills-IsNewestFirst :
    (db : Database) (organization_id : String)
    → let own = filter (bill_of_org organization_id) db.subscription_bills in
      let shown = newest_bills db organization_id in
      IsNewestFirst shown
      × AreNewestOf own shown
      × (length shown ≡ (if leb (length own) 50 then length own else 50))
unfolding newest_bills
newest_bills-IsNewestFirst db organization_id =
    let mine = filter (bill_of_org organization_id) db.subscription_bills in
    let sorted = newest_first age mine in
    let all_of_them =
      subst (λ bs. Permᴰ bs mine) (sym (take-after 50 sorted)) (sorted-Permᴰ mine) in
    (
      take-IsNewestFirst 50 sorted (sorted-IsNewestFirst mine),
      (after 50 sorted, all_of_them, after-no_newer 50 sorted (sorted-IsNewestFirst mine)),
      length-take 50 sorted ∙ ap (λ n. if leb n 50 then n else 50) (length-sorted mine),
    )
