-- ===== src/Subscription/History.antt =====
-- What holds after any sequence of calls.
use prime_detailer_backend.Base.{
  ◌≡◌, ◌≢◌, refl, ap, ◌∙◌, sym, String, Bool, true, false, Option, none, some, List, [], ◌∷◌, ◌++◌,
  All, filter, if◌then◌else◌, arith, update_where,
}
use prime_detailer_backend.Base.Text.{str_eq}
use text.Mathlib.TextEquality.{eq_iff}
use mathlib.Core.Option
use prime_detailer_backend.Subscription.Records.{
  Database, Organization, OrganizationSubscription, SubscriptionBill,
}
use prime_detailer_backend.Subscription.Entitlement.{find_organization}
use prime_detailer_backend.Subscription.Notes.{BreakdownJson}
use prime_detailer_backend.Subscription.Renewal.{bill_of_org}
use prime_detailer_backend.Subscription.Rows.{find-update_organization-other}
use prime_detailer_backend.Subscription.Calls.{Call, organization_of, run, run_all}
use prime_detailer_backend.Subscription.Writes.{
  IsMirrored, Writes, run-Writes, stay, write_active, write_audit, write_bill, write_payments,
  write_subscription,
}

-- What belongs to an organisation: its row and its bills.
abbrev pub SameFor : String → Database → Database → Type 0
SameFor other db db' =
    (find_organization db' other ≡ find_organization db other)
    × (filter (bill_of_org other) db'.subscription_bills
        ≡ filter (bill_of_org other) db.subscription_bills)

other_bill :
    (other id : String) (bill : SubscriptionBill) (bills : List SubscriptionBill)
    → id ≢ other
    → bill.organization_id ≡ id
    → filter (bill_of_org other) (bills ++ (bill ∷ [])) ≡ filter (bill_of_org other) bills
other_bill other id bill [] apart own = ground (arith, eq_iff bill.organization_id other)
other_bill other id bill (b ∷ bs) apart own = ground (arith, other_bill other id bill bs apart own)

Writes-SameFor :
    (id other : String) (db db' : Database) → id ≢ other → Writes id db db' → SameFor other db db'
Writes-SameFor id other db _ apart stay = (refl, refl)
Writes-SameFor id other db db' apart (write_subscription f keeps rest) =
    let (same_org, same_bills) = Writes-SameFor id other _ db' apart rest in
    (
      same_org
          ∙ find-update_organization-other db id other
              (λ (o : Organization). record o { subscription = Option.map f o.subscription })
              (λ o. refl) apart,
      same_bills,
    )
Writes-SameFor id other db db' apart (write_active rest) =
    let (same_org, same_bills) = Writes-SameFor id other _ db' apart rest in
    (
      same_org
          ∙ find-update_organization-other db id other
              (λ (o : Organization). record o { is_active = true }) (λ o. refl) apart,
      same_bills,
    )
Writes-SameFor id other db db' apart (write_payments payments rest) =
    Writes-SameFor id other _ db' apart rest
Writes-SameFor id other db db' apart (write_audit entries rest) =
    Writes-SameFor id other _ db' apart rest
Writes-SameFor id other db db' apart (write_bill bill own rest) =
    let (same_org, same_bills) = Writes-SameFor id other _ db' apart rest in
    (same_org, same_bills ∙ other_bill other id bill db.subscription_bills apart own)

-- No call about other organisations changes the row, the subscription or the bills of an
-- organisation.
pub run_all-SameFor :
    (json : BreakdownJson) (db : Database) (calls : List Call) (other : String)
    → All (λ call. organization_of call ≢ other) calls
    → SameFor other db (run_all json db calls)
unfolding run_all
run_all-SameFor json db [] other apart = (refl, refl)
run_all-SameFor json db (call ∷ calls) other apart =
    let first =
      Writes-SameFor (organization_of call) other db (run json db call) apart.0
        (run-Writes json db call) in
    let rest = run_all-SameFor json (run json db call) calls other apart.1 in
    (rest.0 ∙ first.0, rest.1 ∙ first.1)

abbrev IsMirroredIn : Option OrganizationSubscription → Type 0
IsMirroredIn none = Unit
IsMirroredIn (some sub) = IsMirrored sub

-- Every subscription has its two end columns in agreement.
abbrev pub AllMirrored : Database → Type 0
AllMirrored db = All (λ (o : Organization). IsMirroredIn o.subscription) db.organizations

IsMirroredIn-map :
    (f : OrganizationSubscription → OrganizationSubscription)
    (found : Option OrganizationSubscription)
    → ((s : OrganizationSubscription) → IsMirrored s → IsMirrored (f s))
    → IsMirroredIn found
    → IsMirroredIn (Option.map f found)
IsMirroredIn-map f none keeps h = tt
IsMirroredIn-map f (some sub) keeps h = keeps sub h

All-update_where :
    (P : Organization → Type 0) (p : Organization → Bool) (f : Organization → Organization)
    (orgs : List Organization)
    → ((o : Organization) → P o → P (f o))
    → All P orgs
    → All P (update_where p f orgs)
All-update_where P p f [] keeps h = tt
All-update_where P p f (o ∷ orgs) keeps h = (choice (p o), All-update_where P p f orgs keeps h.1)
  where
    choice : (b : Bool) → P (if b then f o else o)
    choice true = keeps o h.0
    choice false = h.0

Writes-AllMirrored :
    (id : String) (db db' : Database) → AllMirrored db → Writes id db db' → AllMirrored db'
Writes-AllMirrored id db _ h stay = h
Writes-AllMirrored id db db' h (write_subscription f keeps rest) =
    Writes-AllMirrored id _ db'
      (All-update_where (λ (o : Organization). IsMirroredIn o.subscription)
        (λ (o : Organization). str_eq o.id id)
        (λ (o : Organization). record o { subscription = Option.map f o.subscription })
        db.organizations (λ o m. IsMirroredIn-map f o.subscription keeps m) h)
      rest
Writes-AllMirrored id db db' h (write_active rest) =
    Writes-AllMirrored id _ db'
      (All-update_where (λ (o : Organization). IsMirroredIn o.subscription)
        (λ (o : Organization). str_eq o.id id) (λ (o : Organization). record o { is_active = true })
        db.organizations (λ o m. m) h)
      rest
Writes-AllMirrored id db db' h (write_payments payments rest) = Writes-AllMirrored id _ db' h rest
Writes-AllMirrored id db db' h (write_audit entries rest) = Writes-AllMirrored id _ db' h rest
Writes-AllMirrored id db db' h (write_bill bill own rest) = Writes-AllMirrored id _ db' h rest

-- The legacy column for the end of the period mirrors the other one in every subscription, after any
-- calls, if it did before.
pub run_all-AllMirrored :
    (json : BreakdownJson) (db : Database) (calls : List Call)
    → AllMirrored db
    → AllMirrored (run_all json db calls)
unfolding run_all
run_all-AllMirrored json db [] h = h
run_all-AllMirrored json db (call ∷ calls) h =
    run_all-AllMirrored json (run json db call) calls
      (Writes-AllMirrored (organization_of call) db (run json db call) h (run-Writes json db call))

-- The first list is the beginning of the second.
abbrev pub Extends : List SubscriptionBill → List SubscriptionBill → Type 0
Extends before after = (added : List SubscriptionBill) × (after ≡ before ++ added)

append_nil : (bills : List SubscriptionBill) → bills ++ [] ≡ bills
append_nil [] = refl
append_nil (b ∷ bs) = ap (λ l. b ∷ l) (append_nil bs)

append_assoc : (xs ys zs : List SubscriptionBill) → (xs ++ ys) ++ zs ≡ xs ++ (ys ++ zs)
append_assoc [] ys zs = refl
append_assoc (x ∷ xs) ys zs = ap (λ l. x ∷ l) (append_assoc xs ys zs)

Extends-trans : (a b c : List SubscriptionBill) → Extends a b → Extends b c → Extends a c
Extends-trans a b c (first, e) (second, e') =
    (first ++ second, e' ∙ ap (λ l. l ++ second) e ∙ append_assoc a first second)

Extends-refl : (bills : List SubscriptionBill) → Extends bills bills
Extends-refl bills = ([], sym (append_nil bills))

Writes-Extends :
    (id : String) (db db' : Database)
    → Writes id db db'
    → Extends db.subscription_bills db'.subscription_bills
Writes-Extends id db _ stay = Extends-refl db.subscription_bills
Writes-Extends id db db' (write_subscription f keeps rest) = Writes-Extends id _ db' rest
Writes-Extends id db db' (write_active rest) = Writes-Extends id _ db' rest
Writes-Extends id db db' (write_payments payments rest) = Writes-Extends id _ db' rest
Writes-Extends id db db' (write_audit entries rest) = Writes-Extends id _ db' rest
Writes-Extends id db db' (write_bill bill own rest) =
    Extends-trans db.subscription_bills (db.subscription_bills ++ (bill ∷ []))
      db'.subscription_bills (bill ∷ [], refl) (Writes-Extends id _ db' rest)

-- Bills are only added: no call changes or removes one, nor their order.
pub run_all-Extends :
    (json : BreakdownJson) (db : Database) (calls : List Call)
    → Extends db.subscription_bills (run_all json db calls).subscription_bills
unfolding run_all
run_all-Extends json db [] = Extends-refl db.subscription_bills
run_all-Extends json db (call ∷ calls) =
    let after = run json db call in
    Extends-trans db.subscription_bills after.subscription_bills
      (run_all json after calls).subscription_bills
      (Writes-Extends (organization_of call) db after (run-Writes json db call))
      (run_all-Extends json after calls)
