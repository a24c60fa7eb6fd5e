-- ===== src/Subscription/Rows.antt =====
-- What is found in the tables after they were updated.
use prime_detailer_backend.Base.{
  String, [], ◌∷◌, true, false, ◌&&◌, ◌≡◌, ◌≢◌, refl, ap, ◌∙◌, sym, Option, none, some, List, find,
  find-update_where, find-update_where-other, arith, update_where, Option-cases, inl, inr,
}
use prime_detailer_backend.Base.Text.{str_eq}
use prime_detailer_backend.Subscription.Records.{
  Database, Failure, Organization, OrganizationSubscription, Result, SubscriptionPayment, returns,
  throws,
}
use prime_detailer_backend.Subscription.Entitlement.{find_organization, subscribed}
use prime_detailer_backend.Subscription.Patch.{
  found_or, with_subscription, update_organization, update_subscription,
}
use prime_detailer_backend.Subscription.Verify.{find_payment, update_payment}
use text.Mathlib.TextEquality.{eq_iff}
use mathlib.Core.Option

pub throws-returns :
    {A : Type 0} (failure : Failure) (db : Database) (a : A) (db' : Database)
    → throws failure db ≡ returns a db'
    → ⊥
throws-returns failure db a db' h = cc

-- An organisation with a subscription, found by its id.
abbrev pub Found : Database → String → Organization → OrganizationSubscription → Type 0
Found db id org sub = (find_organization db id ≡ some org) × (org.subscription ≡ some sub)

paired :
    (o org : Organization) (found : Option OrganizationSubscription)
    (sub : OrganizationSubscription)
    → Option.map {B = Organization × OrganizationSubscription} (λ s. (o, s)) found ≡ some (org, sub)
    → (o ≡ org) × (found ≡ some sub)
paired o org none sub h = cc
paired o org (some s) sub h = (cc, cc)

subscribed-parts :
    (found : Option Organization) (org : Organization) (sub : OrganizationSubscription)
    → subscribed found ≡ some (org, sub)
    → (found ≡ some org) × (org.subscription ≡ some sub)
subscribed-parts none org sub h = cc
subscribed-parts (some o) org sub h =
    let (same, found) = paired o org o.subscription sub h in
    (ap some same, ap (λ (p : Organization). p.subscription) (sym same) ∙ found)

pub subscribed-Found :
    (db : Database) (id : String) (org : Organization) (sub : OrganizationSubscription)
    → subscribed (find_organization db id) ≡ some (org, sub)
    → Found db id org sub
subscribed-Found db id org sub h = subscribed-parts (find_organization db id) org sub h

pub Found-subscribed :
    (db : Database) (id : String) (org : Organization) (sub : OrganizationSubscription)
    → Found db id org sub
    → subscribed (find_organization db id) ≡ some (org, sub)
Found-subscribed db id org sub h = rw h.0 (rw h.1 refl)

pub with_subscription-Found :
    {A : Type 0} (db : Database) (id : String) (missing : Failure)
    (body : Organization → OrganizationSubscription → Result A) (org : Organization)
    (sub : OrganizationSubscription)
    → Found db id org sub
    → with_subscription db id missing body ≡ body org sub
with_subscription-Found db id missing body org sub h =
    ap (found_or db missing body) (Found-subscribed db id org sub h)

-- A call that returned has found the organisation and its subscription.
pub with_subscription-returns :
    {A : Type 0} (db : Database) (id : String) (missing : Failure)
    (body : Organization → OrganizationSubscription → Result A) (a : A) (db' : Database)
    → with_subscription db id missing body ≡ returns a db'
    → (org : Organization) × (sub : OrganizationSubscription) × Found db id org sub
      × (body org sub ≡ returns a db')
with_subscription-returns db id missing body a db' h =
    elim (Option-cases (subscribed (find_organization db id))) [
      | inl none_there ↦
          let e = ap (found_or db missing body) none_there in
          absurd (throws-returns missing db a db' (sym e ∙ h))
      | inr ((org, sub), there) ↦
          let e = ap (found_or db missing body) there in
          (org, sub, subscribed-Found db id org sub there, sym e ∙ h)
    ]

pub find-update_organization :
    (db : Database) (id : String) (f : Organization → Organization)
    → ((o : Organization) → (f o).id ≡ o.id)
    → find_organization (update_organization id f db) id ≡ Option.map f (find_organization db id)
find-update_organization db id f keeps =
    find-update_where (λ (o : Organization). str_eq o.id id) f db.organizations
      (λ o. ap (λ i. str_eq i id) (keeps o))

-- An update of one organisation does not change what is found of another.
pub find-update_organization-other :
    (db : Database) (id other : String) (f : Organization → Organization)
    → ((o : Organization) → (f o).id ≡ o.id)
    → id ≢ other
    → find_organization (update_organization id f db) other ≡ find_organization db other
find-update_organization-other db id other f keeps apart =
    find-update_where-other (λ (o : Organization). str_eq o.id id)
      (λ (o : Organization). str_eq o.id other) f db.organizations (λ o h. differs o h)
  where
    differs :
        (o : Organization)
        → str_eq o.id id ≡ true
        → (str_eq o.id other ≡ false) × (str_eq (f o).id other ≡ false)
    differs o h =
        let own = (eq_iff o.id id).0 h in
        let else_false : str_eq o.id other ≡ false =
          ground (arith, own, apart, eq_iff o.id other) in
        (else_false, ap (λ i. str_eq i other) (keeps o) ∙ else_false)

pub update_subscription-Found :
    (db : Database) (id : String) (f : OrganizationSubscription → OrganizationSubscription)
    (org : Organization) (sub : OrganizationSubscription)
    → Found db id org sub
    → Found (update_subscription id f db) id (record org { subscription = some (f sub) }) (f sub)
update_subscription-Found db id f org sub h =
    let e =
      find-update_organization db id
        (λ (o : Organization). record o { subscription = Option.map f o.subscription })
        (λ o. refl) in
    (e ∙ rw h.0 (ap (λ s. some (record org { subscription = Option.map f s })) h.1), refl)

pub find-update_payment :
    (db : Database) (id org_id : String) (f : SubscriptionPayment → SubscriptionPayment)
    → ((p : SubscriptionPayment) → ((f p).id ≡ p.id) × ((f p).organization_id ≡ p.organization_id))
    → find_payment (update_payment id f db) id org_id ≡ Option.map f (find_payment db id org_id)
find-update_payment db id org_id f keeps = find-within db.subscription_payments
  where
    find-within :
        (ps : List SubscriptionPayment)
        → find
            (λ (p : SubscriptionPayment). str_eq p.id id && str_eq p.organization_id org_id)
            (update_where (λ (p : SubscriptionPayment). str_eq p.id id) f ps)
          ≡ Option.map f (
              find
                (λ (p : SubscriptionPayment). str_eq p.id id && str_eq p.organization_id org_id)
                ps)
    find-within [] = refl
    find-within (p ∷ ps) = ground (arith, find-within ps, keeps p)
