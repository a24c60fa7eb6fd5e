-- ===== src/Subscription/Records.antt =====
-- The rows of prisma/schema.prisma that subscriptions are about. A time is a number of milliseconds,
-- also where the code formats it by `toISOString`. An amount is read as in Base/Money.antt. The
-- limits and their overrides are natural numbers, as the schemas of every route that writes them
-- demand; `none` is a limit of null or none at all, which their readers treat alike.
use prime_detailer_backend.Base.{ℕ, String, Bool, Option, List}
use prime_detailer_backend.Base.Int.{ℤ}
use prime_detailer_backend.Access.Gate.{SubscriptionStatus}
use prime_detailer_backend.Access.Role.{UserRole}
use prime_detailer_backend.Pricing.Plan.{PlanLimits}
use prime_detailer_backend.Pricing.Calculation.{SubscriptionPricingConfig}

pub data SubscriptionPaymentStatus : Type 0 where
  paid : SubscriptionPaymentStatus
  pending : SubscriptionPaymentStatus
  processing : SubscriptionPaymentStatus
  payment_failed : SubscriptionPaymentStatus

pub record OrganizationSubscription : Type 0 where
  pub id : String
  pub plan_code : String
  pub plan_name : String
  pub status : SubscriptionStatus
  pub limits : PlanLimits
  pub max_branches_override : Option ℕ
  pub max_users_override : Option ℕ
  pub contact_us_url : Option String
  pub contact_phone : Option String
  pub upgrade_url : Option String
  pub term_months : ℕ
  pub starts_at : Option ℕ
  pub expires_at : Option ℕ
  pub current_period_end : Option ℕ
  pub payment_status : SubscriptionPaymentStatus
  pub last_payment_txn_id : Option String

-- The subscription is unique in the organisation.
pub record Organization : Type 0 where
  pub id : String
  pub name : String
  pub slug : Option String
  pub is_active : Bool
  pub subscription : Option OrganizationSubscription

pub record SubscriptionPayment : Type 0 where
  pub id : String
  pub organization_id : String
  pub subscription_id : String
  pub amount : Option ℤ
  pub currency : String
  pub status : SubscriptionPaymentStatus
  pub txn_reference : Option String
  pub method : Option String
  pub notes : Option String
  pub recorded_by : Option String
  pub verified_at : Option ℕ
  pub created_at : ℕ

pub record SubscriptionBill : Type 0 where
  pub organization_id : String
  pub subscription_id : String
  pub payment_id : Option String
  pub bill_number : String
  pub plan_name : String
  pub term_months : ℕ
  pub term_label : String
  pub period_start : ℕ
  pub period_end : ℕ
  pub base_amount : Option ℤ
  pub extra_branch_cost : Option ℤ
  pub extra_user_cost : Option ℤ
  pub extra_branches : Option ℕ
  pub extra_users : Option ℕ
  pub onboarding_fee : Option ℤ
  pub referral_discount : Option ℤ
  pub gst_percent : Option ℤ
  pub gst_amount : Option ℤ
  pub total_amount : Option ℤ
  pub amount : Option ℤ
  pub currency : String
  pub created_at : ℕ

-- What an entry of the audit log says of the time before or after.
pub data AuditDetails : Type 0 where
  subscription_terms :
      String → SubscriptionStatus → Option ℕ → SubscriptionPaymentStatus → ℕ → AuditDetails
  payment_state : SubscriptionPaymentStatus → AuditDetails
  renewal_request : SubscriptionPaymentStatus → String → ℕ → ℤ → AuditDetails
  payment_of : String → SubscriptionPaymentStatus → AuditDetails
  access_before : Option ℕ → SubscriptionPaymentStatus → Bool → AuditDetails
  access_after : ℕ → SubscriptionPaymentStatus → String → String → ℕ → ℤ → Bool → AuditDetails

pub record PlatformAuditLog : Type 0 where
  pub organization_id : String
  pub actor : String
  pub action : String
  pub before : AuditDetails
  pub after : AuditDetails

pub record User : Type 0 where
  pub organization_id : String
  pub is_active : Bool
  pub role : UserRole

pub record DynamicPlanDefinition : Type 0 where
  pub plan_code : String
  pub plan_name : String
  pub limits : PlanLimits

-- The tables, each in the order of insertion; of a branch, the organisation. The effective plan
-- catalogue and the resolved pricing stand for the settings of the platform.
pub record Database : Type 0 where
  pub organizations : List Organization
  pub subscription_payments : List SubscriptionPayment
  pub subscription_bills : List SubscriptionBill
  pub platform_audit_logs : List PlatformAuditLog
  pub branches : List String
  pub users : List User
  pub plan_catalog : List DynamicPlanDefinition
  pub subscription_pricing : SubscriptionPricingConfig

pub data Failure : Type 0 where
  app_http_error : ℕ → String → Failure
  plain_error : String → Failure
  unique_violation : Failure

-- How a call ends: with a value or an exception, and in both cases with the database as it is then.
pub data Result (A : Type 0) : Type 0 where
  returns : A → Database → Result A
  throws : Failure → Database → Result A
