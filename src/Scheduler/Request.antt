-- ===== src/Scheduler/Request.antt =====
-- What a read request is (crates/copytrade-core/src/scheduler.rs): its kind, its subject, its key,
-- and the orders that the source derives for them. Timestamps and weights are u64 and u32.
use hyperliquid.Base.{
  ℕ, ◌≡◌, ◌↔◌, Bool, true, false, Option, none, some, List, [], ◌∷◌, compare, Ordering, String,
  arith,
}
use hyperliquid.BTreeMap.{Ord, then_with, string_ord, String-discrete, compare_string_eq}

pub data ReadRequestKind : Type 0 where
  source_state market_mids exchange_metadata order_book follower_state : ReadRequestKind
  follower_open_orders : ReadRequestKind

-- `ReadRequestKind::REQUIRED`
abbrev pub required : List ReadRequestKind
required =
    source_state ∷ market_mids ∷ exchange_metadata ∷ order_book ∷ follower_state
    ∷ follower_open_orders ∷ []

abbrev pub permits_reserved_budget : ReadRequestKind → Bool
permits_reserved_budget follower_state = true
permits_reserved_budget follower_open_orders = true
permits_reserved_budget _ = false

abbrev pub is_source_state : ReadRequestKind → Bool
is_source_state source_state = true
is_source_state _ = false

-- The position in the declaration, by which the derived `Ord` compares.
abbrev pub kind_rank : ReadRequestKind → ℕ
kind_rank source_state = 0
kind_rank market_mids = 1
kind_rank exchange_metadata = 2
kind_rank order_book = 3
kind_rank follower_state = 4
kind_rank follower_open_orders = 5

unfoldable pub ReadRequestKind-discrete : Discrete ReadRequestKind
ReadRequestKind-discrete = hlevel

abbrev pub compare_kind : ReadRequestKind → ReadRequestKind → Ordering
compare_kind a b = compare (kind_rank a) (kind_rank b)

pub compare_kind_eq : (a b : ReadRequestKind) → (compare_kind a b ≡ Ordering.eq) ↔ (a ≡ b)
compare_kind_eq a b = (λ h. ground arith, λ h. ground arith)

instance abbrev pub kind_ord : Ord ReadRequestKind
kind_ord = record { cmp = compare_kind; dec = ReadRequestKind-discrete; cmp_eq = compare_kind_eq }

pub data RequestSubject : Type 0 where
  candidate follower asset : String → RequestSubject
  market : RequestSubject

unfoldable pub RequestSubject-discrete : Discrete RequestSubject
unfolding String-discrete
RequestSubject-discrete = hlevel String-discrete

abbrev pub compare_subject : RequestSubject → RequestSubject → Ordering
compare_subject (candidate a) (candidate b) = string_ord.cmp a b
compare_subject (candidate _) _ = Ordering.lt
compare_subject (follower _) (candidate _) = Ordering.gt
compare_subject (follower a) (follower b) = string_ord.cmp a b
compare_subject (follower _) _ = Ordering.lt
compare_subject (asset a) (asset b) = string_ord.cmp a b
compare_subject (asset _) market = Ordering.lt
compare_subject (asset _) _ = Ordering.gt
compare_subject market market = Ordering.eq
compare_subject market _ = Ordering.gt

pub compare_subject_eq : (a b : RequestSubject) → (compare_subject a b ≡ Ordering.eq) ↔ (a ≡ b)
compare_subject_eq (candidate a) (candidate b) =
    (λ h. ground (arith, compare_string_eq a b), λ h. ground (arith, compare_string_eq a b))
compare_subject_eq (follower a) (follower b) =
    (λ h. ground (arith, compare_string_eq a b), λ h. ground (arith, compare_string_eq a b))
compare_subject_eq (asset a) (asset b) =
    (λ h. ground (arith, compare_string_eq a b), λ h. ground (arith, compare_string_eq a b))
compare_subject_eq a b = (λ h. ground arith, λ h. ground arith)

pub record RequestKey : Type 0 where
  pub subject : RequestSubject
  pub kind : ReadRequestKind

unfoldable pub RequestKey-discrete : Discrete RequestKey
unfolding RequestSubject-discrete ReadRequestKind-discrete
RequestKey-discrete = hlevel (RequestSubject-discrete, ReadRequestKind-discrete)

abbrev pub compare_key : RequestKey → RequestKey → Ordering
compare_key a b = then_with (compare_subject a.subject b.subject) (compare_kind a.kind b.kind)

pub compare_key_eq : (a b : RequestKey) → (compare_key a b ≡ Ordering.eq) ↔ (a ≡ b)
compare_key_eq a b = (
  λ h. ground (arith, compare_subject_eq a.subject b.subject, compare_kind_eq a.kind b.kind),
  λ h. ground (arith, compare_subject_eq a.subject b.subject, compare_kind_eq a.kind b.kind),
)

instance abbrev pub key_ord : Ord RequestKey
key_ord = record { cmp = compare_key; dec = RequestKey-discrete; cmp_eq = compare_key_eq }

pub data RequestPriority : Type 0 where
  low normal high critical : RequestPriority

abbrev pub priority_rank : RequestPriority → ℕ
priority_rank low = 0
priority_rank normal = 1
priority_rank high = 2
priority_rank critical = 3

pub data BudgetClass : Type 0 where
  normal source_polling critical : BudgetClass

pub data SourceTier : Type 0 where
  active inactive : SourceTier

unfoldable pub SourceTier-discrete : Discrete SourceTier
SourceTier-discrete = hlevel

abbrev pub compare_tier : SourceTier → SourceTier → Ordering
compare_tier active inactive = Ordering.lt
compare_tier inactive active = Ordering.gt
compare_tier _ _ = Ordering.eq

pub compare_tier_eq : (a b : SourceTier) → (compare_tier a b ≡ Ordering.eq) ↔ (a ≡ b)
compare_tier_eq a b = (λ h. ground arith, λ h. ground arith)

instance abbrev pub tier_ord : Ord SourceTier
tier_ord = record { cmp = compare_tier; dec = SourceTier-discrete; cmp_eq = compare_tier_eq }

pub record ScheduledReadRequest : Type 0 where
  pub key : RequestKey
  pub kind : ReadRequestKind
  pub candidate_id : Option String
  pub source_tier : Option SourceTier
  pub weight : ℕ
  pub priority : RequestPriority
  pub budget_class : BudgetClass
  pub created_at : ℕ
  pub not_before : ℕ
  pub expires_at : ℕ
  pub attempt : ℕ

-- The candidate that a subject names.
abbrev pub subject_candidate : RequestSubject → Option String
subject_candidate (candidate c) = some c
subject_candidate _ = none

abbrev pub is_critical_class : BudgetClass → Bool
is_critical_class BudgetClass.critical = true
is_critical_class _ = false

abbrev pub is_source_class : BudgetClass → Bool
is_source_class source_polling = true
is_source_class _ = false

abbrev pub is_normal_class : BudgetClass → Bool
is_normal_class BudgetClass.normal = true
is_normal_class _ = false

abbrev pub is_critical_priority : RequestPriority → Bool
is_critical_priority RequestPriority.critical = true
is_critical_priority _ = false
