-- ===== src/Exit/Laws.antt =====
-- What an accepted exit plan does to the position that it is planned for.
use mathlib.Core.Logic.{if_pos, if_neg}
use hyperliquid.Base.{
  fail_if-ok, Bool-cases, ◌≡◌, ◌≢◌, ◌⊎◌, none, Bool, true, false, not, ◌||◌, Option, some, String,
  Result, ok, err, >>=-ok, ok_or-ok, ok_injective, inl, inr, refl, subst, arith, ◌∙◌, sym,
}
use hyperliquid.Decimal.{Decimal, lt, min, is_zero, zero_of, and_then}
use hyperliquid.Identity.{Side, buy, sell}
use hyperliquid.Shadow.{ShadowError, ShadowMarketSnapshot, validate_book, levels_for}
use hyperliquid.Shadow.Pricing.{
  MarketableIocPlan, plan_marketable_ioc, worst_required, round_price_outward, limit_of,
  executable_depth, factor, is_bad_request,
}
use hyperliquid.Exit.{
  ResidualClass, ExitPlanningInput, ExitPlan, ExitPlanningBlock, priced, classify, round_down,
  validate, committed_of, outstanding, check_class, intended_of, raw_quantity_of, exit_side,
  plan_class, plan_risk_reducing_ioc,
}
use hyperliquid.Exit.Floor.{ExecutionFloorError, execution_floor_for_asset}

first_of_five : (a b c e f : Bool) → (a || b || c || e || f) ≡ false → a ≡ false
first_of_five false b c e f h = refl
first_of_five true b c e f h = h

three_zeros :
    (a b c : Bool) → (not a || not b || not c) ≡ false → (a ≡ true) × (b ≡ true) × (c ≡ true)
three_zeros true true true h = (refl, refl, refl)
three_zeros true true false h = absurd (cc)
three_zeros true false c h = absurd (cc)
three_zeros false b c h = absurd (cc)

second_of_two : (a b : Bool) → (a || not b) ≡ false → b ≡ true
second_of_two false true h = refl
second_of_two false false h = cc
second_of_two true b h = absurd (cc)

module _ (d : Decimal) where
  min_right : (a b : d.Value) → d.leb (min d a b) b ≡ true
  min_right a b = ground (arith, d.leb_total a b, d.leb_refl b)

  priced_ok :
      {E A : Type 0} (text : E → String) (r : Result E A) {a : A}
      → priced d text r ≡ ok a
      → r ≡ ok a
  priced_ok text (ok b) h = cc
  priced_ok text (err e) h = absurd (cc)

  -- A plan for the quantity, no more of which is visible than it asks for.
  record IsIoc (quantity : d.Value) (plan : MarketableIocPlan d) : Type 0 where
    requested : plan.requested_quantity ≡ quantity
    visible : d.leb plan.visible_executable_quantity quantity ≡ true
    positive : d.leb quantity d.zero ≡ false

  plan-IsIoc :
      (side : Side) (quantity : d.Value) (s : ShadowMarketSnapshot d)
      (reference cushion slippage tick : d.Value) {plan : MarketableIocPlan d}
      → plan_marketable_ioc d side quantity s reference cushion slippage tick ≡ ok plan
      → IsIoc quantity plan
  unfolding plan_marketable_ioc
  plan-IsIoc side quantity s reference cushion slippage tick h =
      let overflow : String → ShadowError = ShadowError.arithmetic_overflow in
      fail_if-ok (is_bad_request d quantity reference cushion slippage tick) _ _ h (λ e₀ h₀.
        >>=-ok (validate_book d s) _ h₀ (λ u e₁ h₁.
          >>=-ok (worst_required d quantity d.zero (levels_for d side s)) _ h₁ (λ worst e₂ h₂.
            ok_or-ok (d.checked_mul reference (factor d side slippage))
              (overflow "maximum IOC price") _ h₂
              (λ raw e₃ h₃. >>=-ok (round_price_outward d raw tick side) _ h₃ (λ limit e₄ h₄.
                >>=-ok (limit_of d side limit cushion tick worst) _ h₄ (λ price e₅ h₅.
                  >>=-ok (executable_depth d side price d.zero (levels_for d side s)) _ h₅
                    (λ depth e₆ h₆. subst (IsIoc quantity) (ok_injective h₆) (record {
                      requested = refl;
                      visible = min_right depth quantity;
                      positive =
                          first_of_five (d.leb quantity d.zero) (d.leb reference d.zero)
                            (lt d cushion d.zero) (lt d slippage d.zero) (d.leb tick d.zero) e₀;
                    }))))))))

  -- An order that takes from the filled position and from no more than it, worth the smallest that the
  -- exchange takes, when nothing else is outstanding.
  record IsPriced (input : ExitPlanningInput d) (plan : ExitPlan d) : Type 0 where
    reduces : plan.reduce_only ≡ true
    bounded : d.leb plan.quantity (d.abs input.filled_quantity) ≡ true
    enough : d.leb plan.execution_floor.minimum_order_notional plan.planned_notional ≡ true
    ioc : IsIoc plan.quantity plan.ioc
    against : plan.side ≡ exit_side d input

  plus_zero :
      (a b : d.Value) {v : d.Value} → is_zero d b ≡ true → d.checked_add a b ≡ some v → v ≡ a
  plus_zero a b {v} h e = d.add-zero a (subst (λ i. d.checked_add a i ≡ some v) (zero_of d b h) e)

  and_then-some :
      (o : Option d.Value) (f : d.Value → Option d.Value) {v : d.Value}
      → and_then d o f ≡ some v
      → (x : d.Value) × (o ≡ some x) × (f x ≡ some v)
  and_then-some none f h = absurd (cc)
  and_then-some (some a) f h = (a, refl, h)

  -- Where nothing is outstanding, what is committed is what is filled.
  committed_of-filled :
      (input : ExitPlanningInput d) {v : d.Value}
      → outstanding d input ≡ false
      → committed_of d input ≡ some v
      → v ≡ input.filled_notional
  committed_of-filled input none_left h =
      let a = input.filled_notional in
      let b = input.acknowledged_open_notional in
      let c = input.unknown_result_notional in
      let e = input.continuation_notional in
      let zeros = three_zeros (is_zero d b) (is_zero d c) (is_zero d e) none_left in
      let first = and_then-some (d.checked_add a b) _ h in
      let second = and_then-some (d.checked_add first.0 c) _ first.2 in
      plus_zero second.0 e zeros.2 second.2
      ∙ plus_zero first.0 c zeros.1 second.1
      ∙ plus_zero a b zeros.0 first.1

  -- A class that is accepted has something committed, and not what is desired.
  classify-accepted :
      (committed desired : d.Value) {u : Unit {0}}
      → check_class d (classify d committed desired) ≡ ok u
      → (committed ≢ d.zero) × (committed ≢ desired)
  unfolding classify
  classify-accepted committed desired h = elim (d.dec committed desired) [
    | yes e ↦
        let same = if_pos (d.dec committed desired) e true false in
        let k = rw (same) at h in absurd (cc)
    | no n ↦ elim (d.dec committed d.zero) [
      | yes e ↦
          let differs = if_neg (d.dec committed desired) n true false in
          let none_yet = if_pos (d.dec committed d.zero) e true false in
          let k = rw (differs, none_yet) at h in absurd (cc)
      | no m ↦ (m, n)
    ]
  ]

  -- What is filled is sold or bought back.
  abbrev pub IsAgainst : ExitPlanningInput d → Side → Type 0
  IsAgainst input side =
      ((lt d d.zero input.filled_notional ≡ true) × (side ≡ sell))
      ⊎ ((lt d input.filled_notional d.zero ≡ true) × (side ≡ buy))

  exit_side-IsAgainst :
      (input : ExitPlanningInput d)
      → input.filled_notional ≢ d.zero
      → IsAgainst input (exit_side d input)
  exit_side-IsAgainst input n =
      let v = input.filled_notional in
      elim (Bool-cases (d.leb v d.zero)) [
        | inl e ↦ rw (e) (elim (Bool-cases (d.leb d.zero v)) [
          | inl f ↦ absurd (n (d.leb_antisymm v d.zero e f))
          | inr f ↦ rw (f) (inr (refl, refl))
        ])
        | inr e ↦ rw (e) (inl (refl, refl))
      ]

  -- The order only takes from what is filled, and nothing else is outstanding.
  pub record IsExit (input : ExitPlanningInput d) (plan : ExitPlan d) : Type 0 where
    pub reduces : plan.reduce_only ≡ true
    pub against : IsAgainst input plan.side
    pub positive : d.leb plan.quantity d.zero ≡ false
    pub bounded : d.leb plan.quantity (d.abs input.filled_quantity) ≡ true
    pub enough : d.leb plan.execution_floor.minimum_order_notional plan.planned_notional ≡ true
    pub requested : plan.ioc.requested_quantity ≡ plan.quantity
    pub visible : d.leb plan.ioc.visible_executable_quantity plan.quantity ≡ true
    pub alone : outstanding d input ≡ false
    pub committed : plan.committed_notional ≡ input.filled_notional
    pub moves : input.filled_notional ≢ input.desired_target_notional

  module _ (shadow_text : ShadowError → String) (floor_text : ExecutionFloorError → String) where
    plan_class-IsPriced :
        (class : ResidualClass) (input : ExitPlanningInput d) (committed residual : d.Value)
        {plan : ExitPlan d}
        → plan_class d shadow_text floor_text class input committed residual ≡ ok plan
        → IsPriced input plan × (plan.committed_notional ≡ committed)
    unfolding plan_class
    plan_class-IsPriced class input committed residual h =
        >>=-ok (intended_of d class input residual) _ h (λ intended e₀ h₀.
          >>=-ok (raw_quantity_of d class input) _ h₀ (λ raw e₁ h₁.
            >>=-ok (round_down d raw input.market_rules.size_step) _ h₁ (λ rounded e₂ h₂.
              let quantity = min d rounded (d.abs input.filled_quantity) in
              >>=-ok
                (priced d floor_text (
                  execution_floor_for_asset d (exit_side d input) input.market_rules
                    input.execution_floor_policy))
                _ h₂
                (λ floor e₃ h₃.
                  ok_or-ok (d.checked_mul quantity floor.bounded_ioc_price)
                    (ExitPlanningBlock.arithmetic_overflow "exit notional") _ h₃
                    (λ planned e₄ h₄.
                      fail_if-ok (is_zero d quantity || lt d planned floor.minimum_order_notional) _
                        _ h₄
                        (λ e₅ h₅.
                          >>=-ok
                            (priced d shadow_text (
                              plan_marketable_ioc d (exit_side d input) quantity
                                input.market_snapshot input.reference_price input.execution_cushion
                                input.maximum_slippage input.market_rules.price_tick))
                            _ h₅
                            (λ ioc e₆ h₆.
                              subst
                                (λ plan.
                                  IsPriced input plan × (plan.committed_notional ≡ committed))
                                (ok_injective h₆)
                                (
                                  record {
                                    reduces = refl;
                                    bounded = min_right rounded (d.abs input.filled_quantity);
                                    enough =
                                        second_of_two (is_zero d quantity)
                                          (d.leb floor.minimum_order_notional planned) e₅;
                                    ioc =
                                        plan-IsIoc (exit_side d input) quantity
                                          input.market_snapshot input.reference_price
                                          input.execution_cushion input.maximum_slippage
                                          input.market_rules.price_tick
                                          (priced_ok shadow_text _ e₆);
                                    against = refl;
                                  },
                                  refl,
                                ))))))))

    -- An accepted plan is an order of a positive quantity, no more than what is filled, that is marked
    -- to only reduce the position: it sells what is filled where that is positive and buys it back where
    -- it is negative. What is filled is all that is committed, nothing is outstanding, and it is not the
    -- desired target yet. The notional of the order is the smallest that the exchange takes or more, and
    -- the priced order asks for the same quantity and counts no more than it as visible.
    pub plan_risk_reducing_ioc-IsExit :
        (input : ExitPlanningInput d) {plan : ExitPlan d}
        → plan_risk_reducing_ioc d shadow_text floor_text input ≡ ok plan
        → IsExit input plan
    unfolding plan_risk_reducing_ioc
    plan_risk_reducing_ioc-IsExit input h = >>=-ok (validate d input) _ h (λ u e₀ h₀.
        ok_or-ok (committed_of d input) (ExitPlanningBlock.arithmetic_overflow "committed exposure")
          _ h₀
          (λ committed e₁ h₁.
            ok_or-ok (d.checked_sub input.desired_target_notional committed)
              (ExitPlanningBlock.arithmetic_overflow "signed residual") _ h₁
              (λ residual e₂ h₂.
                let class = classify d committed input.desired_target_notional in
                >>=-ok (check_class d class) _ h₂ (λ w e₃ h₃.
                  fail_if-ok (outstanding d input) _ _ h₃ (λ e₄ h₄.
                    let priced = plan_class-IsPriced class input committed residual h₄ in
                    let p = priced.0 in
                    let filled = committed_of-filled input e₄ e₁ in
                    let moves = classify-accepted committed input.desired_target_notional e₃ in
                    record {
                      reduces = p.reduces;
                      bounded = p.bounded;
                      positive = p.ioc.positive;
                      enough = p.enough;
                      requested = p.ioc.requested;
                      visible = p.ioc.visible;
                      alone = e₄;
                      committed = priced.1 ∙ filled;
                      moves = λ e. moves.1 (filled ∙ e);
                      against =
                          subst (IsAgainst input) (sym p.against)
                            (exit_side-IsAgainst input (λ e. moves.0 (filled ∙ e)));
                    })))))
