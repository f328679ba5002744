-- ===== src/Ledger/Modeled.antt =====
-- An execution that `execute_shadow_ioc` makes, applied to the book with the position that it started
-- from.
use hyperliquid.Base.{
  ℕ, ◌≡◌, ◌≢◌, true, false, ◌||◌, Option, some, List, String, ok, err, >>=-ok, ok_injective,
  ok_or-ok, fail_if, checked_add, u64_mod, ltb, arith, inl, inr, Bool-cases, Result-cases, ◌⊎◌,
  refl, sym, ap, ◌∙◌, subst,
}
use mathlib.Core.Logic.{if_pos, if_neg}
use hyperliquid.BTreeMap.{string_ord}
use hyperliquid.Decimal.{Decimal, is_zero}
use hyperliquid.Identity.{Side, buy, sell}
use hyperliquid.Shadow.{
  ShadowError, ShadowExecution, ShadowExecutionInput, Fill, signed, validate_input, fill_levels,
  levels_for, average_of, slippage_of, execute_shadow_ioc, snapshot_too_early,
}
use hyperliquid.Ledger.{LedgerError, position_divergence, EpisodeBook, same_sign, differ}
use hyperliquid.Ledger.Executions.{book_fill, apply}
use hyperliquid.Ledger.Books.{entry-some, quantity_some}
use hyperliquid.Ledger.Apply.{IsAligned, position, entry-position, differ_none}
use hyperliquid.Ledger.Errors.{
  IsArithmetic, ok-IsArithmetic, >>=-IsArithmetic, add_same_direction-IsArithmetic,
  close_or_flip-IsArithmetic,
}

module _ (d : Decimal) (sha256 : List ℕ → ℕ) where
  -- What `apply` checks of an execution.
  pub record IsModeled (input : ShadowExecutionInput d) (x : ShadowExecution d) : Type 0 where
    pub before : x.position_before ≡ input.position_before
    pub moved :
        d.checked_add input.position_before (signed d x.action.side x.modeled_filled_quantity)
        ≡ some x.position_after
    pub priced :
        x.modeled_filled_quantity ≢ d.zero → (p : d.Value) × (x.modeled_average_fill_price ≡ some p)
    pub same_action : x.action ≡ input.action

  average_of-priced :
      (f : Fill d) {o : Option d.Value}
      → average_of d f ≡ ok o
      → f.filled ≢ d.zero
      → (p : d.Value) × (o ≡ some p)
  unfolding average_of
  average_of-priced f {o} h n =
      let not_zero = if_neg (d.dec f.filled d.zero) n true false in
      let made = rw (not_zero, average_of) at h in
      ok_or-ok (d.checked_div f.fill_value f.filled)
        (ShadowError.arithmetic_overflow "average fill price") _ made
        (λ average e₀ h₀. (average, sym (ok_injective h₀)))

  execute-IsModeled :
      (input : ShadowExecutionInput d) {x : ShadowExecution d}
      → execute_shadow_ioc d sha256 input ≡ ok x
      → IsModeled input x
  unfolding execute_shadow_ioc
  execute-IsModeled input {x} h =
      let side = input.action.side in
      let overflow : String → ShadowError = ShadowError.arithmetic_overflow in
      let start : Fill d = record {
        remaining = input.rounded_quantity;
        filled = d.zero;
        fill_value = d.zero;
      } in
      >>=-ok (validate_input d input) _ h (λ u e₀ h₀.
        ok_or-ok (checked_add u64_mod input.decision_timestamp_mono input.configured_latency_ms)
          (overflow "latency timestamp") _ h₀
          (λ at e₁ h₁.
            >>=-ok
              (fail_if (ltb input.evaluation_market_snapshot.observed_at_mono at)
                snapshot_too_early)
              _ h₁
              (λ v e₂ h₂.
                >>=-ok
                  (fill_levels d side input.proposed_limit_price
                    (levels_for d side input.evaluation_market_snapshot) start)
                  _ h₂
                  (λ f e₃ h₃. >>=-ok (average_of d f) _ h₃ (λ average e₄ h₄.
                    ok_or-ok (d.checked_mul f.fill_value input.taker_fee_rate) (overflow "fees") _
                      h₄
                      (λ fees e₅ h₅.
                        >>=-ok
                          (slippage_of d side input.decision_market_snapshot.midpoint average
                            f.filled)
                          _ h₅
                          (λ slippage e₆ h₆.
                            ok_or-ok (d.checked_add input.position_before (signed d side f.filled))
                              (overflow "position after") _ h₆
                              (λ after e₇ h₇. subst (IsModeled input) (ok_injective h₇) (record {
                                before = refl;
                                moved = e₇;
                                priced = λ n. average_of-priced f e₄ n;
                                same_action = refl;
                              })))))))))

  -- What a book that agrees with the execution may refuse it for.
  book_fill-IsArithmetic :
      (x : ShadowExecution d) (price delta : d.Value) (closed_at : ℕ) (book : EpisodeBook d)
      → IsAligned d book
      → IsArithmetic d
          (book_fill d sha256 x (position d x.action.asset book) price delta closed_at book)
  unfolding book_fill
  book_fill-IsArithmetic x price delta closed_at book h =
      let current = position d x.action.asset book in
      elim (Bool-cases (
        is_zero d current || same_sign d (d.is_sign_positive current) (d.is_sign_positive delta))) [
          | inl same ↦
              rw (same, book_fill) (add_same_direction-IsArithmetic d sha256 x price delta book)
          | inr other ↦
              let nz : current ≢ d.zero = λ z. ground arith in
              let (o, f, v) =
                quantity_some d x.action.asset current book
                  (entry-position d x.action.asset book h ∙ entry-some d current nz) in
              rw (other, book_fill)
                (close_or_flip-IsArithmetic d sha256 x price delta closed_at o book f)
        ]

  fail_if-IsArithmetic :
      (a b : d.Value) → a ≡ b → IsArithmetic d (fail_if (differ d a b) position_divergence)
  fail_if-IsArithmetic a b e = rw (differ_none d a b e) (λ x q. absurd (cc))

  -- Nothing is filled: the position stays.
  unmoved :
      (side : Side) (a v : d.Value) {b : d.Value}
      → v ≡ d.zero
      → d.checked_add a (signed d side v) ≡ some b
      → b ≡ a
  unmoved buy a v {b} z e = d.add-zero a (subst (λ i. d.checked_add a i ≡ some b) z e)
  unmoved sell a v {b} z e =
      d.add-zero a (subst (λ i. d.checked_add a i ≡ some b) (ap d.neg z ∙ d.neg-zero) e)

  modeled-IsArithmetic :
      (input : ShadowExecutionInput d) (x : ShadowExecution d) (closed_at : ℕ)
      (book : EpisodeBook d)
      → IsAligned d book
      → position d x.action.asset book ≡ input.position_before
      → IsModeled input x
      → IsArithmetic d (apply d sha256 x closed_at book)
  unfolding apply
  modeled-IsArithmetic input x closed_at book h start m =
      let asset = x.action.asset in
      let current = position d asset book in
      let delta = signed d x.action.side x.modeled_filled_quantity in
      let agrees = start ∙ sym m.before in
      let test = differ_none d current x.position_before agrees in
      let sum : d.checked_add current delta ≡ some x.position_after = rw (start) m.moved in
      elim (d.dec x.modeled_filled_quantity d.zero) [
        | yes z ↦
            let empty = if_pos (d.dec x.modeled_filled_quantity d.zero) z true false in
            let stays = unmoved x.action.side current x.modeled_filled_quantity z sum in
            rw (test, empty, apply)
              (>>=-IsArithmetic d (fail_if (differ d x.position_after current) position_divergence)
                _ (fail_if-IsArithmetic x.position_after current stays)
                (λ u e. ok-IsArithmetic d _))
        | no n ↦
            let full = if_neg (d.dec x.modeled_filled_quantity d.zero) n true false in
            let (price, f) = m.priced n in
            let reached = differ_none d x.position_after x.position_after refl in
            rw (test, full, f, sum, reached, apply)
              (>>=-IsArithmetic d (book_fill d sha256 x current price delta closed_at book) _
                (book_fill-IsArithmetic x price delta closed_at book h)
                (λ b e. ok-IsArithmetic d _))
      ]

  -- A book whose positions are those of its open episodes takes an execution that was modelled from its
  -- own position of the asset, unless an arithmetic operation overflows: there is no divergence, and no
  -- price is missing.
  pub modeled-apply :
      (input : ShadowExecutionInput d) {x : ShadowExecution d} (closed_at : ℕ)
      (book : EpisodeBook d)
      → IsAligned d book
      → position d input.action.asset book ≡ input.position_before
      → execute_shadow_ioc d sha256 input ≡ ok x
      → ((b : EpisodeBook d) × (apply d sha256 x closed_at book ≡ ok b))
        ⊎ ((s : String) × (apply d sha256 x closed_at book
              ≡ err (LedgerError.arithmetic_overflow s)))
  modeled-apply input {x} closed_at book h start made =
      elim (Result-cases (apply d sha256 x closed_at book)) [
        | inl taken ↦ inl taken
        | inr (e, refused) ↦
            let m = execute-IsModeled input made in
            let (s, overflow) =
              modeled-IsArithmetic input x closed_at book h
                (ap (λ a. position d a.asset book) m.same_action ∙ start) m e refused in
            inr (s, refused ∙ ap err overflow)
      ]
