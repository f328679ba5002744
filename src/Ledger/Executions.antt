-- ===== src/Ledger/Executions.antt =====
-- An execution in the book of a portfolio (crates/copytrade-core/src/ledger.rs).
use hyperliquid.Base.{
  ℕ, ◌||◌, none, some, List, ◌++◌, String, Result, ok, ◌>>=◌, ◌>>◌, fail_if, ok_or, if◌then◌else◌,
  length, u64_mod, u32_mod, checked_add, ◌%◌,
}
use hyperliquid.BTreeMap.{string_ord, get, insert, remove}
use hyperliquid.Decimal.{Decimal, is_zero, min}
use hyperliquid.Identity.{as_bytes, be_bytes}
use hyperliquid.Shadow.{ShadowExecution, signed}
use hyperliquid.Ledger.{
  EpisodeBook, LedgerError, add_costs, arithmetic_overflow, checked, differ, extend, finish_episode,
  missing_fill_price, or_default, position_divergence, reduce, same_sign,
}

module _ (d : Decimal) where
  module _ (sha256 : List ℕ → ℕ) where
    unfoldable pub derive_episode_id : String → ℕ → ℕ → ℕ → ℕ
    derive_episode_id asset decision_id cloid sequence = sha256 (
        as_bytes "HL1G/EPISODE/V1"
        ++ (be_bytes 4 (length (as_bytes asset) % u32_mod)
            ++ (as_bytes asset
                ++ (be_bytes 32 decision_id ++ (be_bytes 16 cloid ++ be_bytes 8 sequence)))))

    unfoldable pub open_new :
        ShadowExecution d
        → d.Value
        → d.Value
        → d.Value
        → EpisodeBook d
        → Result LedgerError (EpisodeBook d)
    unfolding add_costs
    open_new execution price signed_quantity cost_fraction book = do
      let asset = execution.action.asset
      let sequence = book.next_episode_sequence
      following ← ok_or (checked_add u64_mod sequence 1) (arithmetic_overflow "episode sequence")
      notional ← checked d (d.checked_mul (d.abs signed_quantity) price) "entry notional"
      episode ←
          add_costs d
            (record {
              episode_id =
                  derive_episode_id asset execution.action.decision_id
                    execution.action.planned_cloid sequence;
              asset = asset;
              opened_at = execution.decision_timestamp_mono;
              opening_decision_id = execution.action.decision_id;
              signed_quantity = signed_quantity;
              average_entry_price = price;
              entry_notional = notional;
              exit_notional = d.zero;
              realized_pnl = d.zero;
              fees = d.zero;
              funding = d.zero;
              slippage = d.zero;
            })
            execution cost_fraction
      ok (record book {
        next_episode_sequence = following;
        opened = insert asset episode book.opened;
      })

    unfoldable pub add_same_direction :
        ShadowExecution d → d.Value → d.Value → EpisodeBook d → Result LedgerError (EpisodeBook d)
    unfolding extend open_new
    add_same_direction execution price signed_delta book =
        elim (get execution.action.asset book.opened) [
          | some episode ↦ do
            longer ← extend d episode execution price signed_delta
            ok (record book { opened = insert execution.action.asset longer book.opened })
          | none ↦ open_new execution price signed_delta d.one book
        ]

    -- The part of `close_or_flip` after the block, for the quantity that is left to open.
    unfoldable pub flip :
        ShadowExecution d
        → d.Value
        → d.Value
        → d.Value
        → d.Value
        → EpisodeBook d
        → Result LedgerError (EpisodeBook d)
    unfolding open_new
    flip execution price signed_delta residual closing_fraction book =
        if is_zero d residual then ok book else do
          fraction ← checked d (d.checked_sub d.one closing_fraction) "residual fraction"
          open_new execution price
              (if d.is_sign_positive signed_delta then residual else d.neg residual) fraction book

    unfoldable pub close_or_flip :
        ShadowExecution d
        → d.Value
        → d.Value
        → ℕ
        → EpisodeBook d
        → Result LedgerError (EpisodeBook d)
    unfolding reduce finish_episode flip
    close_or_flip execution price signed_delta closed_at book = do
      let asset = execution.action.asset
      let fill_quantity = d.abs signed_delta
      episode ← ok_or (get asset book.opened) position_divergence
      let closing_quantity = min d fill_quantity (d.abs episode.signed_quantity)
      closing_fraction ← checked d (d.checked_div closing_quantity fill_quantity) "closing fraction"
      shorter ← reduce d episode execution price closing_quantity closing_fraction
      let reduced = record book { opened = insert asset shorter book.opened }
      closed ←
          if is_zero d shorter.signed_quantity
          then finish_episode d asset closed_at reduced
          else ok reduced
      residual ← checked d (d.checked_sub fill_quantity closing_quantity) "flip residual"
      flip execution price signed_delta residual closing_fraction closed

    -- The branches of `apply`, for an execution that filled.
    unfoldable pub book_fill :
        ShadowExecution d
        → d.Value
        → d.Value
        → d.Value
        → ℕ
        → EpisodeBook d
        → Result LedgerError (EpisodeBook d)
    unfolding add_same_direction close_or_flip
    book_fill execution current price signed_delta closed_at book =
        if is_zero d current
          || same_sign d (d.is_sign_positive current) (d.is_sign_positive signed_delta)
        then add_same_direction execution price signed_delta book
        else close_or_flip execution price signed_delta closed_at book

    -- The position of an asset after a fill.
    abbrev pub set_position : String → d.Value → EpisodeBook d → EpisodeBook d
    set_position asset after book = record book {
      positions =
          if is_zero d after
          then remove asset book.positions
          else insert asset after book.positions;
    }

    -- `EpisodeBook::apply`
    unfoldable pub apply :
        ShadowExecution d → ℕ → EpisodeBook d → Result LedgerError (EpisodeBook d)
    unfolding book_fill
    apply execution closed_at book = do
      let asset = execution.action.asset
      let current = or_default (get asset book.positions) d.zero
      let fill = execution.modeled_filled_quantity
      fail_if (differ d current execution.position_before) position_divergence
      if is_zero d fill
          then (do fail_if (differ d execution.position_after current) position_divergence; ok book)
          else (do
            price ← ok_or execution.modeled_average_fill_price missing_fill_price
            let signed_delta = signed d execution.action.side fill
            after ← checked d (d.checked_add current signed_delta) "position"
            fail_if (differ d after execution.position_after) position_divergence
            booked ← book_fill execution current price signed_delta closed_at book
            ok (set_position asset after booked))
