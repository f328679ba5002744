-- ===== src/Ledger.antt =====
-- The ledger of positions and episodes (crates/copytrade-core/src/ledger.rs): an episode runs from the
-- opening of a position until it is closed. What a call that fails leaves of a ledger is not modelled:
-- `apply_exchange_fill` works on a clone.
pub mod Executions
pub mod Dual
mod Tests
pub mod Signs
pub mod Books
pub mod Aligned
pub mod Closing
pub mod Apply
pub mod Errors
pub mod Modeled
pub mod Runs
pub mod Steps
pub mod Queries
pub mod Valuation
pub mod Equity
use hyperliquid.Base.{
  ℕ, ◌+◌, Bool, true, false, not, ◌||◌, ◌&&◌, Option, none, some, List, [], ◌∷◌, ◌++◌, String,
  Result, ok, err, ◌>>=◌, ◌>>◌, fail_if, ok_or, if◌then◌else◌, ite, length, u64_mod, u32_mod,
  checked_add, ◌%◌,
}
use hyperliquid.BTreeMap.{string_ord, BTreeMap, get, insert, remove}
use hyperliquid.Decimal.{Decimal, is_zero, min}
use hyperliquid.Identity.{Side, buy, sell, as_bytes, be_bytes}
use hyperliquid.Lifecycle.{PlannedAction}
use hyperliquid.Shadow.{ShadowExecution, signed}

pub data LedgerError : Type 0 where
  position_divergence missing_fill_price missing_mark_price : LedgerError
  arithmetic_overflow : String → LedgerError
  invalid_execution : LedgerError
  persistence : String → LedgerError
  schema_mismatch : LedgerError
  invalid_live_event : String → LedgerError

abbrev pub or_default {ℓ} : {A : Type ℓ} → Option A → A → A
or_default none a = a
or_default (some b) a = b

module _ (d : Decimal) where
  pub record PortfolioEpisode : Type 0 where
    pub episode_id : ℕ
    pub asset : String
    pub opened_at : ℕ
    pub closed_at : ℕ
    pub opening_decision_id : ℕ
    pub entry_notional : d.Value
    pub exit_notional : d.Value
    pub realized_pnl : d.Value
    pub fees : d.Value
    pub funding : d.Value
    pub slippage : d.Value
    pub attribution_residual : d.Value
    pub net_pnl : d.Value

  pub record OpenEpisode : Type 0 where
    pub episode_id : ℕ
    pub asset : String
    pub opened_at : ℕ
    pub opening_decision_id : ℕ
    pub signed_quantity : d.Value
    pub average_entry_price : d.Value
    pub entry_notional : d.Value
    pub exit_notional : d.Value
    pub realized_pnl : d.Value
    pub fees : d.Value
    pub funding : d.Value
    pub slippage : d.Value

  pub record EpisodeBook : Type 0 where
    pub positions : BTreeMap String d.Value
    -- `open`
    pub opened : BTreeMap String OpenEpisode
    pub closed : List PortfolioEpisode
    pub next_episode_sequence : ℕ

  -- `!=` of two decimals
  abbrev pub differ : d.Value → d.Value → Bool
  differ a b = ite (d.dec a b) false true

  -- `==` of two Booleans
  abbrev pub same_sign : Bool → Bool → Bool
  same_sign a b = if a then b else not b

  -- `EpisodeBook::default`
  abbrev pub empty_book : EpisodeBook
  empty_book = record { positions = []; opened = []; closed = []; next_episode_sequence = 0 }

  abbrev pub checked : Option d.Value → String → Result LedgerError d.Value
  checked o operation = ok_or o (arithmetic_overflow operation)

  unfoldable pub add_fraction : d.Value → d.Value → d.Value → String → Result LedgerError d.Value
  add_fraction current value fraction name = do
    part ← checked (d.checked_mul value fraction) name
    checked (d.checked_add current part) name

  unfoldable pub add_costs :
      OpenEpisode → ShadowExecution d → d.Value → Result LedgerError OpenEpisode
  unfolding add_fraction
  add_costs episode execution fraction = do
    fees ← add_fraction episode.fees execution.fees fraction "fees"
    funding ← add_fraction episode.funding execution.funding fraction "funding"
    slippage ← add_fraction episode.slippage execution.slippage fraction "slippage"
    ok (record episode { fees = fees; funding = funding; slippage = slippage })

  -- The other price less the entry price, for a long position, and the other way round for a short one.
  abbrev pub price_gain : d.Value → d.Value → d.Value → Option d.Value
  price_gain signed_quantity entry price =
      if d.is_sign_positive signed_quantity
      then d.checked_sub price entry
      else d.checked_sub entry price

  -- The branch of `add_same_direction` for an open episode.
  unfoldable pub extend :
      OpenEpisode → ShadowExecution d → d.Value → d.Value → Result LedgerError OpenEpisode
  unfolding add_costs
  extend episode execution price signed_delta = do
    let old_quantity = d.abs episode.signed_quantity
    let added = d.abs signed_delta
    total ← checked (d.checked_add old_quantity added) "episode quantity"
    old_value ← checked (d.checked_mul old_quantity episode.average_entry_price) "entry value"
    added_value ← checked (d.checked_mul added price) "entry value"
    value ← checked (d.checked_add old_value added_value) "average entry"
    average ← checked (d.checked_div value total) "average entry"
    quantity ← checked (d.checked_add episode.signed_quantity signed_delta) "episode quantity"
    notional ← checked (d.checked_add episode.entry_notional added_value) "entry notional"
    add_costs
        (record episode {
          average_entry_price = average;
          signed_quantity = quantity;
          entry_notional = notional;
        })
        execution d.one

  -- The block of `close_or_flip` that takes the closing quantity from the episode.
  unfoldable pub reduce :
      OpenEpisode → ShadowExecution d → d.Value → d.Value → d.Value → Result LedgerError OpenEpisode
  unfolding add_costs
  reduce episode execution price closing_quantity closing_fraction = do
    gain ←
        checked (price_gain episode.signed_quantity episode.average_entry_price price)
          "realized pnl"
    pnl ← checked (d.checked_mul gain closing_quantity) "realized pnl"
    realized ← checked (d.checked_add episode.realized_pnl pnl) "realized pnl"
    value ← checked (d.checked_mul price closing_quantity) "exit notional"
    exit ← checked (d.checked_add episode.exit_notional value) "exit notional"
    costed ←
        add_costs (record episode { realized_pnl = realized; exit_notional = exit }) execution
          closing_fraction
    let signed_close =
        if d.is_sign_positive episode.signed_quantity
        then d.neg closing_quantity
        else closing_quantity
    quantity ← checked (d.checked_add episode.signed_quantity signed_close) "episode close"
    ok (record costed { signed_quantity = quantity })

  -- The net result of an episode.
  unfoldable pub net_of : OpenEpisode → Result LedgerError d.Value
  net_of episode = do
    less_fees ← checked (d.checked_sub episode.realized_pnl episode.fees) "net pnl"
    less_funding ← checked (d.checked_sub less_fees episode.funding) "net pnl"
    checked (d.checked_sub less_funding episode.slippage) "net pnl"

  unfoldable pub finish_episode : String → ℕ → EpisodeBook → Result LedgerError EpisodeBook
  unfolding net_of
  finish_episode asset closed_at book = do
    episode ← ok_or (get asset book.opened) position_divergence
    net_pnl ← net_of episode
    ok (record book {
      opened = remove asset book.opened;
      closed =
          book.closed
          ++ record {
            episode_id = episode.episode_id;
            asset = episode.asset;
            opened_at = episode.opened_at;
            closed_at = closed_at;
            opening_decision_id = episode.opening_decision_id;
            entry_notional = episode.entry_notional;
            exit_notional = episode.exit_notional;
            realized_pnl = episode.realized_pnl;
            fees = episode.fees;
            funding = episode.funding;
            slippage = episode.slippage;
            attribution_residual = d.zero;
            net_pnl = net_pnl;
          }
            ∷ [];
    })
