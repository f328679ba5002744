-- ===== src/BTreeMap/Unique.antt =====
-- Maps in which every entry is the one that a read of its key finds.
use hyperliquid.Base.{◌≡◌, refl, ◌≢◌, none, some, All, All-mono, sym, ◌∙◌}
use mathlib.Core.Logic.{if_pos, if_neg}
use hyperliquid.BTreeMap.Order.{Ord}
use hyperliquid.BTreeMap.Defs.{BTreeMap, get, insert, remove}
use hyperliquid.BTreeMap.Laws.{get-insert, get-remove}
use hyperliquid.BTreeMap.Entries.{All-insert-other, All-remove-other}

module _ {ℓ} {K V : Type ℓ} ⦃o : Ord K⦄ where
  pub get-insert-same : (k : K) (v : V) (m : BTreeMap K V) → get k (insert k v m) ≡ some v
  get-insert-same k v m = get-insert k k v m ∙ if_pos (o.dec k k) refl _ _

  pub get-insert-other :
      (k j : K) (v : V) (m : BTreeMap K V) → k ≢ j → get j (insert k v m) ≡ get j m
  get-insert-other k j v m n = get-insert k j v m ∙ if_neg (o.dec k j) n _ _

  pub get-remove-same : (k : K) (m : BTreeMap K V) → get k (remove k m) ≡ none
  get-remove-same k m = get-remove k k m ∙ if_pos (o.dec k k) refl _ _

  pub get-remove-other : (k j : K) (m : BTreeMap K V) → k ≢ j → get j (remove k m) ≡ get j m
  get-remove-other k j m n = get-remove k j m ∙ if_neg (o.dec k j) n _ _

  abbrev pub IsMap : BTreeMap K V → Type ℓ
  IsMap m = All (λ e. get e.0 m ≡ some e.1) m

  pub insert-IsMap : (k : K) (v : V) (m : BTreeMap K V) → IsMap m → IsMap (insert k v m)
  insert-IsMap k v m h =
      All-insert-other (λ e. get e.0 (insert k v m) ≡ some e.1) k v m (get-insert-same k v m)
        (All-mono m (λ e f n. get-insert-other k e.0 v m n ∙ f) h)

  pub remove-IsMap : (k : K) (m : BTreeMap K V) → IsMap m → IsMap (remove k m)
  remove-IsMap k m h =
      All-mono (remove k m) (λ e f. get-remove-other k e.0 m (λ q. f.1 (sym q)) ∙ f.0)
        (All-remove-other (λ e. get e.0 m ≡ some e.1) k m h)
