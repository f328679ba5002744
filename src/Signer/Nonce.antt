-- ===== src/Signer/Nonce.antt =====
-- `NonceAllocator` of crates/copytrade-signer/src/lib.rs. The cell is shared by threads: an attempt is
-- one turn of the loop, with the value that it loaded, which may be stale, and the value that the cell
-- has when it is compared and exchanged.
use hyperliquid.Base.{
  ℕ, ◌+◌, ◌≤◌, ◌<◌, ◌≡◌, max, Option, none, some, List, [], ◌∷◌, Result, ok, err, ◌==◌, arith,
  checked_add, u64_mod, if◌then◌else◌, All, All-mono, refl, map,
}
use hyperliquid.Signer.Intent.{SignerError, nonce_overflow}

pub record NonceAllocator : Type 0 where
  pub next : ℕ

unfoldable pub new : ℕ → NonceAllocator
new initial = record { next = initial }

-- One turn of the loop of `next`: the cell after it, and what it returns, nothing if the exchange
-- failed and the loop goes on.
unfoldable pub attempt : ℕ → ℕ → NonceAllocator → NonceAllocator × Option (Result SignerError ℕ)
attempt observed unix_millis cell =
    let nonce = max observed unix_millis in
    elim (checked_add u64_mod nonce 1) [
      | none ↦ (cell, some (err nonce_overflow))
      | some following ↦
          if cell.next == observed
          then (record { next = following }, some (ok nonce))
          else (cell, none)
    ]

-- The nonces that are handed out over the attempts of all threads, in order.
abbrev handed : Option (Result SignerError ℕ) → List ℕ → List ℕ
handed (some (ok nonce)) rest = nonce ∷ rest
handed (some (err _)) rest = rest
handed none rest = rest

pub attempts : List (ℕ × ℕ) → NonceAllocator → NonceAllocator × List ℕ
attempts [] cell = (cell, [])
attempts ((observed, unix_millis) ∷ rest) cell =
    let turn = attempt observed unix_millis cell in
    let others = attempts rest turn.0 in (others.0, handed turn.1 others.1)

-- Each number is below the next ones.
abbrev pub Ascending : List ℕ → Type 0
Ascending [] = Unit
Ascending (n ∷ ns) = All (λ m. n < m) ns × Ascending ns

attempt-next : (o u : ℕ) (c : NonceAllocator) → c.next ≤ (attempt o u c).0.next
unfolding attempt
attempt-next o u c = ground arith

attempt-nonce :
    (o u : ℕ) (c : NonceAllocator) {n : ℕ}
    → (attempt o u c).1 ≡ some (ok n)
    → (c.next ≤ n) × (u ≤ n) × (n < (attempt o u c).0.next)
unfolding attempt
attempt-nonce o u c h = (ground arith, ground arith, ground arith)

handed-All :
    (P : ℕ → Type 0) (r : Option (Result SignerError ℕ)) (ns : List ℕ)
    → ((n : ℕ) → r ≡ some (ok n) → P n)
    → All P ns
    → All P (handed r ns)
handed-All P (some (ok n)) ns f h = (f n refl, h)
handed-All P (some (err e)) ns f h = h
handed-All P none ns f h = h

handed-Ascending :
    (r : Option (Result SignerError ℕ)) (ns : List ℕ)
    → ((n : ℕ) → r ≡ some (ok n) → All (λ m. n < m) ns)
    → Ascending ns
    → Ascending (handed r ns)
handed-Ascending (some (ok n)) ns f h = (f n refl, h)
handed-Ascending (some (err e)) ns f h = h
handed-Ascending none ns f h = h

attempts-le : (ts : List (ℕ × ℕ)) (c : NonceAllocator) → All (λ n. c.next ≤ n) (attempts ts c).1
unfolding attempts
attempts-le [] c = tt
attempts-le ((o, u) ∷ ts) c =
    handed-All (λ n. c.next ≤ n) (attempt o u c).1 (attempts ts (attempt o u c).0).1
      (λ n e. (attempt-nonce o u c e).0)
      (All-mono (attempts ts (attempt o u c).0).1 (λ n q. omega (arith, q, attempt-next o u c))
        (attempts-le ts (attempt o u c).0))

turns-Ascending : (ts : List (ℕ × ℕ)) (c : NonceAllocator) → Ascending (attempts ts c).1
unfolding attempts
turns-Ascending [] c = tt
turns-Ascending ((o, u) ∷ ts) c =
    handed-Ascending (attempt o u c).1 (attempts ts (attempt o u c).0).1
      (λ n e.
        All-mono (attempts ts (attempt o u c).0).1
          (λ m q. let k = (attempt-nonce o u c e).2 in omega (arith, q, k))
          (attempts-le ts (attempt o u c).0))
      (turns-Ascending ts (attempt o u c).0)

-- However the threads interleave, and whatever each of them loaded, the nonces that are handed out are
-- strictly ascending, so no nonce is handed out twice, and none is below the initial one.
pub attempts-Ascending :
    (initial : ℕ) (ts : List (ℕ × ℕ))
    → Ascending (attempts ts (new initial)).1 × All (λ n. initial ≤ n) (attempts ts (new initial)).1
unfolding new
attempts-Ascending initial ts = (turns-Ascending ts (new initial), attempts-le ts (new initial))

-- Calls at the given times, of which no other thread disturbs one: each turn loads what the cell has.
pub calls : List ℕ → NonceAllocator → NonceAllocator × List (Option (Result SignerError ℕ))
calls [] cell = (cell, [])
calls (unix_millis ∷ rest) cell =
    let turn = attempt cell.next unix_millis cell in
    let others = calls rest turn.0 in (others.0, turn.1 ∷ others.1)

-- What they are to hand out: each the time, or the number after the nonce before where that is later.
abbrev pub nonces_from : ℕ → List ℕ → List ℕ
nonces_from next [] = []
nonces_from next (time ∷ times) = max next time ∷ nonces_from (max next time + 1) times

abbrev pub next_after : ℕ → List ℕ → ℕ
next_after next [] = next
next_after next (time ∷ times) = next_after (max next time + 1) times

alone :
    (u : ℕ) (c : NonceAllocator)
    → max c.next u + 1 < u64_mod
    → attempt c.next u c ≡ (record { next = max c.next u + 1 }, some (ok (max c.next u)))
unfolding attempt
alone u c h = ground arith

-- As long as the nonces stay below the largest of u64, every call that no other thread disturbs returns
-- on its first turn, with the time or the number after the nonce before it, whichever is later, and the
-- cell ends one above the last.
pub calls-return :
    (times : List ℕ) (c : NonceAllocator)
    → All (λ n. n + 1 < u64_mod) (nonces_from c.next times)
    → calls times c ≡ (
      record { next = next_after c.next times },
      map (λ n. some (ok n)) (nonces_from c.next times),
    )
unfolding calls
calls-return [] c h = refl
calls-return (time ∷ times) c h =
    let rest = calls-return times (record { next = max c.next time + 1 }) h.1 in
    rw (alone time c h.0) (λ i. ((rest i).0, some (ok (max c.next time)) ∷ (rest i).1))
