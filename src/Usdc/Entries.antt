-- ===== src/Usdc/Entries.antt =====
-- An entry that joins the map of receipts of `collectUSDCEvents`.
use chain_ops.Common.{◌≡◌, ◌≢◌, refl, List, [], ◌∷◌, Option, true, false, arith, All}
use chain_ops.Chain.{Hash, Receipt}
use chain_ops.Txn.{has_address}
use chain_ops.Usdc.{Receipts, already_fetched, receipt_at}

-- The new entry of a map.
module _ (h : Hash) (r : Option Receipt) (m : Receipts) where
  pub already_fetched_self : already_fetched ((h, r) ∷ m) h ≡ true
  unfolding already_fetched
  already_fetched_self = ground arith

  pub receipt_at_self : receipt_at ((h, r) ∷ m) h ≡ r
  unfolding receipt_at
  receipt_at_self = ground arith

  pub already_fetched-cons :
      (k : Hash) → already_fetched ((h, r) ∷ m) k ≡ false → (h ≢ k) × (already_fetched m k ≡ false)
  unfolding already_fetched
  already_fetched-cons k absent = ground arith

  pub already_fetched_ne : (k : Hash) → h ≢ k → already_fetched ((h, r) ∷ m) k ≡ already_fetched m k
  unfolding already_fetched
  already_fetched_ne k ne = ground arith

  pub receipt_at_ne : (k : Hash) → h ≢ k → receipt_at ((h, r) ∷ m) k ≡ receipt_at m k
  unfolding receipt_at
  receipt_at_ne k ne = ground arith

  pub absent-Distinct :
      (hs : List Hash)
      → All (λ k. already_fetched ((h, r) ∷ m) k ≡ false) hs
      → has_address hs h ≡ false
  unfolding has_address
  absent-Distinct [] absent = refl
  absent-Distinct (k ∷ hs) (first, others) =
      ground (arith, already_fetched-cons k first, absent-Distinct hs others)

pub has_address-cons :
    (h : Hash) (hs : List Hash) (k : Hash)
    → has_address (h ∷ hs) k ≡ false
    → (h ≢ k) × (has_address hs k ≡ false)
unfolding has_address
has_address-cons h hs k absent = ground arith
