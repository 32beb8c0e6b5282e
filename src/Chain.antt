-- ===== src/Chain.antt =====
-- The go-ethereum values that the listener reads, and the functions of that package that it calls,
-- which are parameters. An address and a hash are the numbers that their 20 and 32 bytes spell:
-- the listener compares them, prints them and tests for the zero address.
use chain_ops.Common.{
  ◌≡◌, ◌<◌, ◌≤◌, arith, ℕ, ◌+◌, ◌*◌, ◌%◌, ◌^◌, ◌-◌, List, [], ◌∷◌, Option, ltb, if◌then◌else◌,
}
use chain_ops.Common.Int.{pos_part, neg_part, ℤ, pos, negsuc}
use chain_ops.Common.Text.{Text}

abbrev pub Address : Type 0
Address = ℕ

abbrev pub Hash : Type 0
Hash = ℕ

-- common.Address{}
abbrev pub zero_address : Address
zero_address = 0

-- A Go byte slice: the bytes up to its length, and those between its length and its capacity.
pub record Slice : Type 0 where
  pub bytes : Text
  pub spare : Text

-- *types.Transaction: `To()` is nil for a contract creation, and amounts of wei are not negative.
pub record Tx : Type 0 where
  pub hash : Hash
  pub to : Option Address
  pub value : ℕ
  pub input : Slice

-- *types.Receipt; the price is a pointer and may be nil.
pub record Receipt : Type 0 where
  pub status : ℕ
  pub contract_address : Address
  pub effective_gas_price : Option ℕ
  pub gas_used : ℕ  -- uint64

-- types.Log
pub record Log : Type 0 where
  pub tx_hash : Hash
  pub topics : List Hash
  pub payload : Text
  pub index : ℕ
  pub tx_index : ℕ

-- *types.Block; `number` is below 2^64 on every chain, and `NumberU64` reduces it.
pub record Block : Type 0 where
  pub number : ℕ
  pub hash : Hash
  pub time : ℕ  -- uint64
  pub transactions : List Tx

-- The pure functions of go-ethereum that the listener calls.
pub record Eth : Type 0 where
  pub address_hex : Address → Text  -- Address.Hex
  pub hash_hex : Hash → Text  -- Hash.Hex
  pub hex_to_address : Text → Address  -- common.HexToAddress
  pub topic_address : Hash → Address  -- common.BytesToAddress of a topic's bytes
  pub sender : Tx → Option Address  -- types.Sender with the signer of the chain; none is an error
  pub transfer_topic : Hash  -- crypto.Keccak256Hash of the Transfer signature

-- (*big.Int).SetBytes: the number that the bytes spell, the first byte the highest.
abbrev spell : ℕ → Text → ℕ
spell n [] = n
spell n (b ∷ s) = spell (n * 256 + b) s

unfoldable pub set_bytes : Text → ℕ
set_bytes s = spell 0 s

-- The int64 with the low 64 bits of a number.
abbrev pub word64 : ℕ → ℤ
word64 w = if ltb w (2 ^ 63) then pos w else negsuc (2 ^ 64 - w - 1)

-- (*big.Int).Int64, which keeps the low 64 bits in two's complement.
unfoldable pub int64 : ℤ → ℤ
int64 (pos n) = word64 (n % 2 ^ 64)
int64 (negsuc n) = word64 (2 ^ 64 - 1 - n % 2 ^ 64)

-- In the range of int64 the reduction changes nothing.
pub int64_lem : (a : ℤ) → pos_part a < 2 ^ 63 → neg_part a ≤ 2 ^ 63 → int64 a ≡ a
unfolding int64
int64_lem (pos n) high low = ground (arith, high)
int64_lem (negsuc n) high low = ground (arith, low)
