-- ===== src/World.antt =====
-- What the listener's environment does. Every call that leaves the process is an `Action`; a run
-- carries the trace of the actions so far, the latest first, and the environment answers each call
-- by any function of that trace, so nothing is assumed of it. A Go panic ends a run as `panic`.
pub mod Frame
use chain_ops.Common.{
  ℕ, ◌≡◌, refl, ap, arith, ◌∙◌, ◌⊎◌, inl, inr, List, ◌∷◌, Option, none, some, Bool,
}
use chain_ops.Common.Int.{ℤ}
use chain_ops.Common.Text.{Text}
use chain_ops.Wire.{Json}
use chain_ops.Chain.{Address, Hash, Receipt, Log, Block}

-- What the code asks of an error value: `errors.Is(err, context.DeadlineExceeded)`, the type
-- assertion to net.Error, and `Error()`.
pub record Error : Type 0 where
  pub deadline_exceeded : Bool
  pub net_error : Bool
  pub message : Text

pub data Result {ℓ} (A : Type ℓ) : Type ℓ where
  ok : A → Result A
  err : Error → Result A

pub Result-cases {ℓ} :
    {A : Type ℓ} (r : Result A) → ((a : A) × (r ≡ ok a)) ⊎ ((e : Error) × (r ≡ err e))
Result-cases (ok a) = inl (a, refl)
Result-cases (err e) = inr (e, refl)

-- A connected *ethclient.Client.
abbrev pub Client : Type 0
Client = ℕ

-- ethereum.FilterQuery with the fields that the listener sets; `topics` holds the alternatives of
-- the first position.
pub record FilterQuery : Type 0 where
  pub from_block : ℕ
  pub to_block : ℕ
  pub addresses : List Address
  pub topics : List Hash

-- *nats.Msg
pub record NatsMsg : Type 0 where
  pub subject : Text
  pub payload : Text
  pub header : List (Text × Text)

-- The statements of the db package, with their arguments.
pub data Statement : Type 0 where
  select_network : Text → Statement
  select_last_scanned : Text → Statement
  update_last_scanned : Text → ℤ → Statement
  insert_session : Text → ℤ → Statement
  close_session : Text → Option ℤ → Statement
  select_wallets : Text → Statement

pub data Action : Type 0 where
  read_clock : Action
  dial : Text → Action
  get_chain_id get_block_number get_header : Client → Action
  get_block : Client → ℤ → Action
  get_logs : Client → FilterQuery → Action
  get_receipt : Client → Hash → Action
  publish_msg : NatsMsg → Action
  read_file : Text → Action
  new_pool : Text → Action  -- pgxpool.New
  ping_pool : Action
  connect_nats : Text → Action
  open_jetstream close_nats drain_nats : Action
  sql : Statement → Action

abbrev pub Trace : Type 0
Trace = List Action

-- An RPC endpoint, by the calls of ethclient that the listener makes.
pub record Node : Type 0 where
  pub dial_context : Trace → Text → Result Client
  pub chain_id : Trace → Client → Result ℕ
  pub block_number : Trace → Client → Result ℕ
  pub header_by_number : Trace → Client → Result ℕ  -- the number of the latest header
  pub block_by_number : Trace → Client → ℤ → Result Block
  pub filter_logs : Trace → Client → FilterQuery → Result (List Log)
  pub transaction_receipt : Trace → Client → Hash → Result Receipt

-- JetStream's PublishMsg, whose `none` is a nil error, and what json.Marshal takes from Go's
-- library: the text of a timestamp, which fails for years that RFC 3339 does not have, and the
-- print.
pub record Broker : Type 0 where
  pub publish : Trace → NatsMsg → Option Error
  pub time_text : ℤ → Result Text
  pub print : Json → Text

pub data Outcome {ℓ} (A : Type ℓ) : Type ℓ where
  done : A → Outcome A
  panic : Outcome A

pub Outcome-cases : {A : Type 0} (r : Outcome A) → (r ≡ panic) ⊎ ((a : A) × (r ≡ done a))
Outcome-cases (done a) = inr (a, refl)
Outcome-cases panic = inl refl

abbrev pub M : Type 0 → Type 0
M A = Trace → Outcome A × Trace

module _ {A : Type 0} where
  abbrev pub pure : A → M A
  pure a t = (done a, t)

  abbrev pub crash : M A
  crash t = (panic, t)

  -- One call: the answer depends on the trace before it, and the call is recorded.
  abbrev pub call : Action → (Trace → A) → M A
  call a answer t = (done (answer t), a ∷ t)

  abbrev pub or_crash : Option A → M A
  or_crash none = crash
  or_crash (some a) = pure a

infixl 5 ◌>>=◌ ◌>>◌
abbrev pub ◌>>=◌ : {A B : Type 0} → M A → (A → M B) → M B
◌>>=◌ m f t = let (r, t') = m t in elim r [ done a ↦ f a t' | panic ↦ (panic, t') ]

abbrev pub ◌>>◌ : {A B : Type 0} → M A → M B → M B
m >> k = m >>= λ _. k

-- A step that is done hands its value and its trace to the next one.
pub bind_done :
    {A B : Type 0} (m : M A) (f : A → M B) (t : Trace) {a : A} {t' : Trace}
    → m t ≡ (done a, t')
    → (m >>= f) t ≡ f a t'
bind_done {A} {B} m f t h =
    ap
      (λ (r : Outcome A × Trace). elim r.0 as (λ _. Outcome B × Trace) [
        | done a ↦ f a r.1
        | panic ↦ (panic, r.1)
      ])
      h

-- A panic ends a run, now or after any step.
pub bind_panic :
    {A B : Type 0} (m : M A) (f : A → M B) (t : Trace) → (m t).0 ≡ panic → ((m >>= f) t).0 ≡ panic
bind_panic {A} {B} m f t h = ground (arith, h)

pub bind_panic_after :
    {A B : Type 0} (m : M A) (f : A → M B) (t : Trace)
    → ((a : A) (t' : Trace) → (f a t').0 ≡ panic)
    → ((m >>= f) t).0 ≡ panic
bind_panic_after m f t h = elim (Outcome-cases (m t).0) [
  | inl failed ↦ bind_panic m f t failed
  | inr (a, run) ↦
      let t' : Trace = (m t).1 in
      let split : m t ≡ (done a, t') = λ i. (run i, t') in
      ap (λ r. r.0) (bind_done m f t split) ∙ h a t'
]
