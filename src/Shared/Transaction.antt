-- ===== src/Shared/Transaction.antt =====
-- Database code: a run from one database state to the next that returns or raises.
-- `async with conn.transaction()` is `transaction`: a raise puts back the state before the block,
-- and a `return` from within commits. PostgreSQL runs the transactions of a service as if one after
-- the other (they lock the rows that they change), so each is one step of the model.
use food_flow.Prelude.{arith, ◌≡◌, Bool, Option, none, some, if◌then◌else◌}
use food_flow.Shared.Error.{Error, Result, ok, err, data_error, value_error, key_error}
use food_flow.Shared.Uuid.{Uuid, IdText, str, malformed}

abbrev pub Tx : Type 0 → Type 0 → Type 0
Tx S A = S → Result A × S

module _ {S A : Type 0} where
  abbrev pub pure : A → Tx S A
  pure a s = (ok a, s)

  abbrev pub raise : Error → Tx S A
  raise e s = (err e, s)

  abbrev pub lift : Result A → Tx S A
  lift r s = (r, s)

  abbrev pub gets : (S → A) → Tx S A
  gets f s = (ok (f s), s)

  -- What a block leaves: its own state where it returned, the state before it where it raised.
  abbrev pub settle : S → Result A × S → Result A × S
  settle s (ok a, s') = (ok a, s')
  settle s (err e, s') = (err e, s)

  unfoldable pub transaction : Tx S A → Tx S A
  transaction m s = settle s (m s)

infixl 5 ◌>>=◌ ◌>>◌
abbrev pub ◌>>=◌ : {S A B : Type 0} → Tx S A → (A → Tx S B) → Tx S B
◌>>=◌ m f s = let (r, s') = m s in elim r [ ok a ↦ f a s' | err e ↦ raise e s' ]

abbrev pub ◌>>◌ : {S A B : Type 0} → Tx S A → Tx S B → Tx S B
m >> k = m >>= λ _. k

abbrev pub Done : Type 0
Done = Unit {0}

module _ {S : Type 0} where
  abbrev pub modify : (S → S) → Tx S Done
  modify f s = (ok tt, f s)

  abbrev pub raise_if : Bool → Error → Tx S Done
  raise_if b e s = (if b then err e else ok tt, s)

-- `uuid.UUID(text)`
abbrev pub uuid_of : IdText → Result Uuid
uuid_of (str u) = ok u
uuid_of (malformed _) = err value_error

-- A text given as the argument of a UUID column: asyncpg raises `DataError` if it spells none.
abbrev pub uuid_param : IdText → Result Uuid
uuid_param (str u) = ok u
uuid_param (malformed _) = err data_error

-- `d[key]`
abbrev pub get_key {ℓ} : {A : Type ℓ} → Option A → Result A
get_key none = err key_error
get_key (some a) = ok a

-- A sequence that succeeds: its first part succeeded, and the second ran on what that left.
pub >>-ok :
    {S B : Type 0} (m : Tx S Done) (k : Tx S B) (s : S) {b : B}
    → ((m >> k) s).0 ≡ ok b
    → ((m s).0 ≡ ok tt) × ((k (m s).1).0 ≡ ok b) × ((m >> k) s ≡ k (m s).1)
>>-ok m k s h = ground arith

pub >>-run :
    {S B : Type 0} (m : Tx S Done) (k : Tx S B) (s : S) {s' : S}
    → m s ≡ (ok tt, s')
    → (m >> k) s ≡ k s'
>>-run m k s h = ground arith

pub >>-err :
    {S B : Type 0} (m : Tx S Done) (k : Tx S B) (s : S) {e : Error}
    → (m s).0 ≡ err e
    → (m >> k) s ≡ (err e, (m s).1)
>>-err m k s h = ground arith

pub returned : {S A : Type 0} (r : Result A × S) {a : A} → r.0 ≡ ok a → r ≡ (ok a, r.1)
returned r h = ground arith

module _ {S A : Type 0} (m : Tx S A) (s : S) where
  -- A block that returns has committed what it did.
  pub transaction-ok :
      {a : A} → (transaction m s).0 ≡ ok a → (transaction m s ≡ m s) × ((m s).0 ≡ ok a)
  unfolding transaction
  transaction-ok h = ground arith

  -- A block that raises leaves nothing behind.
  pub transaction-err : {e : Error} → (transaction m s).0 ≡ err e → (transaction m s).1 ≡ s
  unfolding transaction
  transaction-err h = ground arith

  pub transaction_returns : {a : A} → (m s).0 ≡ ok a → transaction m s ≡ m s
  unfolding transaction
  transaction_returns h = ground arith

  pub transaction_raises : {e : Error} → (m s).0 ≡ err e → transaction m s ≡ (err e, s)
  unfolding transaction
  transaction_raises h = ground arith

pub >>-raise :
    {S B : Type 0} (m : Tx S Done) (k : Tx S B) (s : S) {e : Error} {s' : S}
    → m s ≡ (err e, s')
    → (m >> k) s ≡ (err e, s')
>>-raise m k s h = ground arith
