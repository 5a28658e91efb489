-- ===== src/Error.antt =====
-- crates/heimwatch-storage/src/error.rs: the errors of the storage layer. The message in an
-- `InvalidKey` is kept as data, `KeyFault`, in place of its text.
use heimwatch.Prelude.{ℕ, Bytes}

-- The errors of `str::parse::<u64>`.
pub data IntFault : Type 0 where
  empty invalid_digit pos_overflow : IntFault

pub data KeyFault : Type 0 where
  invalid_utf8 : KeyFault
  part_count : ℕ → KeyFault
  unknown_prefix : Bytes → KeyFault
  invalid_timestamp : IntFault → KeyFault

pub data StorageError : Type 0 where
  database : StorageError
  serialization : StorageError
  database_closed : StorageError
  not_found : StorageError
  invalid_key : KeyFault → StorageError
  system_time_error : StorageError

-- What an `anyhow::Error` of the storage layer stands for.
pub data Failure : Type 0 where
  clock : Failure
  json : Failure
  io : Failure
  storage : StorageError → Failure

pub data Result (E A : Type 0) : Type 0 where
  ok : A → Result E A
  err : E → Result E A

infixl 5 ◌>>=◌
abbrev pub ◌>>=◌ : {E A B : Type 0} → Result E A → (A → Result E B) → Result E B
ok a >>= f = f a
err e >>= f = err e
