-- ===== src/Slime/Errors.antt =====
-- The error types of crates/slime-tracker/src/lib.rs. What a `DekuError` says is left out.
use everything_imu.Prelude.{ℕ}

pub data SerializeError : Type 0 where
  deku_write : SerializeError
  buffer_too_small : SerializeError

pub data DeserializeError : Type 0 where
  deku_read : DeserializeError
  bytes_remaining : DeserializeError
  truncated : DeserializeError
  wrong_tag : ℕ → DeserializeError
