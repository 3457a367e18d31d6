-- ===== src/Reader/Host.antt =====
-- The two objects that `PlayStationMemoryCardReader` is constructed with, and their state: a USB
-- device of the `usb1` package, and an authenticator.
use ps3_memorycard_adapter.Prelude.{ℕ, List, Bytes, Action, Value}

pub record Host (D : Type 0) : Type 0 where
  -- `usb_device.bulkRead(endpoint, length)` and `usb_device.bulkWrite(endpoint, data)`
  pub bulk_read : ℕ → ℕ → Action D Bytes
  pub bulk_write : ℕ → Bytes → Action D (Unit {0})
  -- `authenticator.authenticate(seed)`
  pub answer : Bytes → Action D (List Value)
