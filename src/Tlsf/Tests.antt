-- ===== src/Tlsf/Tests.antt =====
-- The inputs of the tests.
mod Runs
mod Classes
mod Lists
mod Payloads
mod Heaps
mod Clients
use rlsf.Tlsf.Config.{Config}
use rlsf.Tlsf.State.{State, empty}

abbrev pub small : Config
small = record { fllen = 8; sllen = 8; fl_bits = 8; sl_bits = 8 }

abbrev pub zeros : State
zeros = empty (λ a. 0)
