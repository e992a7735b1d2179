-- ===== src/Tlsf/Heap/New.antt =====
-- The heap of `Tlsf::new`.
use rlsf.Base.{none}
use mathlib.Core.Option.{none-ne-some}
use rlsf.Tlsf.Config.{Config}
use rlsf.Tlsf.State.{Memory, empty}
use rlsf.Tlsf.Links.Rep.{no_lists, empty-IsFree}
use rlsf.Tlsf.Heap.{View, IsHeap}

abbrev pub no_blocks : View
no_blocks x = none

-- Without pools, the state is a heap of no blocks, whatever is in memory.
pub empty-IsHeap : (c : Config) (m : Memory) → IsHeap c (empty m) no_lists no_blocks
empty-IsHeap c m = record {
  tiled = record {
    block = λ b k e. absurd (none-ne-some k e);
    next = λ b k e ne. absurd (none-ne-some k e);
    back = λ b k e. absurd (none-ne-some k e);
    apart = λ b k b' k' e e' lt. absurd (none-ne-some k e);
  };
  agrees = λ b k e. absurd (none-ne-some k e);
  merged = λ b k e v next. absurd (none-ne-some k e);
  free = empty-IsFree c m;
  holds = record { only = λ x y. tt; every = λ z vacant. absurd (none-ne-some vacant.0 vacant.1) };
}
