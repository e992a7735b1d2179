-- ===== src/Global/Tests.antt =====
-- The theorems on the sources of memory at inputs that meet their hypotheses.
use rlsf.Base.{ℕ, ◌+◌, ◌≡◌, refl, Option, none, some, arith}
use rlsf.Flex.Source.{Slice}
use rlsf.Global.{default_options}
use rlsf.Global.Unix.{Libc, System, IsPageSize, IsPages, alloc-IsPages}
use rlsf.Global.Unix
use rlsf.Global.Unix.Growth.{IsGrowth, realloc_inplace_grow-IsGrowth}
use rlsf.Global.Wasm32.{Instructions, realloc_inplace_grow-none}
use rlsf.Global.Wasm32

-- Mappings are made one behind the other, from the address in the state on.
abbrev libc : Libc ℕ
libc = record {
  sysconf_page_size = 4096;
  map_failed = 18446744073709551615;
  mmap = λ addr len fixed w. (w, w + len);
  munmap = λ addr len w. w;
  pthread_mutex_lock = λ w. some w;
  pthread_mutex_unlock = λ w. w;
}

abbrev system : System ℕ
system = record { page_size_m1 = 65535; os = 65536 }

pages : IsPageSize 65535
pages = record { log2 = 16; power = refl; fits = omega arith; unit = omega arith }

alloc-IsPages_example :
    (r : Option Slice) × (s' : System ℕ) × (Unix.alloc libc 100000 system ≡ some (r, s'))
    × IsPages libc.map_failed 65535 100000 r
alloc-IsPages_example = alloc-IsPages libc 100000 system pages (omega arith)

-- A memory whose pages are counted by the state.
abbrev wasm : Instructions ℕ
wasm = record { memory_size = λ w. w; memory_grow = λ n w. (w, w + n) }

-- The allocation is the last page of a memory of two pages.
realloc_inplace_grow-none_example :
    Wasm32.realloc_inplace_grow wasm default_options
      (record { start = 65536; len = 65536 })
      131072
      2
    ≡ (none, 2)
realloc_inplace_grow-none_example =
    realloc_inplace_grow-none wasm default_options (record { start = 65536; len = 65536 }) 131072 2
      (omega arith) (omega arith)

-- The next mapping is where the allocation ends.
realloc_inplace_grow-IsGrowth_example :
    (r : Option ℕ) × (s' : System ℕ) × (Unix.realloc_inplace_grow libc default_options
        (record { start = 32768; len = 32768 })
        100000
        system
      ≡ some (r, s'))
    × IsGrowth libc 65535 (record { start = 32768; len = 32768 }) 100000 65536 r
realloc_inplace_grow-IsGrowth_example =
    realloc_inplace_grow-IsGrowth libc default_options (record { start = 32768; len = 32768 })
      100000 system pages (omega arith) (omega arith) (omega arith)
