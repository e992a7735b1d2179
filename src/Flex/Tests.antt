-- ===== src/Flex/Tests.antt =====
-- The theorems on the footers and on dropping pools at two pools.
use rlsf.Base.{
  ℕ, ◌+◌, ◌≡◌, inl, inr, refl, true, some, some_inj, ap, sym, ◌∙◌, [], ◌∷◌, arith, ◌==◌, ◌&&◌, leb,
  if◌then◌else◌,
}
use rlsf.Tlsf.State.{Memory, empty}
use rlsf.Tlsf.Config.{Config}
use rlsf.Flex.Source.{Slice, FlexSource, default_source}
use rlsf.Flex.Grow.{FlexTlsf, Pool, pool_slice, linked_ftr, moved_ftr}
use rlsf.Flex.Chain.{
  IsSlice, at_end, IsOutside, IsChain, last, next, linked_ftr-IsChain, moved_ftr-IsChain,
}
use rlsf.Flex.Drop.{drop, dealloc_all, SparesOthers, drop-eq-dealloc_all}

abbrev config : Config
config = record { fl_bits = 8; sl_bits = 8; fllen = 8; sllen = 8 }

-- The source overwrites what it gets back, and counts the bytes.
abbrev overwritten : Slice → Memory → Memory
overwritten a m x = if leb a.start x && leb (x + 8) (a.start + a.len) then 255 else m x

abbrev source : FlexSource ℕ
source = record default_source {
  dealloc = λ alloc m w. some (overwritten alloc m, w + alloc.len);
  supports_dealloc = true;
  min_align = 32;
}

source-SparesOthers : SparesOthers source
source-SparesOthers a m m' w w' run x out =
    ap (λ (t : Memory × ℕ). t.0 x) (sym (some_inj run)) ∙ outside out
  where
    outside : IsOutside a x → overwritten a m x ≡ m x
    outside (inl low) = ground arith
    outside (inr high) = ground arith

abbrev first : Slice
first = record { start = 65536; len = 65536 }

abbrev second : Pool
second = record { alloc_start = 196608; alloc_len = 131072; pool_len = 131072 }

-- The footer of the second allocation links to the first.
abbrev footers : Memory
footers a = if a == 327664 then 65536 else if a == 327672 then 65536 else 0

abbrev flex : FlexTlsf ℕ
flex = record { growable_pool = some second; source = 0; tlsf = empty footers }

first-IsSlice : IsSlice first
first-IsSlice = record { ne_null = omega arith; in_word = omega arith }

first-IsChain : IsChain (λ a. 0) 32 (some first) (first ∷ [])
first-IsChain = next 131056 first-IsSlice (at_end (omega arith) (omega arith) refl) refl tt last

chain : IsChain footers 32 (some (pool_slice second)) (pool_slice second ∷ first ∷ [])
chain =
    next 327664 (record { ne_null = omega arith; in_word = omega arith })
      (at_end (omega arith) (omega arith) refl) (refl, refl) (inl (omega arith), tt)
      (next 131056 first-IsSlice (at_end (omega arith) (omega arith) refl) refl tt last)

drop-eq-dealloc_all_example :
    drop source 2 flex ≡ dealloc_all source (pool_slice second ∷ first ∷ []) footers 0
drop-eq-dealloc_all_example =
    drop-eq-dealloc_all source flex (pool_slice second ∷ first ∷ []) 2 refl source-SparesOthers
      chain (omega arith)

abbrev first_pool : Pool
first_pool = record { alloc_start = 65536; alloc_len = 65536; pool_len = 65536 }

linked_ftr-IsChain_example :
    IsChain
      (linked_ftr config source (pool_slice second) (some first_pool) (λ a. 0))
      32
      (some (pool_slice second))
      (pool_slice second ∷ first ∷ [])
linked_ftr-IsChain_example =
    linked_ftr-IsChain config source (λ a. 0) refl (pool_slice second) (some first_pool)
      (first ∷ []) 327664 (record { ne_null = omega arith; in_word = omega arith })
      (at_end (omega arith) (omega arith) refl) (inl (omega arith), tt) first-IsChain

moved_ftr-IsChain_example :
    IsChain
      (moved_ftr config source second 262144 footers)
      32
      (some (record { start = 196608; len = 262144 }))
      (record { start = 196608; len = 262144 } ∷ first ∷ [])
moved_ftr-IsChain_example =
    moved_ftr-IsChain config source footers refl second 262144 (first ∷ []) 458736
      (record { ne_null = omega arith; in_word = omega arith })
      (at_end (omega arith) (omega arith) refl) (inl (omega arith), tt) chain
