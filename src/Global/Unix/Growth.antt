-- ===== src/Global/Unix/Growth.antt =====
-- crates/rlsf/src/global/unix.rs: what `realloc_inplace_grow` returns.
use rlsf.Base.{
  Option-cases, Bool-cases, inl, inr, ==→≡, ==→≢, some_inj, ◌≢◌, ◌<◌, ◌≤◌, ◌≡◌, ◌*◌, refl, sym, ap,
  ◌∙◌, subst, arith, ℕ, ◌+◌, ◌-◌, ◌%◌, ◌^◌, true, Option, none, some, ◌==◌,
}
use mathlib.Core.Option.{none-ne-some}
use rlsf.Flex.Source.{Slice}
use rlsf.Global.{GlobalTlsfOptions}
use rlsf.Global.Unix.{
  Libc, System, IsPageSize, whole_pages_lem, ensure_known, map_behind, grow_pages,
  realloc_inplace_grow,
}

-- What a growth of `a` to `min_new_len` bytes returns: nothing, or a length of whole pages, enough
-- and less than a page more, whose new bytes `mmap` has put right behind those of `a`.
pub data IsGrowth {W : Type 0} (libc : Libc W) (page_size_m1 : ℕ) (a : Slice) (min_new_len : ℕ)
    (os : W) : Option ℕ → Type 0 where
  no_growth : IsGrowth libc page_size_m1 a min_new_len os none
  growth :
      (n q : ℕ)
      → n ≡ q * (page_size_m1 + 1)
      → min_new_len ≤ n
      → n ≤ min_new_len + page_size_m1
      → (libc.mmap (a.start + a.len) (n - a.len) true os).0 ≡ a.start + a.len
      → a.start + a.len ≢ libc.map_failed
      → IsGrowth libc page_size_m1 a min_new_len os (some n)

module _ {W : Type 0} (libc : Libc W) (a : Slice) (in_word : a.start + a.len < 2 ^ 64) where
  -- The mapping is right behind the allocation where its length is returned.
  map_behind-some :
      (n r : ℕ) (s : System W)
      → a.len ≤ n
      → n < 2 ^ 64
      → (map_behind libc a n s).0 ≡ some r
      → (r ≡ n)
        × ((libc.mmap (a.start + a.len) (n - a.len) true s.os).0 ≡ a.start + a.len)
        × (a.start + a.len ≢ libc.map_failed)
  unfolding map_behind
  map_behind-some n r s le lt e =
      let bytes : (n + 2 ^ 64 - a.len) % 2 ^ 64 ≡ n - a.len = omega arith in
      let behind : (a.start + a.len) % 2 ^ 64 ≡ a.start + a.len = omega (arith, in_word) in
      let at = (libc.mmap (a.start + a.len) (n - a.len) true s.os).0 in
      let e' = rw (bytes, behind) at e in
      elim (Bool-cases (at == a.start + a.len)) [
        | inl here ↦ elim (Bool-cases (at == libc.map_failed)) [
          | inl failed ↦ absurd (none-ne-some r (rw (here, failed) at e'))
          | inr mapped ↦
              let same : at ≡ a.start + a.len = ==→≡ at (a.start + a.len) here in
              (
                sym (some_inj (rw (here, mapped) at e')),
                same,
                subst (λ (t : ℕ). t ≢ libc.map_failed) same (==→≢ at libc.map_failed mapped),
              )
        ]
        | inr elsewhere ↦ absurd (none-ne-some r (rw elsewhere at e'))
      ]

-- Where the size of a page is known, the allocation does not wrap around, and the request, at least
-- as long as the allocation, fits the address space with a page, a growth in place does not abort.
-- If it returns a length, this is at least the request, and consists of whole pages, less than one
-- of them more than it needs; and the bytes behind the allocation up to it are those that `mmap`
-- has returned there.
pub realloc_inplace_grow-IsGrowth :
    {W : Type 0} (libc : Libc W) (options : GlobalTlsfOptions) (a : Slice) (min_new_len : ℕ)
    (s : System W)
    → IsPageSize s.page_size_m1
    → a.start + a.len < 2 ^ 64
    → a.len ≤ min_new_len
    → min_new_len + s.page_size_m1 < 2 ^ 64
    → (r : Option ℕ) × (s' : System W) × (realloc_inplace_grow libc options a min_new_len s
        ≡ some (r, s'))
      × IsGrowth libc s.page_size_m1 a min_new_len s.os r
unfolding realloc_inplace_grow grow_pages
realloc_inplace_grow-IsGrowth {W} libc options a min_new_len s is in_word more h =
    let (q, eq, enough, near) = whole_pages_lem min_new_len s.page_size_m1 is h in
    let n = q * (s.page_size_m1 + 1) in
    elim (Bool-cases options.coalesce_pools) [
      | inr off ↦ (none, s, rw off refl, no_growth)
      | inl on ↦ (
        (map_behind libc a n s).0,
        (map_behind libc a n s).1,
        rw (on, ensure_known libc s is, eq) refl,
        elim (Option-cases (map_behind libc a n s).0) [
          | inl none_eq ↦
              subst (IsGrowth libc s.page_size_m1 a min_new_len s.os) (sym none_eq) no_growth
          | inr (r, some_eq) ↦
              let (same, behind, ok) =
                map_behind-some libc a in_word n r s (omega (arith, enough)) (omega (arith, near))
                  some_eq in
              subst (IsGrowth libc s.page_size_m1 a min_new_len s.os) (sym (some_eq ∙ ap some same))
                (growth n q refl enough near behind ok)
        ],
      )
    ]
