-- ===== src/Tlsf/Allocate/Fresh.antt =====
-- A vacant block that is out of its free list becomes a used block, and a vacant one if there is a
-- rest.
use native.Mathlib.Decide.{dec_lt}
use rlsf.Base.{ℕ, ◌+◌, ◌-◌, ◌%◌, ◌≤◌, ◌<◌, ◌≡◌, ◌≢◌, ◌⊎◌, inl, inr, refl, sym, ◌∙◌, some, arith}
use rlsf.Tlsf.Config.{Config, IsValid}
use rlsf.Tlsf.Class.Floor.{IsSize}
use rlsf.Tlsf.State.{State, Memory}
use rlsf.Tlsf.Links.Heap.{IsBlock, SameLinks}
use rlsf.Tlsf.Links.Rep.{Lists, IsFree, SameHeaders}
use rlsf.Tlsf.Heap.{vacant, occupied, sentinel, Block, View, IsBlockAt, IsVacant, Holds, IsHeap}
use rlsf.Tlsf.Heap.Replace.{replace, IsRegion}
use rlsf.Tlsf.Heap.Region.{region_of, region_of-IsRegion}
use rlsf.Tlsf.Heap.Members.{Holds-same, spared-IsFree, link-Holds}
use rlsf.Tlsf.Heap.Vacant.{IsNew, old, tile, remainder, IsNew-of_vacant, vacant_of_IsNew}
use rlsf.Tlsf.Heap.Placed.{occupied-ne-vacant, vacant-ne-sentinel, IsPrepared, placed-IsHeap}
use rlsf.Tlsf.Allocate.{place_used, split_rest}
use rlsf.Tlsf.Allocate.Payload.{IsPayload}
use rlsf.Tlsf.Allocate.Place.{
  with_rest, with_rest-size, with_rest-prev, with_rest-next, with_rest-other,
}

module _ {c : Config} {s : State} {lists : Lists} {h : View} (heap : IsHeap c s lists h) {b : ℕ}
    {k : Block} (here : h b ≡ some k) (v : k.kind ≡ vacant) (n : ℕ) (pos : 0 < n)
    (fits : n ≤ k.size) (whole : n % 32 ≡ 0) {align p : ℕ} (payload : IsPayload align b p)
    (in_block : p ≤ b + n) where
  abbrev pub taken : View
  taken = replace h (region_of b k) n occupied vacant

  block_at : IsBlockAt c b k
  block_at = (heap.tiled).block b k here

  pub ne_sentinel : k.kind ≢ sentinel
  ne_sentinel e = vacant-ne-sentinel (sym v ∙ e)

  pub region : IsRegion h (region_of b k)
  region = region_of-IsRegion heap.tiled b k here ne_sentinel

  end_used : (region.end).kind ≢ vacant
  end_used e = heap.merged b k here v (region.end, region.at_end, e)

  end_back : s.mem (b + k.size + 8) ≡ b
  end_back =
      let (k', at', back, pool) = (heap.tiled).next b k here ne_sentinel in
      (heap.agrees (b + k.size) k' at').1 ∙ back

  -- The other blocks are outside of this one.
  pub other_outside : (z : ℕ) (kz : Block) → h z ≡ some kz → z ≢ b → (z < b) ⊎ (b + k.size ≤ z)
  other_outside z kz e ne = elim (dec_lt z b) [
    | yes q ↦ inl q
    | no q ↦ inr (omega (arith, (heap.tiled).apart b k z kz here e (omega arith)))
  ]

  module _ {s1 : State} {lists1 : Lists} (free : IsFree c s1 lists1)
      (holds : Holds lists1 (λ z. IsVacant h z × (z ≢ b))) (same : SameHeaders s.mem s1.mem) where
    pub take_whole :
        n ≡ k.size → IsHeap c (record s1 { mem = place_used s1.mem align p b n }) lists1 taken
    take_whole e =
        placed-IsHeap heap region n pos (omega arith) whole (λ more. absurd (omega arith)) payload
          in_block free holds' prepared
      where
        to : (z : ℕ) → IsVacant h z × (z ≢ b) → IsVacant taken z
        to z (vz, ne) =
            vacant_of_IsNew region n pos (omega arith) occupied vacant z
              (old (other_outside z vz.0 vz.1 ne) vz)

        from_new : (z : ℕ) → IsNew h (region_of b k) n occupied vacant z → IsVacant h z × (z ≢ b)
        from_new z (old (inl o) vz) = (vz, omega arith)
        from_new z (old (inr o) vz) = (vz, λ q. omega (arith, region.forward))
        from_new z (tile o q) = absurd (occupied-ne-vacant o)
        from_new z (remainder o more q) = absurd (omega arith)

        holds' : Holds lists1 (IsVacant taken)
        holds' =
            Holds-same holds to
              (λ z w. from_new z (IsNew-of_vacant region n pos (omega arith) occupied vacant z w))

        prepared : IsPrepared s.mem s1.mem (region_of b k) n
        prepared = record {
          first_prev = same (b + 8) (omega (arith, block_at.aligned)) ∙ (heap.agrees b k here).1;
          rest_size = λ more. absurd (omega arith);
          rest_prev = λ more. absurd (omega arith);
          end_prev =
              same (b + k.size + 8) (omega (arith, block_at.aligned, block_at.whole))
              ∙ (end_back ∙ ground arith);
          same_size = λ x al out. same x (omega arith);
          same_prev = λ x al out. same (x + 8) (omega arith);
        }

    -- With a rest, its header is written and it is linked.
    module _ (less : n < k.size) where
      abbrev written : Memory
      written = with_rest s1.mem b (b + n) (k.size - n) (b + k.size)

      al : b % 32 ≡ 0
      al = block_at.aligned

      al_end : (b + k.size) % 32 ≡ 0
      al_end = omega (arith, block_at.aligned, block_at.whole)

      unwritten : (a : ℕ) → a ≢ b + k.size + 8 → a ≢ b + n → a ≢ b + n + 8 → written a ≡ s1.mem a
      unwritten = with_rest-other s1.mem b (b + n) (k.size - n) (b + k.size)

      kept_links :
          (z : ℕ) → z % 32 ≡ 0 → z ≢ b + n → (written z ≡ s1.mem z) × SameLinks s1.mem written z
      kept_links z alz ne = (
        unwritten z (omega (arith, al_end)) ne (omega (arith, al)),
        (
          unwritten (z + 16) (omega (arith, al_end)) (omega (arith, al)) (omega (arith, al)),
          unwritten (z + 24) (omega (arith, al_end)) (omega (arith, al)) (omega (arith, al)),
        ),
      )

      pub spared :
          (z : ℕ) → IsVacant h z × (z ≢ b) → (written z ≡ s1.mem z) × SameLinks s1.mem written z
      spared z ((kz, e, vz), ne) =
          let t : IsBlockAt c z kz = (heap.tiled).block z kz e in
          let away = other_outside z kz e ne in
          kept_links z t.aligned (λ q. elim away [ inl o ↦ omega arith | inr o ↦ omega arith ])

      -- The rest is not in a list yet.
      fresh : ¬ (IsVacant h (b + n) × (b + n ≢ b))
      fresh ((kz, e, vz), ne) = elim (other_outside (b + n) kz e ne) [
        | inl o ↦ omega arith
        | inr o ↦ omega arith
      ]

      rest_block : IsBlock (b + n)
      rest_block = record { ne_null = omega arith; aligned = omega (arith, al) }

      rest_size : IsSize (k.size - n)
      rest_size = record {
        at_least = omega (arith, block_at.whole);
        in_word = omega (arith, block_at.in_word);
      }

      to : (z : ℕ) → (IsVacant h z × (z ≢ b)) ⊎ (z ≡ b + n) → IsVacant taken z
      to z (inl (vz, ne)) =
          vacant_of_IsNew region n pos fits' occupied vacant z
            (old (other_outside z vz.0 vz.1 ne) vz)
        where
          fits' : b + n ≤ b + k.size
          fits' = omega arith
      to z (inr q) =
          vacant_of_IsNew region n pos (omega arith) occupied vacant z
            (remainder refl (omega arith) q)

      from_new :
          (z : ℕ)
          → IsNew h (region_of b k) n occupied vacant z
          → (IsVacant h z × (z ≢ b)) ⊎ (z ≡ b + n)
      from_new z (old (inl o) vz) = inl (vz, omega arith)
      from_new z (old (inr o) vz) = inl (vz, λ q. omega (arith, region.forward))
      from_new z (tile o q) = absurd (occupied-ne-vacant o)
      from_new z (remainder o more q) = inr q

      prepared : (m2 : Memory) → SameHeaders written m2 → IsPrepared s.mem m2 (region_of b k) n
      prepared m2 same2 = record {
        first_prev =
            same2 (b + 8) (omega (arith, al))
            ∙ (unwritten (b + 8) (omega (arith, block_at.at_least)) (omega (arith, al))
                  (omega arith)
                ∙ (same (b + 8) (omega (arith, al)) ∙ (heap.agrees b k here).1));
        rest_size = λ more.
            same2 (b + n) (omega (arith, al))
            ∙ (with_rest-size s1.mem b (b + n) (k.size - n) (b + k.size) ∙ omega arith);
        rest_prev = λ more.
            same2 (b + n + 8) (omega (arith, al))
            ∙ with_rest-prev s1.mem b (b + n) (k.size - n) (b + k.size);
        end_prev =
            same2 (b + k.size + 8) (omega (arith, al_end))
            ∙ (with_rest-next s1.mem b (b + n) (k.size - n) (b + k.size) (omega arith) al_end
                  (omega (arith, al))
                ∙ ground arith);
        same_size = λ x alx out.
            same2 x (omega arith)
            ∙ (unwritten x (omega (arith, al_end)) (not_rest x out) (omega (arith, al))
                ∙ same x (omega arith));
        same_prev = λ x alx out.
            same2 (x + 8) (omega arith)
            ∙ (unwritten (x + 8) (not_end x out) (omega (arith, al)) (not_rest' x out)
                ∙ same (x + 8) (omega arith));
      }
        where
          not_rest : (x : ℕ) → (x < b) ⊎ (b + k.size ≤ x) → x ≢ b + n
          not_rest x (inl o) e = omega arith
          not_rest x (inr o) e = omega arith

          not_rest' : (x : ℕ) → (x < b) ⊎ (b + k.size < x) → x + 8 ≢ b + n + 8
          not_rest' x (inl o) e = omega arith
          not_rest' x (inr o) e = omega arith

          not_end : (x : ℕ) → (x < b) ⊎ (b + k.size < x) → x + 8 ≢ b + k.size + 8
          not_end x (inl o) e = omega arith
          not_end x (inr o) e = omega arith

      pub take_part :
          IsValid c
          → (s2 : State) × (lists2 : Lists) × (split_rest c b k.size n (b + k.size) s1 ≡ some s2)
            × IsHeap c (record s2 { mem = place_used s2.mem align p b n }) lists2 taken
      unfolding split_rest
      take_part valid =
          let (s2, lists2, run, free2, same2, holds2) =
            link-Holds (spared-IsFree free holds written spared) holds (b + n) (k.size - n) valid
              rest_block fresh rest_size (omega (arith, block_at.from_pool, block_at.in_pool))
              (with_rest-size s1.mem b (b + n) (k.size - n) (b + k.size)) in
          let holds' : Holds lists2 (IsVacant taken) =
            Holds-same holds2 to (λ z w.
              from_new z (IsNew-of_vacant region n pos (omega arith) occupied vacant z w)) in
          (
            s2,
            lists2,
            run,
            placed-IsHeap heap region n pos (omega arith) whole (λ more. end_used) payload in_block
                free2 holds' (prepared s2.mem same2),
          )
