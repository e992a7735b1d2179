-- ===== src/Tlsf/Reallocate/Part.antt =====
-- A region out of the free lists becomes a used block, and a vacant one if there is a rest.
use rlsf.Base.{ℕ, ◌+◌, ◌-◌, ◌%◌, ◌≤◌, ◌<◌, ◌≡◌, ◌≢◌, ◌⊎◌, inl, inr, refl, sym, ◌∙◌, arith}
use rlsf.Tlsf.Config.{Config}
use rlsf.Tlsf.State.{State}
use rlsf.Tlsf.Links.Rep.{Lists, IsFree, SameHeaders}
use rlsf.Tlsf.Heap.{vacant, occupied, Block, View, IsBlockAt, IsVacant, Holds, IsHeap}
use rlsf.Tlsf.Heap.Replace.{Region, replace}
use rlsf.Tlsf.Heap.Tiled.{last-eq, last-ne}
use rlsf.Tlsf.Heap.Members.{Holds-same}
use rlsf.Tlsf.Heap.Vacant.{IsNew, old, tile, remainder, IsNew-of_vacant, vacant_of_IsNew}
use rlsf.Tlsf.Heap.Placed.{
  occupied-ne-vacant, occupied-ne-sentinel, vacant-ne-sentinel, IsPrepared, placed-IsHeap,
}
use rlsf.Tlsf.Allocate.{place_used}
use rlsf.Tlsf.Allocate.Payload.{IsPayload}
use rlsf.Tlsf.Allocate.Place.{
  with_rest, with_rest-size, with_rest-prev, with_rest-next, with_rest-other,
}
use rlsf.Tlsf.Deallocate.{Hole}
use rlsf.Tlsf.Deallocate.Region.{Outside, IsHole}

module _ {c : Config} {s0 : State} {lists0 : Lists} {h : View} (heap : IsHeap c s0 lists0 h) {b : ℕ}
    {k : Block} {hole : Hole} {s : State} {lists : Lists} {r : Region}
    (w : IsHole c s0.mem h b k hole s lists r) (behind : ¬ IsVacant h r.e) (n : ℕ) (pos : 0 < n)
    (fits : r.b + n ≤ r.e) (whole : n % 32 ≡ 0) {align p : ℕ} (payload : IsPayload align r.b p)
    (in_block : p ≤ r.b + n) where
  -- The view with the used block.
  abbrev pub resized : View
  resized = replace h r n occupied vacant

  start_at : IsBlockAt c r.b (w.is).start
  start_at = (heap.tiled).block r.b (w.is).start (w.is).at_start

  end_at : IsBlockAt c r.e (w.is).end
  end_at = (heap.tiled).block r.e (w.is).end (w.is).at_end

  end_used : ((w.is).end).kind ≢ vacant
  end_used e = behind ((w.is).end, (w.is).at_end, e)

  off_region : (x : ℕ) → (x < r.b) ⊎ (r.e ≤ x) → (x < r.b + 16) ⊎ (r.e ≤ x)
  off_region x (inl low) = inl (omega arith)
  off_region x (inr high) = inr high

  off_region_end : (x : ℕ) → (x < r.b) ⊎ (r.e < x) → (x + 8 < r.b + 16) ⊎ (r.e ≤ x + 8)
  off_region_end x (inl low) = inl (omega arith)
  off_region_end x (inr high) = inr (omega arith)

  headers_prev : s.mem (r.b + 8) ≡ r.p
  headers_prev =
      w.same (r.b + 8) (omega (arith, start_at.aligned)) (inl (omega arith))
      ∙ ((heap.agrees r.b (w.is).start (w.is).at_start).1 ∙ (w.is).start_prev)

  -- The heap, for the lists and the headers that the tiles ask for.
  module _ {s2 : State} {lists2 : Lists} (free : IsFree c s2 lists2) where
    pub whole-IsHeap :
        r.b + n ≡ r.e
        → Holds lists2 (λ z. IsVacant h z × Outside r z)
        → ((a : ℕ) → a % 32 < 16 → a ≢ r.e + 8 → s2.mem a ≡ s.mem a)
        → s2.mem (r.e + 8) ≡ r.b
        → IsHeap c (record s2 { mem = place_used s2.mem align p r.b n }) lists2 resized
    whole-IsHeap e holds same back =
        placed-IsHeap heap w.is n pos fits whole (λ more. end_used) payload in_block free
          (Holds-same holds to
            (λ z q. from_new z (IsNew-of_vacant w.is n pos fits occupied vacant z q)))
          (record {
            first_prev =
                same (r.b + 8) (omega (arith, start_at.aligned)) (omega (arith, (w.is).forward))
                ∙ headers_prev;
            rest_size = λ more. absurd (omega arith);
            rest_prev = λ more. absurd (omega arith);
            end_prev =
                back
                ∙ sym (
                    last-eq heap.tiled w.is n pos fits whole occupied vacant occupied-ne-sentinel
                      vacant-ne-sentinel e);
            same_size = λ x al out.
                same x (omega arith) (omega (arith, end_at.aligned))
                ∙ w.same x (omega arith) (off_region x out);
            same_prev = λ x al out.
                same (x + 8) (omega arith) (not_end x out)
                ∙ w.same (x + 8) (omega arith) (off_region_end x out);
          })
      where
        to : (z : ℕ) → IsVacant h z × Outside r z → IsVacant resized z
        to z (vz, o) = vacant_of_IsNew w.is n pos fits occupied vacant z (old o vz)

        from_new : (z : ℕ) → IsNew h r n occupied vacant z → IsVacant h z × Outside r z
        from_new z (old o vz) = (vz, o)
        from_new z (tile o q) = absurd (occupied-ne-vacant o)
        from_new z (remainder o more q) = absurd (omega arith)

        not_end : (x : ℕ) → (x < r.b) ⊎ (r.e < x) → x + 8 ≢ r.e + 8
        not_end x (inl o) q = omega (arith, (w.is).forward)
        not_end x (inr o) q = omega arith

    pub part-IsHeap :
        r.b + n < r.e
        → Holds lists2 (λ z. (IsVacant h z × Outside r z) ⊎ (z ≡ r.b + n))
        → SameHeaders (with_rest s.mem r.b (r.b + n) (r.e - (r.b + n)) r.e) s2.mem
        → IsHeap c (record s2 { mem = place_used s2.mem align p r.b n }) lists2 resized
    part-IsHeap less holds same =
        placed-IsHeap heap w.is n pos fits whole (λ more. end_used) payload in_block free
          (Holds-same holds to
            (λ z q. from_new z (IsNew-of_vacant w.is n pos fits occupied vacant z q)))
          prepared
      where
        to : (z : ℕ) → (IsVacant h z × Outside r z) ⊎ (z ≡ r.b + n) → IsVacant resized z
        to z (inl (vz, o)) = vacant_of_IsNew w.is n pos fits occupied vacant z (old o vz)
        to z (inr q) = vacant_of_IsNew w.is n pos fits occupied vacant z (remainder refl less q)

        from_new :
            (z : ℕ) → IsNew h r n occupied vacant z → (IsVacant h z × Outside r z) ⊎ (z ≡ r.b + n)
        from_new z (old o vz) = inl (vz, o)
        from_new z (tile o q) = absurd (occupied-ne-vacant o)
        from_new z (remainder o more q) = inr q

        unwritten :
            (a : ℕ) → a % 32 < 16 → a ≢ r.e + 8 → a ≢ r.b + n → a ≢ r.b + n + 8 → s2.mem a ≡ s.mem a
        unwritten a low x y z =
            same a low ∙ with_rest-other s.mem r.b (r.b + n) (r.e - (r.b + n)) r.e a x y z

        prepared : IsPrepared s0.mem s2.mem r n
        prepared = record {
          first_prev =
              unwritten (r.b + 8) (omega (arith, start_at.aligned)) (omega (arith, (w.is).forward))
                (omega (arith, start_at.aligned)) (omega arith)
              ∙ headers_prev;
          rest_size = λ more.
              same (r.b + n) (omega (arith, start_at.aligned))
              ∙ with_rest-size s.mem r.b (r.b + n) (r.e - (r.b + n)) r.e;
          rest_prev = λ more.
              same (r.b + n + 8) (omega (arith, start_at.aligned))
              ∙ with_rest-prev s.mem r.b (r.b + n) (r.e - (r.b + n)) r.e;
          end_prev =
              same (r.e + 8) (omega (arith, end_at.aligned))
              ∙ (with_rest-next s.mem r.b (r.b + n) (r.e - (r.b + n)) r.e less end_at.aligned
                    (omega (arith, start_at.aligned))
                  ∙ sym (
                      last-ne heap.tiled w.is n pos fits whole occupied vacant occupied-ne-sentinel
                        vacant-ne-sentinel less));
          same_size = λ x al out.
              unwritten x (omega arith) (omega (arith, end_at.aligned)) (not_rest x out)
                (omega (arith, start_at.aligned))
              ∙ w.same x (omega arith) (off_region x out);
          same_prev = λ x al out.
              unwritten (x + 8) (omega arith) (not_end x out) (omega (arith, start_at.aligned))
                (not_rest' x out)
              ∙ w.same (x + 8) (omega arith) (off_region_end x out);
        }
          where
            not_rest : (x : ℕ) → (x < r.b) ⊎ (r.e ≤ x) → x ≢ r.b + n
            not_rest x (inl o) e = omega arith
            not_rest x (inr o) e = omega arith

            not_rest' : (x : ℕ) → (x < r.b) ⊎ (r.e < x) → x + 8 ≢ r.b + n + 8
            not_rest' x (inl o) e = omega arith
            not_rest' x (inr o) e = omega arith

            not_end : (x : ℕ) → (x < r.b) ⊎ (r.e < x) → x + 8 ≢ r.e + 8
            not_end x (inl o) e = omega (arith, (w.is).forward)
            not_end x (inr o) e = omega arith
