-- ===== src/Tlsf/Heap/Placed.antt =====
-- A region becomes a used block, and a vacant one if there is a rest: the used block is placed
-- last.
use rlsf.Base.{ℕ, ◌+◌, ◌-◌, ◌%◌, ◌≤◌, ◌<◌, ◌≡◌, ◌≢◌, ◌⊎◌, inl, inr, ◌∙◌, arith}
use rlsf.Tlsf.Config.{Config}
use rlsf.Tlsf.State.{State, Memory}
use rlsf.Tlsf.Links.Heap.{SameLinks}
use rlsf.Tlsf.Links.Rep.{Lists, IsFree}
use rlsf.Tlsf.Heap.{vacant, occupied, sentinel, View, IsBlockAt, IsTiled, IsVacant, Holds, IsHeap}
use rlsf.Tlsf.Heap.Replace.{Region, replace, last_tile, IsRegion}
use rlsf.Tlsf.Heap.Backward.{replace-IsTiled}
use rlsf.Tlsf.Heap.Agree.{IsRewritten, replace-Agrees, replace-IsMerged}
use rlsf.Tlsf.Heap.Members.{spared-IsFree}
use rlsf.Tlsf.Heap.Vacant.{IsNew, old, tile, remainder, IsNew-of_vacant}
use rlsf.Tlsf.Allocate.{place_used}
use rlsf.Tlsf.Allocate.Payload.{IsPayload}
use rlsf.Tlsf.Allocate.Place.{place_used-size, place_used-header, place_used-outside}

pub occupied-ne-vacant : occupied ≢ vacant
occupied-ne-vacant e = cc

pub occupied-ne-sentinel : occupied ≢ sentinel
occupied-ne-sentinel e = cc

pub vacant-ne-sentinel : vacant ≢ sentinel
vacant-ne-sentinel e = cc

-- The headers before the used block is placed: all but the size of that block.
pub record IsPrepared (m m' : Memory) (r : Region) (n : ℕ) : Type 0 where
  pub first_prev : m' (r.b + 8) ≡ r.p
  pub rest_size : r.b + n < r.e → m' (r.b + n) ≡ r.e - (r.b + n)
  pub rest_prev : r.b + n < r.e → m' (r.b + n + 8) ≡ r.b
  pub end_prev : m' (r.e + 8) ≡ last_tile r n
  pub same_size : (x : ℕ) → x % 32 ≡ 0 → (x < r.b) ⊎ (r.e ≤ x) → m' x ≡ m x
  pub same_prev : (x : ℕ) → x % 32 ≡ 0 → (x < r.b) ⊎ (r.e < x) → m' (x + 8) ≡ m (x + 8)

module _ {c : Config} {s : State} {lists : Lists} {h : View} (heap : IsHeap c s lists h)
    {r : Region} (is : IsRegion h r) (n : ℕ) (pos : 0 < n) (fits : r.b + n ≤ r.e)
    (whole : n % 32 ≡ 0) (last : r.b + n < r.e → (is.end).kind ≢ vacant) {align p : ℕ}
    (payload : IsPayload align r.b p) (in_block : p ≤ r.b + n) where
  abbrev placed_view : View
  placed_view = replace h r n occupied vacant

  start_aligned : r.b % 32 ≡ 0
  start_aligned =
      let t : IsBlockAt c r.b is.start = (heap.tiled).block r.b is.start is.at_start in t.aligned

  end_aligned : r.e % 32 ≡ 0
  end_aligned =
      let t : IsBlockAt c r.e is.end = (heap.tiled).block r.e is.end is.at_end in t.aligned

  placed-IsTiled : IsTiled c placed_view
  placed-IsTiled =
      replace-IsTiled heap.tiled is n pos fits whole occupied vacant occupied-ne-sentinel
        vacant-ne-sentinel

  prepared-IsRewritten :
      {m' : Memory}
      → IsPrepared s.mem m' r n
      → IsRewritten s.mem (place_used m' align p r.b n) r n occupied vacant
  prepared-IsRewritten {m'} w = record {
    first_size = place_used-size m' align r.b p n payload whole;
    first_prev = header (r.b + 8) (omega (arith, start_aligned)) (omega arith) ∙ w.first_prev;
    rest_size = λ more.
        header (r.b + n) (omega (arith, start_aligned)) (omega arith)
        ∙ (w.rest_size more ∙ omega arith);
    rest_prev = λ more.
        header (r.b + n + 8) (omega (arith, start_aligned)) (omega arith) ∙ w.rest_prev more;
    end_prev =
        header (r.e + 8) (omega (arith, end_aligned)) (omega (arith, is.forward)) ∙ w.end_prev;
    same_size = λ x al out. header x (omega arith) (away x out) ∙ w.same_size x al out;
    same_prev = λ x al out.
        header (x + 8) (omega arith) (λ e. omega (arith, start_aligned)) ∙ w.same_prev x al out;
  }
    where
      header : (a : ℕ) → a % 32 < 16 → a ≢ r.b → place_used m' align p r.b n a ≡ m' a
      header = place_used-header m' align r.b p n payload whole

      away : (x : ℕ) → (x < r.b) ⊎ (r.e ≤ x) → x ≢ r.b
      away x (inl below) e = omega arith
      away x (inr above) e = omega (arith, is.forward)

  -- A vacant block of the new view is away from the used one.
  away_from_used :
      (z : ℕ)
      → IsVacant placed_view z
      → IsNew h r n occupied vacant z
      → (z + 24 < r.b) ⊎ (r.b + n ≤ z)
  away_from_used z v (old (inl below) (k, e, v')) =
      let t : IsBlockAt c z k = (heap.tiled).block z k e in
      inl (omega (arith, t.at_least, (heap.tiled).apart z k r.b is.start e is.at_start below))
  away_from_used z v (old (inr above) v') = inr (omega arith)
  away_from_used z v (tile o e) = absurd (occupied-ne-vacant o)
  away_from_used z v (remainder o more e) = inr (omega arith)

  module _ {s' : State} {lists' : Lists} (free : IsFree c s' lists')
      (holds : Holds lists' (IsVacant placed_view)) where
    spared :
        (z : ℕ)
        → IsVacant placed_view z
        → (place_used s'.mem align p r.b n z ≡ s'.mem z)
          × SameLinks s'.mem (place_used s'.mem align p r.b n) z
    spared z v = by (away_from_used z v (IsNew-of_vacant is n pos fits occupied vacant z v))
      where
        unwritten :
            (a : ℕ)
            → a ≢ r.b
            → (a < r.b + 16) ⊎ (p ≤ a)
            → place_used s'.mem align p r.b n a ≡ s'.mem a
        unwritten = place_used-outside s'.mem align r.b p n payload whole

        by :
            (z + 24 < r.b) ⊎ (r.b + n ≤ z)
            → (place_used s'.mem align p r.b n z ≡ s'.mem z)
              × SameLinks s'.mem (place_used s'.mem align p r.b n) z
        by (inl low) = (
          unwritten z (omega arith) (inl (omega arith)),
          (
            unwritten (z + 16) (omega arith) (inl (omega arith)),
            unwritten (z + 24) (omega arith) (inl (omega arith)),
          ),
        )
        by (inr high) = (
          unwritten z (omega arith) (inr (omega arith)),
          (
            unwritten (z + 16) (omega arith) (inr (omega arith)),
            unwritten (z + 24) (omega arith) (inr (omega arith)),
          ),
        )

    pub placed-IsHeap :
        IsPrepared s.mem s'.mem r n
        → IsHeap c (record s' { mem = place_used s'.mem align p r.b n }) lists' placed_view
    placed-IsHeap w = record {
      tiled = placed-IsTiled;
      agrees =
          replace-Agrees heap.tiled is n pos fits occupied vacant heap.agrees
            (prepared-IsRewritten w);
      merged =
          replace-IsMerged heap.tiled is n pos fits occupied vacant placed-IsTiled heap.merged
            (record {
              tiles = λ o. absurd (occupied-ne-vacant o);
              first_end = λ o. absurd (occupied-ne-vacant o);
              rest_end = λ o. last;
              before = λ o. absurd (occupied-ne-vacant o);
            });
      free = spared-IsFree free holds (place_used s'.mem align p r.b n) spared;
      holds = holds;
    }
