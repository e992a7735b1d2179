-- ===== src/Tlsf/Reallocate/Move.antt =====
-- `move_into`: an allocation grows into the vacant block before it.
use rlsf.Base.{
  ℕ, ◌+◌, ◌-◌, ◌%◌, ◌≤◌, ◌<◌, ◌≡◌, ◌≢◌, inr, refl, Option, some, arith, false, ◌==◌, ≡→==, ≢→==,
  if◌then◌else◌,
}
use native.Mathlib.Decide.{ℕ_discrete}
use rlsf.Tlsf.Config.{Config, IsValid}
use rlsf.Tlsf.State.{State, write}
use rlsf.Tlsf.Request.{Layout}
use rlsf.Tlsf.Links.Heap.{SameLinks}
use rlsf.Tlsf.Links.Rep.{Lists, IsFree}
use rlsf.Tlsf.Used.{is_free}
use rlsf.Tlsf.Heap.{vacant, occupied, Block, View, IsBlockAt, IsVacant, IsHeap}
use rlsf.Tlsf.Heap.Replace.{Region}
use rlsf.Tlsf.Heap.Members.{spared-IsFree}
use rlsf.Tlsf.Heap.Store.{write-other}
use rlsf.Tlsf.Heap.Words.{is_free-used}
use rlsf.Tlsf.Heap.Contents.{IsInside}
use rlsf.Tlsf.Allocate.{place_used}
use rlsf.Tlsf.Allocate.Payload.{IsPayload}
use rlsf.Tlsf.Allocate.Place.{with_rest, with_rest-size, with_rest-other}
use rlsf.Tlsf.Deallocate.{Hole}
use rlsf.Tlsf.Deallocate.Region.{Outside, IsHole, header}
use rlsf.Tlsf.Reallocate.InPlace.{free_rest}
use rlsf.Tlsf.Reallocate.Part.{whole-IsHeap, part-IsHeap}
use rlsf.Tlsf.Reallocate.Rest.{link_rest, link_rest-kept}
use rlsf.Tlsf.Reallocate.Shrink.{free_rest-used}
use rlsf.Tlsf.Reallocate.Moved.{pos, in_block, copied_mem, copied-IsHole, moved-IsCopied}
use rlsf.Tlsf.Reallocate.Copy.{IsCopied}

-- What follows the copy: the block behind the region gets its link back, to the block or to the
-- rest.
abbrev pub tail : Config → (b n bytes e : ℕ) → State → Option State
tail c b n bytes e s =
    if n == bytes
    then some (record s { mem = write s.mem (e + 8) b })
    else free_rest c b n (bytes - n) e s

module _ {c : Config} (v : IsValid c) {s0 : State} {lists0 : Lists} {h : View}
    (heap : IsHeap c s0 lists0 h) {b : ℕ} {k : Block} (here : h b ≡ some k)
    (used : k.kind ≡ occupied) {hole : Hole} {s : State} {lists : Lists} {r : Region}
    (w : IsHole c s0.mem h b k hole s lists r) (first : r.b < b) (behind : ¬ IsVacant h r.e)
    (own : (a : ℕ) → IsInside h b a → s.mem a ≡ s0.mem a) (ptr count n : ℕ) (after : b + 16 ≤ ptr)
    (within : ptr + count ≤ b + k.size) (whole : n % 32 ≡ 0) (fits : r.b + n ≤ r.e) (l : Layout)
    (p : ℕ) (payload : IsPayload l.align r.b p) (small : count ≤ l.size)
    (room : p + l.size ≤ r.b + n) where
  abbrev pub s3 : State
  s3 = record s {
    mem =
        copied_mem heap here used w first behind own ptr count n after within whole fits l p payload
          small room;
  }

  w3 : IsHole c s0.mem h b k hole s3 lists r
  w3 =
      copied-IsHole heap here used w first behind own ptr count n after within whole fits l p
        payload small room

  start : 0 < n
  start =
      pos heap here used w first behind own ptr count n after within whole fits l p payload small
        room

  inner : p ≤ r.b + n
  inner =
      in_block heap here used w first behind own ptr count n after within whole fits l p payload
        small room

  abbrev pub Tailed : ℕ → Type 0
  Tailed bytes =
      (s4 : State) × (lists' : Lists) × (h' : View) × (tail c r.b n bytes r.e s3 ≡ some s4)
      × IsHeap c (record s4 { mem = place_used s4.mem l.align p r.b n }) lists' h'
      × IsCopied h h' s0.mem (place_used s4.mem l.align p r.b n) b ptr count
          (record { ptr = p; layout = l })

  end_at : IsBlockAt c r.e (w.is).end
  end_at = (heap.tiled).block r.e (w.is).end (w.is).at_end

  here_back : write s3.mem (r.e + 8) r.b (r.e + 8) ≡ r.b
  unfolding write
  here_back = ground arith

  tail_whole : (bytes : ℕ) → r.b + bytes ≡ r.e → n ≡ bytes → Tailed bytes
  tail_whole bytes sum e =
      let m = write s3.mem (r.e + 8) r.b in
      let other : (a : ℕ) → a ≢ r.e + 8 → m a ≡ s3.mem a =
        λ a ne. write-other heap (r.e + 8) r.b s3.mem a ne in
      let spared : (z : ℕ) → IsVacant h z × Outside r z → (m z ≡ s3.mem z) × SameLinks s3.mem m z =
        λ z q.
          let t : IsBlockAt c z q.0.0 = (heap.tiled).block z q.0.0 q.0.1 in
          (
            other z (omega (arith, t.aligned, end_at.aligned)),
            (
              other (z + 16) (omega (arith, t.aligned, end_at.aligned)),
              other (z + 24) (omega (arith, t.aligned, end_at.aligned)),
            ),
          ) in
      let free2 : IsFree c (record s3 { mem = m }) lists =
        spared-IsFree w3.free w3.holds m spared in
      let start =
        pos heap here used w first behind own ptr count n after within whole fits l p payload small
          room in
      let inner =
        in_block heap here used w first behind own ptr count n after within whole fits l p payload
          small room in
      (
        record s3 { mem = m },
        lists,
        _,
        rw (≡→== n bytes e) refl,
        whole-IsHeap heap w3 behind n start fits whole payload inner free2 (omega arith) w3.holds
            (λ a low ne. other a ne) here_back,
        moved-IsCopied heap here used w first behind own ptr count n after within whole fits l p
            payload small room m (λ a off near ne. other a ne),
      )

  tail_part : (bytes : ℕ) → r.b + bytes ≡ r.e → n ≢ bytes → Tailed bytes
  tail_part bytes sum ne =
      let less : r.b + n < r.e = omega arith in
      let size = r.e - (r.b + n) in
      let m = with_rest s3.mem r.b (r.b + n) size r.e in
      let other = with_rest-other s3.mem r.b (r.b + n) size r.e in
      let (s4, lists4, run, free4, same4, holds4) =
        link_rest heap w3 n start less whole m other v
          (with_rest-size s3.mem r.b (r.b + n) size r.e) in
      let live : (w.is).end.kind ≢ vacant = λ q. behind ((w.is).end, (w.is).at_end, q) in
      let test : is_free (s3.mem r.e) ≡ false =
        is_free-used end_at s3.mem
          (header heap w3 r.e (w.is).end (inr (omega arith)) (w.is).at_end).0 live in
      let rest_run = free_rest-used c r.b n (bytes - n) r.e s3 size s4 test (omega arith) run in
      (
        s4,
        lists4,
        _,
        rw (≢→== n bytes ne) rest_run,
        part-IsHeap heap w3 behind n start fits whole payload inner free4 less holds4 same4,
        moved-IsCopied heap here used w first behind own ptr count n after within whole fits l p
            payload small room s4.mem (link_rest-kept heap w3 n start less whole m other s4 run),
      )

  pub tail-IsCopied : (bytes : ℕ) → r.b + bytes ≡ r.e → Tailed bytes
  tail-IsCopied bytes sum = elim (ℕ_discrete n bytes) [
    | yes e ↦ tail_whole bytes sum e
    | no ne ↦ tail_part bytes sum ne
  ]
