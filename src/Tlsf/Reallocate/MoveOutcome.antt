-- ===== src/Tlsf/Reallocate/MoveOutcome.antt =====
-- `move`: the moving approach of `reallocate_inplace`.
use rlsf.Base.{
  ℕ, ◌+◌, ◌-◌, ◌%◌, ◌^◌, ◌≤◌, ◌<◌, ◌≡◌, ◌≢◌, inl, inr, refl, sym, ap, ◌∙◌, subst, Option, none,
  some, ◌>>=◌, min, arith, true, false, ◌==◌, ≡→==, ≢→==, ltb, Bool-cases, Option-cases,
}
use rlsf.Word.{checked_add}
use rlsf.Tlsf.Config.{Config, IsValid}
use rlsf.Tlsf.State.{State}
use rlsf.Tlsf.Request.{Layout, checked_round_up, payload}
use rlsf.Tlsf.Links.Rep.{Lists}
use rlsf.Tlsf.Used.{is_free}
use rlsf.Tlsf.Heap.{flags, vacant, Block, View, IsBlockAt, IsHeap}
use rlsf.Tlsf.Heap.Words.{is_free-vacant, is_free-used}
use rlsf.Tlsf.Allocate.Payload.{IsPayload, payload-IsPayload}
use rlsf.Tlsf.Deallocate.Region.{decide_vacant}
use rlsf.Tlsf.Client.{Live}
use rlsf.Tlsf.Client.Owned.{owner, IsOwned}
use rlsf.Tlsf.Reallocate.Rounded.{multiple_room, rounded}
use rlsf.Tlsf.Reallocate.InPlace.{Clearance, move, move_sized}
use rlsf.Tlsf.Reallocate.Copy.{CopyOutcome, no_copy, copied}
use rlsf.Tlsf.Reallocate.MoveInto.{IsClearance, move_into-IsCopied}

module _ {c : Config} (v : IsValid c) {s : State} {lists : Lists} {h : View}
    (heap : IsHeap c s lists h) (x : Live) (o : IsOwned h s.mem x) (l : Layout)
    (align_eq : (x.layout).align ≡ l.align) (a : ℕ) (a_lt : a < 64) (power : l.align ≡ 2 ^ a)
    (room0 : Clearance) (clear : IsClearance h (owner s.mem x) o.block room0) where
  abbrev b : ℕ
  b = owner s.mem x

  abbrev count : ℕ
  count = min l.size ((o.block).size - (x.ptr - b))

  block_at : IsBlockAt c b o.block
  block_at = (heap.tiled).block b o.block o.at

  abbrev pub Moves : Type 0
  Moves =
      (t : Option ℕ × State) × (move c x.ptr b (b + (o.block).size) (o.block).size room0 l s
        ≡ some t)
      × CopyOutcome c s h b x.ptr count l t

  prev_word : s.mem (b + 8) ≡ (o.block).prev
  prev_word = (heap.agrees b o.block o.at).1

  -- The block before the used one is there, and vacant.
  module _ (kp : Block) (prev_at : h (o.block).prev ≡ some kp) (sum : (o.block).prev + kp.size ≡ b)
      (vac : kp.kind ≡ vacant) where
    abbrev prev : ℕ
    prev = (o.block).prev

    prev_block : IsBlockAt c prev kp
    prev_block = (heap.tiled).block prev kp prev_at

    new_payload : IsPayload l.align prev (payload l.align prev)
    new_payload =
        let old : x.ptr % 2 ^ a ≡ 0 =
          ap (λ (t : ℕ). x.ptr % t) (sym (align_eq ∙ power)) ∙ (o.payload).aligned in
        let below : x.ptr + 2 ^ a ≤ 2 ^ 64 =
          multiple_room a x.ptr a_lt old (omega (arith, o.room, block_at.in_word)) in
        subst (λ t. IsPayload t prev (payload t prev)) (sym power)
          (payload-IsPayload a prev (omega arith) prev_block.aligned
            (omega (arith, below, (o.payload).behind, sum, prev_block.at_least)))

    size_word : s.mem prev ≡ kp.size
    size_word =
        let f : flags kp.kind ≡ 0 = ap flags vac in omega (arith, (heap.agrees prev kp prev_at).0)

    abbrev p : ℕ
    p = payload l.align prev

    found : (prev == 0) ≡ false
    found = ≢→== prev 0 prev_block.ne_null

    free : is_free kp.size ≡ true
    free =
        ap is_free (sym size_word)
        ∙ is_free-vacant prev_block s.mem (heap.agrees prev kp prev_at).0 vac

    no_size : (checked_add (p - prev) l.size >>= checked_round_up) ≡ none → Moves
    unfolding move move_sized
    no_size e = ((none, s), rw (prev_word, size_word, found, free, e) refl, no_copy)

    no_room :
        (n : ℕ)
        → (checked_add (p - prev) l.size >>= checked_round_up) ≡ some n
        → ltb (room0.bytes + kp.size) n ≡ true
        → Moves
    unfolding move move_sized
    no_room n e test = ((none, s), rw (prev_word, size_word, found, free, e, test) refl, no_copy)

    into :
        (n : ℕ)
        → (checked_add (p - prev) l.size >>= checked_round_up) ≡ some n
        → ltb (room0.bytes + kp.size) n ≡ false
        → Moves
    unfolding move move_sized
    into n e test =
        let (whole, enough, close) = rounded (p - prev) l.size n e in
        let (s', lists', h', run, heap', is) =
          move_into-IsCopied v heap o.at o.used prev_at vac sum x.ptr count n (o.payload).behind
            (omega (arith, o.room, (o.payload).behind)) whole l p new_payload (omega arith)
            (omega (arith, enough, (new_payload).behind)) room0 clear (ground (arith, test)) in
        (
          (some p, s'),
          rw (prev_word, size_word, found, free, e, test) run,
          copied p s' lists' h' heap' is,
        )

    moves : Moves
    moves = elim (Option-cases (checked_add (p - prev) l.size >>= checked_round_up)) [
      | inl e ↦ no_size e
      | inr (n, e) ↦ elim (Bool-cases (ltb (room0.bytes + kp.size) n)) [
        | inl test ↦ no_room n e test
        | inr test ↦ into n e test
      ]
    ]

  no_block : (o.block).prev ≡ 0 → Moves
  unfolding move
  no_block null = ((none, s), rw (prev_word, ≡→== (o.block).prev 0 null) refl, no_copy)

  used_block : (kp : Block) → h (o.block).prev ≡ some kp → kp.kind ≢ vacant → Moves
  unfolding move
  used_block kp prev_at ne =
      let t : IsBlockAt c (o.block).prev kp = (heap.tiled).block (o.block).prev kp prev_at in
      let test = is_free-used t s.mem (heap.agrees (o.block).prev kp prev_at).0 ne in
      ((none, s), rw (prev_word, ≢→== (o.block).prev 0 t.ne_null, test) refl, no_copy)

  -- For valid constants, a heap and an allocation, `move` for a layout of the same alignment
  -- returns. Either it returns null and the state stays, or the allocation is moved to the block
  -- before, with its words. The other blocks in use stay, with their contents, and the result is a
  -- heap.
  pub move-CopyOutcome : Moves
  move-CopyOutcome = elim ((heap.tiled).back b o.block o.at) [
    | inl null ↦ no_block null
    | inr (kp, prev_at, sum, ne) ↦ elim (decide_vacant kp.kind) [
      | yes vac ↦ moves kp prev_at sum vac
      | no used ↦ used_block kp prev_at used
    ]
  ]
