-- ===== src/Tlsf/Reallocate/Outcome.antt =====
-- What `reallocate` and `reallocate_inplace` return.
use native.Mathlib.Decide.{dec_lt}
use rlsf.Base.{
  ℕ, ◌+◌, ◌-◌, ◌≤◌, ◌≡◌, ◌≢◌, sym, ap, ◌∙◌, subst, Option, none, some, min, arith, some_inj, inl,
  inr,
}
use rlsf.Tlsf.Config.{Config}
use rlsf.Tlsf.State.{State, Memory}
use rlsf.Tlsf.Request.{Layout}
use rlsf.Tlsf.Links.Rep.{Lists}
use rlsf.Tlsf.Heap.{vacant, Block, View, IsHeap}
use rlsf.Tlsf.Heap.Replace.{HasByte}
use rlsf.Tlsf.Heap.Contents.{SameOthers}
use rlsf.Tlsf.Allocate.Take.{Stays}
use rlsf.Tlsf.Allocate.Payload.{IsPayload}
use rlsf.Tlsf.Client.{Live}
use rlsf.Tlsf.Client.Owned.{owner, IsOwnedBy, IsOwned, header_pad}
use rlsf.Tlsf.Reallocate.Resized.{IsResized}
use rlsf.Tlsf.Reallocate.Copy.{IsFreed, IsCopied, CopyOutcome, no_copy, copied}

-- The allocation in the block at `b` becomes the allocation `y`: it is in a used block that no
-- other allocation has, and keeps `count` bytes from `ptr` on. The other blocks in use stay, with
-- the contents of the used ones. What the old block had is vacant, where it is not in that block.
pub record IsReallocated (h h' : View) (m m' : Memory) (b ptr count : ℕ) (y : Live) : Type 0 where
  pub owned : IsOwned h' m' y
  pub words : (i : ℕ) → i + 8 ≤ count → m' (y.ptr + i) ≡ m (ptr + i)
  pub apart : (z : ℕ) (kz : Block) → h z ≡ some kz → kz.kind ≢ vacant → z ≢ b → z ≢ owner m' y
  pub others : (z : ℕ) (kz : Block) → h z ≡ some kz → kz.kind ≢ vacant → z ≢ b → Stays h h' z
  pub contents : SameOthers h b m m'
  pub freed : (k : Block) → h b ≡ some k → IsFreed h' b k (owner m' y)
  pub bytes : (x : ℕ) → HasByte h' x → HasByte h x

-- What a reallocation of `x` returns: null and the state as it was, where something is known, or a
-- pointer.
pub data ReallocateOutcome (c : Config) (s : State) (h : View) (b ptr count : ℕ) (l : Layout)
    (Q : Type 0) : Option ℕ × State → Type 0 where
  not_moved : Q → ReallocateOutcome c s h b ptr count l Q (none, s)
  reallocated :
      (p : ℕ) (s' : State) (lists' : Lists) (h' : View)
      → IsHeap c s' lists' h'
      → IsReallocated h h' s.mem s'.mem b ptr count (record { ptr = p; layout = l })
      → ReallocateOutcome c s h b ptr count l Q (some p, s')

pub IsReallocated-of_copied :
    {h h' : View} {m m' : Memory} {b ptr : ℕ} (count count' : ℕ) {y : Live}
    → count ≤ count'
    → IsCopied h h' m m' b ptr count' y
    → IsReallocated h h' m m' b ptr count y
IsReallocated-of_copied count count' le is = record {
  owned = is.owned;
  words = λ i lt. is.words i (omega arith);
  apart = λ z kz e ne other. is.fresh z kz e ne;
  others = is.others;
  contents = is.contents;
  freed = is.freed;
  bytes = is.bytes;
}

pub of_copied :
    {c : Config} {s : State} {h : View} {b ptr : ℕ} (count count' : ℕ) {l : Layout} {Q : Type 0}
    (t : Option ℕ × State)
    → count ≤ count'
    → Q
    → CopyOutcome c s h b ptr count' l t
    → ReallocateOutcome c s h b ptr count l Q t
of_copied count count' _ le q no_copy = not_moved q
of_copied count count' _ le q (copied p s' lists' h' heap' is) =
    reallocated p s' lists' h' heap' (IsReallocated-of_copied count count' le is)

module _ {h h' : View} {m m' : Memory} {n e : ℕ} (x : Live) (o : IsOwned h m x) (l : Layout)
    (align_eq : (x.layout).align ≡ l.align) (is : IsResized h h' m m' (owner m x) o.block n e)
    (room : x.ptr + l.size ≤ owner m x + n) (all : owner m x + (o.block).size ≤ e) where
  abbrev b : ℕ
  b = owner m x

  abbrev y : Live
  y = record { ptr = x.ptr; layout = l }

  payload : IsPayload l.align b x.ptr
  payload = subst (λ t. IsPayload t b x.ptr) align_eq o.payload

  now_owned : IsOwnedBy h' b y
  now_owned = record {
    block = is.after;
    at = is.at_after;
    used = is.now_used;
    payload = payload;
    room = omega (arith, room, is.after_size);
  }

  same_header : owner m y ≡ b
  same_header =
      ap (λ (t : ℕ). owner m (record { ptr = x.ptr; layout = record { size = l.size; align = t } }))
        (sym align_eq)

  header : owner m' y ≡ b
  header = header_pad now_owned m m' same_header (λ large.
      is.own (x.ptr - 8) (omega (arith, payload.padded large))
        (omega (arith, room, payload.padded large)) (omega (arith, o.room, payload.padded large)))

  resized-IsFreed : (k : Block) → h b ≡ some k → IsFreed h' b k (owner m' y)
  resized-IsFreed k at x from to =
      let same_block : k ≡ o.block = some_inj (sym at ∙ o.at) in
      elim (dec_lt x (b + n)) [
        | yes low ↦ inr (record {
          block = is.after;
          at = ap h' header ∙ is.at_after;
          from = omega (arith, header);
          to = omega (arith, header, is.after_size);
        })
        | no high ↦ inl (
            is.left x (omega arith) (omega (arith, all, to, ap (λ (t : Block). t.size) same_block)))
      ]

  pub IsReallocated-of_resized :
      IsReallocated h h' m m' b x.ptr (min l.size ((o.block).size - (x.ptr - b))) y
  IsReallocated-of_resized = record {
    owned = subst (λ t. IsOwnedBy h' t y) (sym header) now_owned;
    words = λ i lt.
        is.own (x.ptr + i) (omega (arith, payload.behind)) (omega (arith, room))
          (omega (arith, payload.behind));
    apart = λ z kz e ne other q. other (q ∙ header);
    others = is.others;
    contents = is.contents;
    freed = resized-IsFreed;
    bytes = is.bytes;
  }
