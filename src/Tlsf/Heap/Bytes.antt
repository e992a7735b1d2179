-- ===== src/Tlsf/Heap/Bytes.antt =====
-- A region that is tiled anew has the bytes that it had.
use rlsf.Base.{ℕ, ◌+◌, ◌≤◌, ◌<◌, ◌≡◌, ap, arith}
use rlsf.Tlsf.Config.{Config}
use rlsf.Tlsf.Heap.{Kind, Block, View, IsTiled}
use rlsf.Tlsf.Heap.Replace.{
  Region, replace, HasByte, IsRegion, Found, first, second, behind, outside, Found-cases,
}

module _ {c : Config} {h : View} {r : Region} (t : IsTiled c h) (is : IsRegion h r) (n : ℕ)
    (pos : 0 < n) (fits : r.b + n ≤ r.e) (kind rest : Kind) where
  size_of : {k k' : Block} → k ≡ k' → k.size ≡ k'.size
  size_of e = ap (λ (z : Block). z.size) e

  byte_of :
      (x b : ℕ) (k : Block)
      → Found h r n kind rest is.end b k
      → b ≤ x
      → x < b + k.size
      → HasByte h x
  byte_of x b k (first p q) from to = is.filled x (omega arith) (omega (arith, size_of q))
  byte_of x b k (second more p q) from to = is.filled x (omega arith) (omega (arith, size_of q))
  byte_of x b k (behind p q) from to = record {
    base = r.e;
    block = is.end;
    at = is.at_end;
    from = omega arith;
    to = omega (arith, size_of q);
  }
  byte_of x b k (outside o e) from to = record { base = b; block = k; at = e; from = from; to = to }

  pub replace-HasByte : (x : ℕ) → HasByte (replace h r n kind rest) x → HasByte h x
  replace-HasByte x i =
      byte_of x i.base i.block (Found-cases is n pos fits kind rest i.base i.block i.at) i.from i.to
