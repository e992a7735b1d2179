-- ===== src/Tlsf/Heap/Region.antt =====
-- Regions of a tiled view: one block, and a region with the block behind it or before it.
use native.Mathlib.Decide.{dec_lt, ℕ_discrete}
use rlsf.Base.{ℕ, ◌+◌, ◌≤◌, ◌<◌, ◌≡◌, ◌≢◌, refl, sym, ap, ◌∙◌, some, arith, some_inj}
use rlsf.Tlsf.Config.{Config}
use rlsf.Tlsf.Heap.{sentinel, Block, View, IsBlockAt, IsTiled}
use rlsf.Tlsf.Heap.Replace.{Region, IsRegion}

-- The region of one block.
abbrev pub region_of : ℕ → Block → Region
region_of b k = record { b = b; e = b + k.size; p = k.prev; pool = k.pool }

abbrev pub with_next : (r : Region) → Block → Region
with_next r k = record r { e = r.e + k.size }

abbrev pub with_prev : (r : Region) → Block → Region
with_prev r k = record r { b = r.p; p = k.prev }

module _ {c : Config} {h : View} (t : IsTiled c h) where
  -- A block of which the first byte is in another one is that block.
  pub same_block :
      (b : ℕ) (k : Block) (x : ℕ) (k' : Block)
      → h b ≡ some k
      → h x ≡ some k'
      → b ≤ x
      → x < b + k.size
      → (x ≡ b) × (k' ≡ k)
  same_block b k x k' at at' from to = elim (ℕ_discrete x b) [
    | yes p ↦ (p, some_inj (sym at' ∙ (ap h p ∙ at)))
    | no p ↦ absurd (omega (arith, t.apart b k x k' at at' (omega arith)))
  ]

  alone :
      (b : ℕ) (k : Block) (x : ℕ) (k' : Block)
      → h b ≡ some k
      → k.kind ≢ sentinel
      → h x ≡ some k'
      → b ≤ x
      → x < b + k.size
      → (x + k'.size ≤ b + k.size) × (k'.kind ≢ sentinel)
  alone b k x k' at ne at' from to =
      let (p, q) = same_block b k x k' at at' from to in
      (
        omega (arith, ap (λ (z : Block). z.size) q),
        λ s. ne (sym (ap (λ (z : Block). z.kind) q) ∙ s),
      )

  pub region_of-IsRegion :
      (b : ℕ) (k : Block) → h b ≡ some k → k.kind ≢ sentinel → IsRegion h (region_of b k)
  region_of-IsRegion b k at ne =
      let (k', at', back, pool) = t.next b k at ne in
      let is : IsBlockAt c b k = t.block b k at in
      record {
        start = k;
        end = k';
        at_start = at;
        at_end = at';
        start_prev = refl;
        start_pool = refl;
        end_pool = pool;
        forward = omega (arith, is.at_least);
        inside = λ x kx e from to. alone b k x kx at ne e from to;
        filled = λ x from to. record { base = b; block = k; at = at; from = from; to = to };
      }

  pub with_next-IsRegion :
      {r : Region} (is : IsRegion h r) → (is.end).kind ≢ sentinel → IsRegion h (with_next r is.end)
  with_next-IsRegion {r} is ne =
      let (k', at', back, pool) = t.next r.e is.end is.at_end ne in
      record {
        start = is.start;
        end = k';
        at_start = is.at_start;
        at_end = at';
        start_prev = is.start_prev;
        start_pool = is.start_pool;
        end_pool = pool ∙ is.end_pool;
        forward = omega (arith, is.forward);
        inside = λ x kx e from to. elim (dec_lt x r.e) [
          | yes p ↦ let (fits, other) = is.inside x kx e from p in (omega (arith, fits), other)
          | no p ↦ alone r.e is.end x kx is.at_end ne e (omega arith) to
        ];
        filled = λ x from to. elim (dec_lt x r.e) [
          | yes p ↦ is.filled x from p
          | no p ↦ record {
            base = r.e;
            block = is.end;
            at = is.at_end;
            from = omega arith;
            to = to;
          }
        ];
      }

  pub with_prev-IsRegion :
      {r : Region} (is : IsRegion h r) (k : Block)
      → h r.p ≡ some k
      → r.p + k.size ≡ r.b
      → k.kind ≢ sentinel
      → IsRegion h (with_prev r k)
  with_prev-IsRegion {r} is k at sum ne =
      let (k', at', back, pool) = t.next r.p k at ne in
      let same : is.start ≡ k' = some_inj (sym is.at_start ∙ (ap h (sym sum) ∙ at')) in
      record {
        start = k;
        end = is.end;
        at_start = at;
        at_end = is.at_end;
        start_prev = refl;
        start_pool = sym pool ∙ (ap (λ (z : Block). z.pool) (sym same) ∙ is.start_pool);
        end_pool = is.end_pool;
        forward = omega (arith, is.forward);
        inside = λ x kx e from to. elim (dec_lt x r.b) [
          | yes p ↦
              let (fits, other) = alone r.p k x kx at ne e from (omega arith) in
              (omega (arith, fits, is.forward), other)
          | no p ↦ is.inside x kx e (omega arith) to
        ];
        filled = λ x from to. elim (dec_lt x r.b) [
          | yes p ↦ record { base = r.p; block = k; at = at; from = from; to = omega arith }
          | no p ↦ is.filled x (omega arith) to
        ];
      }
