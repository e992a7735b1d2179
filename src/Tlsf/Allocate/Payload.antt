-- ===== src/Tlsf/Allocate/Payload.antt =====
-- Where the payload of a block begins, and how much of the block it needs.
use native.Mathlib.Nat.{mod-eq_of_lt, mul-mod_left, div-add-mod, mod-lt}
use mathlib.Core.Option.{none-ne-some}
use native.Mathlib.Decide.{dec_lt}
use rlsf.Base.{
  ltb, Bool-cases, inl, inr, ltb→lt, some_inj, ℕ, zero, suc, ◌+◌, ◌-◌, ◌*◌, ◌/◌, ◌%◌, ◌^◌, ◌≤◌, ◌<◌,
  ◌≡◌, sym, ap, ◌∙◌, subst, some, arith, two-pow-pos, two-pow-sub,
}
use rlsf.Word.{align_down}
use rlsf.Word.Align.{align_down_lem}
use rlsf.Tlsf.Request.{Layout, payload, search_size, max_overhead, checked_round_up}
use rlsf.Tlsf.Allocate.{used_size}

-- The payload `p` of the block at `block`: the header fits before it, and for a large alignment
-- also the pad; it is no farther than the overhead that `max_overhead` accounts for.
pub record IsPayload (align block p : ℕ) : Type 0 where
  pub aligned : p % align ≡ 0
  pub behind : block + 16 ≤ p
  pub near : p ≤ block + 16 + (align - 16)
  pub padded : 32 ≤ align → block + 32 ≤ p
  pub plain : align < 32 → p ≡ block + 16
  pub granular : 32 ≤ align → p % 32 ≡ 0

-- The payload as a quotient.
payload_eq :
    (k block : ℕ)
    → k ≤ 64
    → block + 15 + 2 ^ k < 2 ^ 64
    → payload (2 ^ k) block ≡ (block + 15 + 2 ^ k) / 2 ^ k * 2 ^ k
unfolding payload
payload_eq k block le h =
    let e : (block + 16 + (2 ^ k - 1)) % 2 ^ 64 ≡ block + 15 + 2 ^ k =
      mod-eq_of_lt (omega (arith, two-pow-pos k)) ∙ omega (arith, two-pow-pos k) in
    rw e (align_down_lem k (block + 15 + 2 ^ k) le h)

-- A large power of two is a multiple of 32.
large :
    (block t : ℕ)
    → block % 32 ≡ 0
    → 0 < t
    → IsPayload (32 * t) block ((block + 15 + 32 * t) / (32 * t) * (32 * t))
large block t al pos =
    let x = block + 15 + 32 * t in
    let q = x / (32 * t) in
    let whole : 32 * t * q + x % (32 * t) ≡ x = div-add-mod x (32 * t) in
    let rest : x % (32 * t) < 32 * t = mod-lt x (omega arith) in
    let swap : q * (32 * t) ≡ 32 * (t * q) = omega arith in
    let swap' : 32 * t * q ≡ 32 * (t * q) = omega arith in
    record {
      aligned = mul-mod_left q (32 * t);
      behind = omega (arith, whole, rest, swap, swap');
      near = omega (arith, whole, rest, swap, swap', al);
      padded = λ h. omega (arith, whole, rest, swap, swap', al);
      plain = λ h. absurd (omega arith);
      granular = λ h. omega (arith, swap);
    }

small_parts :
    {align block p : ℕ} → p ≡ block + 16 → p % align ≡ 0 → align ≤ 16 → IsPayload align block p
small_parts e al le = record {
  aligned = al;
  behind = omega arith;
  near = omega arith;
  padded = λ h. absurd (omega arith);
  plain = λ h. e;
  granular = λ h. absurd (omega arith);
}

small :
    (k block : ℕ)
    → k ≤ 4
    → block % 32 ≡ 0
    → IsPayload (2 ^ k) block ((block + 15 + 2 ^ k) / 2 ^ k * 2 ^ k)
small zero block le al = small_parts (omega arith) (omega arith) (omega arith)
small (suc zero) block le al = small_parts (omega arith) (omega arith) (omega arith)
small (suc (suc zero)) block le al = small_parts (omega arith) (omega arith) (omega arith)
small (suc (suc (suc zero))) block le al = small_parts (omega arith) (omega arith) (omega arith)
small (suc (suc (suc (suc zero)))) block le al =
    small_parts (omega arith) (omega arith) (omega arith)
small (suc (suc (suc (suc (suc k))))) block le al = absurd (omega arith)

-- For an alignment that is a power of two and an aligned block with room for the alignment below
-- the end of the address space, the payload is aligned, leaves room for the header and for the pad
-- that a large alignment needs, and is no farther from the block than `max_overhead` accounts for.
pub payload-IsPayload :
    (k block : ℕ)
    → k ≤ 64
    → block % 32 ≡ 0
    → block + 15 + 2 ^ k < 2 ^ 64
    → IsPayload (2 ^ k) block (payload (2 ^ k) block)
payload-IsPayload k block le al h = elim (dec_lt k 5) [
  | yes p ↦ rw (payload_eq k block le h) (small k block (omega arith) al)
  | no p ↦
      let e : 2 ^ k ≡ 32 * 2 ^ (k - 5) = two-pow-sub k 5 (omega arith) in
      rw (payload_eq k block le h) (
        subst (λ t. IsPayload t block ((block + 15 + t) / t * t)) (sym e)
          (large block (2 ^ (k - 5)) al (two-pow-pos (k - 5))))
]

-- The sizes that `allocate` computes, without the words.
pub search_size-eq :
    (l : Layout) (need : ℕ)
    → search_size l ≡ some need
    → (l.size + (l.align - 16) + 47 < 2 ^ 64) × (need ≡ (l.size + (l.align - 16) + 47) / 32 * 32)
unfolding search_size max_overhead checked_round_up
search_size-eq l need e = elim (Bool-cases (ltb (l.size + (l.align - 16 + 16)) (2 ^ 64))) [
  | inr over ↦ absurd (none-ne-some need (rw over at e))
  | inl fits ↦ elim (Bool-cases (ltb (l.size + (l.align - 16 + 16) + 31) (2 ^ 64))) [
    | inr over ↦ absurd (none-ne-some need (rw (fits, over) at e))
    | inl fits' ↦
        let bound : l.size + (l.align - 16 + 16) + 31 < 2 ^ 64 = ltb→lt _ _ fits' in
        let eq : align_down 32 (l.size + (l.align - 16 + 16) + 31) ≡ need =
          some_inj (rw (fits, fits') at e) in
        (
          omega arith,
          sym eq
              ∙ (align_down_lem 5 (l.size + (l.align - 16 + 16) + 31) (omega arith) bound
                  ∙ ap (λ (t : ℕ). t / 32 * 32) (omega arith)),
        )
  ]
]

used_size-eq :
    (l : Layout) (overhead : ℕ)
    → overhead + l.size + 31 < 2 ^ 64
    → used_size l overhead ≡ (overhead + l.size + 31) / 32 * 32
unfolding used_size
used_size-eq l overhead h =
    align_down_lem 5 (overhead + l.size + 32 - 1) (omega arith) (omega arith)
    ∙ ap (λ (t : ℕ). t / 32 * 32) (omega arith)

-- Where `allocate` computes a size to search for, and `p` is where the payload of a block begins,
-- the part of the block that it uses holds the layout from `p` on, is a multiple of 32, and is no
-- larger than the size searched for.
pub used_size-fits :
    (l : Layout) (need block p : ℕ)
    → search_size l ≡ some need
    → IsPayload l.align block p
    → (p + l.size ≤ block + used_size l (p - block))
      × (used_size l (p - block) % 32 ≡ 0)
      × (used_size l (p - block) ≤ need)
used_size-fits l need block p e is =
    let (bound, need_eq) = search_size-eq l need e in
    let near : p - block ≤ l.align - 16 + 16 = omega (arith, is.near) in
    let eq = used_size-eq l (p - block) (omega arith) in
    (omega (arith, eq, is.behind), omega (arith, eq), omega (arith, eq, need_eq))
