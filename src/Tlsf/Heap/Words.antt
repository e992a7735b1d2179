-- ===== src/Tlsf/Heap/Words.antt =====
-- Reading the word of a block that holds its size and its flags.
use rlsf.Base.{
  ℕ, ◌+◌, ◌-◌, ◌%◌, ◌^◌, ◌<◌, ◌≡◌, ◌≢◌, refl, ap, ◌∙◌, true, false, bit_and, arith, ≡→==, ≢→==,
}
use rlsf.Word.Align.{bit_and-high, bit_and-mask}
use rlsf.Tlsf.Config.{Config}
use rlsf.Tlsf.State.{Memory, next_phys_block}
use rlsf.Tlsf.Heap.{Kind, vacant, occupied, sentinel, flags, Block, IsBlockAt}
use rlsf.Tlsf.Used.{is_free}

flags-lt : (k : Kind) → flags k < 4
flags-lt vacant = omega arith
flags-lt occupied = omega arith
flags-lt sentinel = omega arith

odd : (kind : Kind) → kind ≢ vacant → flags kind % 2 ≡ 1
odd vacant ne = absurd (ne refl)
odd occupied ne = refl
odd sentinel ne = refl

module _ {c : Config} {b : ℕ} {k : Block} (is : IsBlockAt c b k) (m : Memory)
    (e : m b ≡ k.size + flags k.kind) where
  pub masked_size : bit_and (m b) (2 ^ 64 - 2 ^ 5) ≡ k.size
  masked_size =
      bit_and-high 5 64 (m b) (omega arith) (omega (arith, is.in_word, is.whole, flags-lt k.kind))
      ∙ omega (arith, is.whole, flags-lt k.kind)

  pub next_phys_block-eq : next_phys_block m b ≡ b + k.size
  unfolding next_phys_block
  next_phys_block-eq = omega (arith, masked_size)

  low_bit : bit_and (m b) 1 ≡ (k.size + flags k.kind) % 2
  low_bit = bit_and-mask 1 (m b) ∙ ap (λ (t : ℕ). t % 2) e

  pub is_free-vacant : k.kind ≡ vacant → is_free (m b) ≡ true
  is_free-vacant v =
      let f : flags k.kind ≡ 0 = ap flags v in
      ≡→== (bit_and (m b) 1) 0 (omega (arith, low_bit, is.whole))

  pub is_free-used : k.kind ≢ vacant → is_free (m b) ≡ false
  is_free-used ne = ≢→== (bit_and (m b) 1) 0 (λ z. omega (arith, low_bit, is.whole, odd k.kind ne))
