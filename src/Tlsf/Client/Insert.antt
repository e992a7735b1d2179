-- ===== src/Tlsf/Client/Insert.antt =====
-- A client hands over a range of memory.
use rlsf.Base.{
  ◌^◌, ℕ, ◌+◌, ◌≤◌, ◌<◌, ◌≡◌, ◌≢◌, inl, inr, refl, sym, ap, ◌∙◌, subst, Option, some, none,
  some_inj, arith, ◌∷◌, All,
}
use rlsf.Tlsf.Config.{Config, IsValid}
use rlsf.Tlsf.State.{State, Memory}
use rlsf.Tlsf.Pool.{insert_free_block_ptr}
use rlsf.Tlsf.Pool.Range.{IsPoolLength, length_of, insert_free_block_ptr-IsHeap}
use rlsf.Tlsf.Client.{Range, World, IsApart}
use rlsf.Tlsf.Client.Pools.{apart-Spares}
use rlsf.Tlsf.Client.Owned.{moved, moved-Pairs, IsOwned}
use rlsf.Tlsf.Client.Sound.{IsSound, header_same, used_Stays}

module _ {c : Config} (v : IsValid c) {w : World} (sound : IsSound c w) where
  abbrev m₀ : Memory
  m₀ = (w.state).mem

  pub insert-IsSound :
      (x : Range) (r : Option ℕ) (s' : State)
      → x.start ≢ 0
      → 0 < x.len
      → x.start + x.len < 2 ^ 64
      → All (IsApart x) w.pools
      → insert_free_block_ptr c x.start x.len w.state ≡ some (r, s')
      → IsSound c (record w { state = s'; pools = x ∷ w.pools })
  insert-IsSound x r s' ne pos fits apart run =
      let (r₁, s₁, lists', h', run', heap', ext, len, filled, same) =
        insert_free_block_ptr-IsHeap v sound.heap x.start x.len ne fits
          (apart-Spares w.pools (sound.heap).tiled sound.covered x pos apart) in
      let eq : ◌≡◌ {A = Option ℕ × State} (r₁, s₁) (r, s') = some_inj (sym run' ∙ run) in
      let state_eq : s₁ ≡ s' = ap (λ (t : Option ℕ × State). t.1) eq in
      let keep = header_same sound s₁.mem same in
      let stay =
        used_Stays sound {h' = h'} (λ z k e ne k' e'. (k', ext.kept z k' e', refl, refl)) in
      let P = IsOwned sound.view m₀ in
      subst (λ (t : State). IsSound c (record w { state = t; pools = x ∷ w.pools })) state_eq
        (record {
          lists = lists';
          view = h';
          heap = heap';
          owned = moved sound.view h' m₀ s₁.mem P (λ y o. o) keep stay w.live sound.owned;
          distinct =
              moved-Pairs sound.view h' m₀ s₁.mem P (λ y o. o) keep stay w.live sound.owned
                sound.distinct;
          covered = λ y i. elim (ext.new i.base i.block i.at) [
            | inl old ↦ inr (
                sound.covered y
                  (record { base = i.base; block = i.block; at = old; from = i.from; to = i.to }))
            | inr (from, to, unused) ↦
                inl (omega (arith, i.from), omega (arith, i.to, length_le r₁ x.len len))
          ];
        })
    where
      length_le : (q : Option ℕ) (n : ℕ) → IsPoolLength n q → length_of q ≤ n
      length_le none n is = omega arith
      length_le (some k) n is = is.0
