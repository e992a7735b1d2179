-- ===== src/Tlsf/Client/Owned.antt =====
-- An allocation of a client has a used block of its own.
use native.Mathlib.Decide.{dec_lt}
use rlsf.Base.{
  ℕ, ◌+◌, ◌-◌, ◌≤◌, ◌<◌, ◌≡◌, ◌≢◌, sym, ◌∙◌, subst, some, arith, List, [], ◌∷◌, ◌++◌, All, All-map,
  All-drop_middle, All-middle,
}
use rlsf.Tlsf.State.{Memory}
use rlsf.Tlsf.Used.{used_block_hdr_for_allocation}
use rlsf.Tlsf.Heap.{occupied, Block, View}
use rlsf.Tlsf.Heap.Contents.{IsInside}
use rlsf.Tlsf.Allocate.Payload.{IsPayload}
use rlsf.Tlsf.Allocate.Take.{Stays}
use rlsf.Tlsf.Client.{Live}

-- The block to which the pointer leads.
abbrev pub owner : Memory → Live → ℕ
owner m x = used_block_hdr_for_allocation m x.ptr (x.layout).align

pub record IsOwnedBy (h : View) (b : ℕ) (x : Live) : Type 0 where
  pub block : Block
  pub at : h b ≡ some block
  pub used : block.kind ≡ occupied
  pub payload : IsPayload (x.layout).align b x.ptr
  pub room : x.ptr + (x.layout).size ≤ b + block.size

abbrev pub IsOwned : View → Memory → Live → Type 0
IsOwned h m x = IsOwnedBy h (owner m x) x

module _ {h : View} {b : ℕ} {x : Live} (o : IsOwnedBy h b x) where
  -- The bytes of the allocation, and the pad before it.
  pub owned-IsInside : (a : ℕ) → x.ptr ≤ a → a < x.ptr + (x.layout).size → IsInside h b a
  owned-IsInside a from to = record {
    block = o.block;
    at = o.at;
    used = o.used;
    from = omega (arith, (o.payload).behind);
    to = omega (arith, o.room);
  }

  pub pad-IsInside : 32 ≤ (x.layout).align → IsInside h b (x.ptr - 8)
  pad-IsInside large = record {
    block = o.block;
    at = o.at;
    used = o.used;
    from = omega (arith, (o.payload).padded large);
    to = omega (arith, o.room, (o.payload).padded large);
  }

  pub IsOwnedBy-Stays : {h' : View} → Stays h h' b → IsOwnedBy h' b x
  IsOwnedBy-Stays stays =
      let (k', e', size, kind) = stays o.block o.at in
      record {
        block = k';
        at = e';
        used = kind ∙ o.used;
        payload = o.payload;
        room = omega (arith, size, o.room);
      }

  -- The header is found after writes that spare the pad.
  pub header_pad :
      (m m' : Memory)
      → owner m x ≡ b
      → (32 ≤ (x.layout).align → m' (x.ptr - 8) ≡ m (x.ptr - 8))
      → owner m' x ≡ b
  unfolding used_block_hdr_for_allocation
  header_pad m m' found same = elim (dec_lt (x.layout).align 32) [
    | yes small ↦ ground (arith, found)
    | no large ↦ let pad = same (omega arith) in ground (arith, found, pad)
  ]

  pub header_kept :
      (m m' : Memory) → owner m x ≡ b → ((a : ℕ) → IsInside h b a → m' a ≡ m a) → owner m' x ≡ b
  header_kept m m' found same =
      header_pad m m' found (λ large. same (x.ptr - 8) (pad-IsInside large))

-- What holds of each two members of a list.
abbrev pub Pairs : (Live → Live → Type 0) → List Live → Type 0
Pairs R [] = Unit
Pairs R (x ∷ xs) = All (R x) xs × Pairs R xs

pub Pairs-drop_middle :
    (R : Live → Live → Type 0) (xs : List Live) (y : Live) (ys : List Live)
    → Pairs R (xs ++ y ∷ ys)
    → Pairs R (xs ++ ys)
Pairs-drop_middle R [] y ys h = h.1
Pairs-drop_middle R (x ∷ xs) y ys h =
    (All-drop_middle (R x) xs y ys h.0, Pairs-drop_middle R xs y ys h.1)

pub Pairs-middle :
    (R : Live → Live → Type 0) (xs : List Live) (y : Live) (ys : List Live)
    → ((x z : Live) → R x z → R z x)
    → Pairs R (xs ++ y ∷ ys)
    → All (R y) (xs ++ ys)
Pairs-middle R [] y ys swap h = h.0
Pairs-middle R (x ∷ xs) y ys swap h =
    (swap x y (All-middle (R x) xs y ys h.0), Pairs-middle R xs y ys swap h.1)

abbrev pub Differ : Memory → Live → Live → Type 0
Differ m x y = owner m x ≢ owner m y

pub Pairs-map :
    (R S : Live → Live → Type 0) (P : Live → Type 0) (xs : List Live)
    → ((x y : Live) → P x → P y → R x y → S x y)
    → All P xs
    → Pairs R xs
    → Pairs S xs
Pairs-map R S P [] f a h = tt
Pairs-map R S P (x ∷ xs) f a h = (by xs a.1 h.0, Pairs-map R S P xs f a.1 h.1)
  where
    by : (zs : List Live) → All P zs → All (R x) zs → All (S x) zs
    by [] p r = tt
    by (z ∷ zs) p r = (f x z a.0 p.0 r.0, by zs p.1 r.1)

-- The allocations after a change that keeps their blocks.
module _ (h h' : View) (m m' : Memory) (P : Live → Type 0) (own : (x : Live) → P x → IsOwned h m x)
    (keep : (x : Live) → P x → owner m' x ≡ owner m x)
    (stay : (x : Live) → P x → Stays h h' (owner m x)) where
  pub moved : (xs : List Live) → All P xs → All (IsOwned h' m') xs
  moved xs =
      All-map P (IsOwned h' m')
        (λ x p.
          subst (λ b. IsOwnedBy h' b x) (sym (keep x p)) (IsOwnedBy-Stays (own x p) (stay x p)))
        xs

  pub moved-Pairs : (xs : List Live) → All P xs → Pairs (Differ m) xs → Pairs (Differ m') xs
  moved-Pairs xs =
      Pairs-map (Differ m) (Differ m') P xs (λ x y p q ne e. ne (sym (keep x p) ∙ (e ∙ keep y q)))
