-- ===== src/Tlsf/Allocate/Pop.antt =====
-- `allocate` takes the first block out of the list that it has found.
use rlsf.Base.{ℕ, ◌≡◌, sym, subst, List, ◌∷◌}
use rlsf.Tlsf.Config.{Config}
use rlsf.Tlsf.State.{State}
use rlsf.Tlsf.Links.Rep.{Lists, set_list, IsFree, SameHeaders}
use rlsf.Tlsf.Links.Unlink.{popped-IsFree, popped-SameHeaders, head_block}
use rlsf.Tlsf.Allocate.{pop_first}

-- For well-formed free lists, the head of a list that is not empty is its first block. `allocate`
-- takes that block out, which leaves the rest of the list and the other lists well-formed, and
-- writes no header.
pub pop_first-IsFree :
    {c : Config} {s : State} {lists : Lists} (fl sl block : ℕ) (ys : List ℕ)
    → IsFree c s lists
    → lists fl sl ≡ block ∷ ys
    → (s.first_free fl sl ≡ block)
      × IsFree c (pop_first c fl sl (s.first_free fl sl) s) (set_list lists fl sl ys)
      × SameHeaders s.mem (pop_first c fl sl (s.first_free fl sl) s).mem
unfolding pop_first
pop_first-IsFree {c} {s} {lists} fl sl block ys free here =
    let (is, head) = head_block free fl sl block ys here in
    (
      head,
      subst (λ b. IsFree c (pop_first c fl sl b s) (set_list lists fl sl ys)) (sym head)
          (popped-IsFree free fl sl block ys here),
      subst (λ b. SameHeaders s.mem (pop_first c fl sl b s).mem) (sym head)
          (popped-SameHeaders free fl sl block ys here),
    )
