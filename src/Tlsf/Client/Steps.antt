-- ===== src/Tlsf/Client/Steps.antt =====
-- Every state that a client can reach is sound.
use rlsf.Base.{◌≡◌, sym, subst, none, some}
use rlsf.Tlsf.Config.{Config, IsValid}
use rlsf.Tlsf.State.{State, Memory}
use rlsf.Tlsf.Client.{
  World, Step, insert, grant, refuse, release, resize, keep_size, store, Reach, here, next,
}
use rlsf.Tlsf.Client.Sound.{IsSound, start-IsSound}
use rlsf.Tlsf.Client.Insert.{insert-IsSound}
use rlsf.Tlsf.Client.Grant.{allocated, grant-IsSound}
use rlsf.Tlsf.Client.Release.{release-IsSound}
use rlsf.Tlsf.Client.Store.{store-IsSound}
use rlsf.Tlsf.Client.Resize.{Resized-outcome, kept_state, resize-IsSound}

module _ {c : Config} (v : IsValid c) {w : World} (sound : IsSound c w) where
  -- The state after a step.
  pub step-IsSound : {w' : World} → Step c w w' → IsSound c w'
  step-IsSound (insert x r s' ne pos fits apart run) =
      insert-IsSound v sound x r s' ne pos fits apart run
  step-IsSound (grant l k p s' lt power run) = grant-IsSound v sound l k p s' lt power run
  step-IsSound (refuse l k s' lt power run) =
      let same : s' ≡ w.state = allocated v sound l k (none, s') lt power run in
      subst (λ (t : State). IsSound c (record w { state = t })) (sym same) sound
  step-IsSound (release xs x ys s' split run) = release-IsSound v sound xs x ys s' split run
  step-IsSound (resize xs x ys l k p s' split lt power align run) =
      resize-IsSound v sound xs x ys split l p s'
        (Resized-outcome v sound xs x ys split l k (some p, s') lt power align run)
  step-IsSound (keep_size xs x ys l k s' split lt power align run) =
      let same : s' ≡ w.state =
        kept_state v sound xs x ys split l s'
          (Resized-outcome v sound xs x ys split l k (none, s') lt power align run) in
      subst (λ (t : State). IsSound c (record w { state = t })) (sym same) sound
  step-IsSound (store xs x ys a val split from to) =
      store-IsSound v sound xs x ys a val split from to

pub Reach-IsSound : {c : Config} {m : Memory} {w : World} → IsValid c → Reach c m w → IsSound c w
Reach-IsSound {c} {m} v here = start-IsSound c m
Reach-IsSound v (next r st) = step-IsSound v (Reach-IsSound v r) st
