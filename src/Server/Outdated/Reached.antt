-- ===== src/Server/Outdated/Reached.antt =====
-- In every state that can be reached a mark that was given out before is given to nobody.
use phira_mp.Common.{
  ℕ, ◌+◌, ◌≡◌, refl, subst, Bool, false, Option, none, some, List, [], ◌∷◌, if◌then◌else◌,
  Bool-cases, inl, inr,
}
use phira_mp.Command.Types.{ClientCommand}
use phira_mp.Server.{Services, Timer, Server, update_conn, collect, reject}
use phira_mp.Server.Lost.{mark_lost}
use phira_mp.Server.Steps.{
  Event, connect, hello, gone, beat, packet, handle_lost, wake, tick, when, accept, greet,
  take_packet, hang_up, beat_late, next_lost, find_timer, wake_timer, step, Reach, here, next,
}
use phira_mp.Server.Sender.{when-some}
use phira_mp.Server.Outdated.{Outdated}
use phira_mp.Server.Outdated.Packets.{receive-Outdated}
use phira_mp.Server.Outdated.Lost.{lose-Outdated, expire-Outdated}

when-Outdated :
    (m v : ℕ) (b : Bool) (mid sv' : Server)
    → when b mid ≡ some sv'
    → Outdated m v mid
    → Outdated m v sv'
unfolding collect
when-Outdated m v b mid sv' h n =
    subst (λ (x : Server). Outdated m v x) (when-some b mid sv' h).1 (n)

module _ (services : Services) (m v : ℕ) where
  accept-Outdated :
      (s : ℕ) (sv sv' : Server) → Outdated m v sv → accept s sv ≡ some sv' → Outdated m v sv'
  unfolding accept
  accept-Outdated s sv sv' n h = when-Outdated m v _ _ sv' h n

  greet-Outdated :
      (s : ℕ) (sv sv' : Server) → Outdated m v sv → greet s sv ≡ some sv' → Outdated m v sv'
  unfolding greet
  greet-Outdated s sv sv' n h = when-Outdated m v _ _ sv' h n

  packet-Outdated :
      (s : ℕ) (cmd : ClientCommand) (sv sv' : Server)
      → Outdated m v sv
      → take_packet services s cmd sv ≡ some sv'
      → Outdated m v sv'
  unfolding take_packet
  packet-Outdated s cmd sv sv' n h =
      when-Outdated m v _ _ sv' h (receive-Outdated services s m v cmd sv n)

  hang_up-Outdated :
      (s : ℕ) (sv sv' : Server) → Outdated m v sv → hang_up s sv ≡ some sv' → Outdated m v sv'
  unfolding hang_up reject
  hang_up-Outdated s sv sv' n h = when-Outdated m v _ _ sv' h ended
    where
      ended : Outdated m v (
          if (sv.conn_at s).tx
          then reject s sv
          else update_conn s (λ c. record c { receiving = false }) sv)
      ended = elim (Bool-cases (sv.conn_at s).tx) [ inl has ↦ rw has n | inr idle ↦ rw idle n ]

  beat_late-Outdated :
      (s : ℕ) (sv sv' : Server) → Outdated m v sv → beat_late s sv ≡ some sv' → Outdated m v sv'
  unfolding beat_late mark_lost
  beat_late-Outdated s sv sv' n h = when-Outdated m v _ _ sv' h n

  next_lost-Outdated :
      (queue : List ℕ) (sv sv' : Server)
      → Outdated m v sv
      → next_lost services queue sv ≡ some sv'
      → Outdated m v sv'
  unfolding next_lost
  next_lost-Outdated [] sv sv' n h = cc
  next_lost-Outdated (s ∷ queue) sv sv' n h =
      when-Outdated m v _ _ sv' h (lose-Outdated services m v s (record sv { lost_con = queue }) n)

  wake_timer-Outdated :
      (k : ℕ) (sv sv' : Server)
      → Outdated m v sv
      → wake_timer services k sv ≡ some sv'
      → Outdated m v sv'
  unfolding wake_timer
  wake_timer-Outdated k sv sv' n h = found (find_timer k sv.timers) refl
    where
      found : (r : Option (Timer × List Timer)) → find_timer k sv.timers ≡ r → Outdated m v sv'
      found none e = absurd (cc (rw (e, wake_timer) at h))
      found (some (t, others)) e =
          when-Outdated m v _ _ sv' (rw (e, wake_timer) at h)
            (expire-Outdated services m v t (record sv { timers = others }) n)

  step-Outdated :
      (e : Event) (sv sv' : Server)
      → Outdated m v sv
      → step services e sv ≡ some sv'
      → Outdated m v sv'
  unfolding step
  step-Outdated (connect s) sv sv' n h = accept-Outdated s sv sv' n h
  step-Outdated (hello s) sv sv' n h = greet-Outdated s sv sv' n h
  step-Outdated (packet s cmd) sv sv' n h = packet-Outdated s cmd sv sv' n h
  step-Outdated (gone s) sv sv' n h = hang_up-Outdated s sv sv' n h
  step-Outdated (beat s) sv sv' n h = beat_late-Outdated s sv sv' n h
  step-Outdated handle_lost sv sv' n h = next_lost-Outdated sv.lost_con sv sv' n h
  step-Outdated (wake k) sv sv' n h = wake_timer-Outdated k sv sv' n h
  step-Outdated (tick k) sv sv' n h =
      let later : record sv { clock = sv.clock + k } ≡ sv' = cc in
      subst (λ (x : Server). Outdated m v x) later n

  pub Reach-Outdated :
      {start sv : Server} → Outdated m v start → Reach services start sv → Outdated m v sv
  Reach-Outdated n here = n
  Reach-Outdated n (next e r q) = step-Outdated e _ _ (Reach-Outdated n r) q
