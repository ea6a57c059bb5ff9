-- ===== src/Server/Named/Reached.antt =====
-- In every state that can be reached each user is listed under its own id.
use phira_mp.Common.{
  ℕ, ◌+◌, ◌≡◌, refl, subst, Bool, false, Option, none, some, List, [], ◌∷◌, if◌then◌else◌,
  Bool-cases, inl, inr,
}
use phira_mp.Command.Types.{ClientCommand}
use phira_mp.Server.{Services, Timer, Server, update_conn, collect, reject}
use phira_mp.Server.Lost.{mark_lost}
use phira_mp.Server.Steps.{
  Event, connect, hello, gone, beat, packet, handle_lost, wake, tick, when, accept, greet,
  take_packet, hang_up, beat_late, next_lost, find_timer, wake_timer, step, Reach, here, next,
}
use phira_mp.Server.Sender.{when-some}
use phira_mp.Server.Named.{Named}
use phira_mp.Server.Named.Packets.{Named-eta, receive-Named}
use phira_mp.Server.Named.Lost.{lose-Named, expire-Named}

when-Named :
    (b : Bool) (mid sv' : Server) → when b mid ≡ some sv' → Named mid.world → Named sv'.world
unfolding collect
when-Named b mid sv' h n =
    subst (λ (x : Server). Named x.world) (when-some b mid sv' h).1
      (Named-eta refl refl refl refl refl n)

module _ (services : Services) where
  accept-Named :
      (s : ℕ) (sv sv' : Server) → Named sv.world → accept s sv ≡ some sv' → Named sv'.world
  unfolding accept
  accept-Named s sv sv' n h = when-Named _ _ sv' h n

  greet-Named : (s : ℕ) (sv sv' : Server) → Named sv.world → greet s sv ≡ some sv' → Named sv'.world
  unfolding greet
  greet-Named s sv sv' n h = when-Named _ _ sv' h n

  packet-Named :
      (s : ℕ) (cmd : ClientCommand) (sv sv' : Server)
      → Named sv.world
      → take_packet services s cmd sv ≡ some sv'
      → Named sv'.world
  unfolding take_packet
  packet-Named s cmd sv sv' n h = when-Named _ _ sv' h (receive-Named services s cmd sv n)

  hang_up-Named :
      (s : ℕ) (sv sv' : Server) → Named sv.world → hang_up s sv ≡ some sv' → Named sv'.world
  unfolding hang_up reject
  hang_up-Named s sv sv' n h = when-Named _ _ sv' h ended
    where
      ended :
          Named
            (if (sv.conn_at s).tx
              then reject s sv
              else update_conn s (λ c. record c { receiving = false }) sv).world
      ended = elim (Bool-cases (sv.conn_at s).tx) [ inl has ↦ rw has n | inr idle ↦ rw idle n ]

  beat_late-Named :
      (s : ℕ) (sv sv' : Server) → Named sv.world → beat_late s sv ≡ some sv' → Named sv'.world
  unfolding beat_late mark_lost
  beat_late-Named s sv sv' n h = when-Named _ _ sv' h n

  next_lost-Named :
      (queue : List ℕ) (sv sv' : Server)
      → Named sv.world
      → next_lost services queue sv ≡ some sv'
      → Named sv'.world
  unfolding next_lost
  next_lost-Named [] sv sv' n h = cc
  next_lost-Named (s ∷ queue) sv sv' n h =
      when-Named _ _ sv' h (lose-Named services s (record sv { lost_con = queue }) n)

  wake_timer-Named :
      (m : ℕ) (sv sv' : Server)
      → Named sv.world
      → wake_timer services m sv ≡ some sv'
      → Named sv'.world
  unfolding wake_timer
  wake_timer-Named m sv sv' n h = found (find_timer m sv.timers) refl
    where
      found : (r : Option (Timer × List Timer)) → find_timer m sv.timers ≡ r → Named sv'.world
      found none e = absurd (cc (rw (e, wake_timer) at h))
      found (some (t, others)) e =
          when-Named _ _ sv' (rw (e, wake_timer) at h)
            (expire-Named services t (record sv { timers = others }) n)

  step-Named :
      (e : Event) (sv sv' : Server)
      → Named sv.world
      → step services e sv ≡ some sv'
      → Named sv'.world
  unfolding step
  step-Named (connect s) sv sv' n h = accept-Named s sv sv' n h
  step-Named (hello s) sv sv' n h = greet-Named s sv sv' n h
  step-Named (packet s cmd) sv sv' n h = packet-Named s cmd sv sv' n h
  step-Named (gone s) sv sv' n h = hang_up-Named s sv sv' n h
  step-Named (beat s) sv sv' n h = beat_late-Named s sv sv' n h
  step-Named handle_lost sv sv' n h = next_lost-Named sv.lost_con sv sv' n h
  step-Named (wake m) sv sv' n h = wake_timer-Named m sv sv' n h
  step-Named (tick k) sv sv' n h =
      let later : record sv { clock = sv.clock + k } ≡ sv' = cc in
      subst (λ (x : Server). Named x.world) later n

  -- Where the map of users lists each user under its own id, the map of rooms each room under its
  -- own id, both at addresses in use, and no room lists more than eight users, all this is so in
  -- every state that can be reached, whatever the order of connections, packets, lost connections
  -- and timers: reconnecting, leaving and being dropped included.
  pub Reach-Named :
      {start sv : Server} → Named start.world → Reach services start sv → Named sv.world
  Reach-Named n here = n
  Reach-Named n (next e r q) = step-Named e _ _ (Reach-Named n r) q
