-- ===== src/Server/Sender.antt =====
-- Who has the sender that `Session::new` waits on, in every state that can be reached.
use phira_mp.Common.{
  ℕ, ◌+◌, ◌≡◌, refl, subst, Bool, true, false, Option, none, some, List, [], ◌∷◌, ◌++◌, arith,
  if◌then◌else◌, Bool-cases, Option-cases, inl, inr,
}
use phira_mp.Command.Types.{ClientCommand}
use phira_mp.Server.{Services, Timer, Server, update_conn, mem, remove_one, collect, reject}
use phira_mp.Server.Authenticate.{receive}
use phira_mp.Server.Lost.{mark_lost, lose}
use phira_mp.Server.Calm.{
  Calm, Calm-trans, Calm-update_conn, Calm-collect, OneSender, Calm-OneSender, NoSender-OneSender,
  receive-Calm, receive-NoSender, reject_sender-NoSender,
}
use phira_mp.Server.Calm.Lost.{dangle_if_last-Calm, expire-Calm}
use phira_mp.Server.Steps.{
  Event, connect, hello, gone, beat, packet, handle_lost, wake, tick, when, accept, greet,
  take_packet, hang_up, beat_late, next_lost, find_timer, wake_timer, step, Reach, here, next,
}

pub when-some :
    (b : Bool) (sv sv' : Server) → when b sv ≡ some sv' → (b ≡ true) × (collect sv ≡ sv')
when-some true sv sv' h = (refl, cc)
when-some false sv sv' h = cc

pub when-Calm : (b : Bool) (sv mid sv' : Server) → when b mid ≡ some sv' → Calm sv mid → Calm sv sv'
when-Calm b sv mid sv' h c =
    subst (λ x. Calm sv x) (when-some b mid sv' h).1 (Calm-trans c (Calm-collect mid))

module _ (services : Services) where
  -- A connection that is lost goes off the map of sessions; the rest is calm.
  lose-OneSender : (s : ℕ) (sv : Server) → OneSender sv → OneSender (lose services s sv)
  unfolding lose
  lose-OneSender s sv one = elim (Bool-cases (mem s sv.sessions)) [
    | inr absent ↦ rw absent one
    | inl listed ↦ elim (Option-cases (sv.conn_at s).user) [
      | inl e ↦ rw (listed, e) (record { only = one.only })
      | inr (u, e) ↦
          rw (listed, e)
            (Calm-OneSender {sv = record sv { sessions = remove_one s sv.sessions }}
              (dangle_if_last-Calm services s u (record sv { sessions = remove_one s sv.sessions }))
              (record { only = one.only }))
    ]
  ]

  accept-OneSender :
      (s : ℕ) (sv sv' : Server) → OneSender sv → accept s sv ≡ some sv' → OneSender sv'
  unfolding accept collect
  accept-OneSender s sv sv' one h =
      let (free, same) = when-some _ _ sv' h in
      subst OneSender same (record { only = λ t differ. ground (arith, one.only t) })

  pub greet-Calm : (s : ℕ) (sv sv' : Server) → greet s sv ≡ some sv' → Calm sv sv'
  unfolding greet
  greet-Calm s sv sv' h = when-Calm _ sv _ sv' h (
      Calm-update_conn s (λ c. record c { greeted = true; receiving = true; beating = true }) sv
        (λ c q. q))

  pub beat_late-Calm : (s : ℕ) (sv sv' : Server) → beat_late s sv ≡ some sv' → Calm sv sv'
  unfolding beat_late mark_lost
  beat_late-Calm s sv sv' h = when-Calm _ sv _ sv' h (
      Calm-trans (record { accepting = refl; sessions = refl; no_tx = λ t q. q })
        (Calm-update_conn s (λ c. record c { beating = false })
          (record sv { lost_con = sv.lost_con ++ (s ∷ []) }) (λ c q. q)))

  pub wake_timer-Calm :
      (m : ℕ) (sv sv' : Server) → wake_timer services m sv ≡ some sv' → Calm sv sv'
  unfolding wake_timer
  wake_timer-Calm m sv sv' h = found (find_timer m sv.timers) refl
    where
      found : (r : Option (Timer × List Timer)) → find_timer m sv.timers ≡ r → Calm sv sv'
      found none e = cc (rw (e, wake_timer) at h)
      found (some (t, others)) e = when-Calm _ sv _ sv' (rw (e, wake_timer) at h) (
          Calm-trans {b = record sv { timers = others }}
            (record { accepting = refl; sessions = refl; no_tx = λ q r. r })
            (expire-Calm services t (record sv { timers = others })))

  next_lost-OneSender :
      (queue : List ℕ) (sv sv' : Server)
      → OneSender sv
      → next_lost services queue sv ≡ some sv'
      → OneSender sv'
  unfolding next_lost
  next_lost-OneSender [] sv sv' one h = cc
  next_lost-OneSender (s ∷ queue) sv sv' one h =
      let (free, same) = when-some _ _ sv' h in
      subst OneSender same (
        Calm-OneSender (Calm-collect (lose services s (record sv { lost_con = queue })))
          (lose-OneSender s (record sv { lost_con = queue }) (record { only = one.only })))

  packet-OneSender :
      (s : ℕ) (cmd : ClientCommand) (sv sv' : Server)
      → OneSender sv
      → take_packet services s cmd sv ≡ some sv'
      → OneSender sv'
  unfolding take_packet
  packet-OneSender s cmd sv sv' one h =
      let same = (when-some _ _ sv' h).1 in
      subst OneSender same (Calm-OneSender (Calm-collect (receive services s cmd sv)) after)
    where
      after : OneSender (receive services s cmd sv)
      after = elim (Bool-cases (sv.conn_at s).tx) [
        | inl has ↦ NoSender-OneSender (receive-NoSender services s cmd sv one has)
        | inr idle ↦ Calm-OneSender (receive-Calm services s cmd sv idle) one
      ]

  -- Who hangs up with the sender is the connection that `accept` waits for, and then nobody has one.
  hang_up-OneSender :
      (s : ℕ) (sv sv' : Server) → OneSender sv → hang_up s sv ≡ some sv' → OneSender sv'
  unfolding hang_up
  hang_up-OneSender s sv sv' one h =
      let same = (when-some _ _ sv' h).1 in
      subst OneSender same (Calm-OneSender (Calm-collect _) after)
    where
      after : OneSender (
          if (sv.conn_at s).tx
          then reject s sv
          else update_conn s (λ c. record c { receiving = false }) sv)
      after = elim (Bool-cases (sv.conn_at s).tx) [
        | inl has ↦ rw has (NoSender-OneSender (reject_sender-NoSender services s sv one has))
        | inr idle ↦ rw idle (
            Calm-OneSender (Calm-update_conn s (λ c. record c { receiving = false }) sv (λ c q. q))
              one)
      ]

  -- Every step keeps it that only the connection that is being accepted has a sender.
  pub step-OneSender :
      (e : Event) (sv sv' : Server) → OneSender sv → step services e sv ≡ some sv' → OneSender sv'
  unfolding step
  step-OneSender (connect s) sv sv' one h = accept-OneSender s sv sv' one h
  step-OneSender (hello s) sv sv' one h = Calm-OneSender (greet-Calm s sv sv' h) one
  step-OneSender (packet s cmd) sv sv' one h = packet-OneSender s cmd sv sv' one h
  step-OneSender (gone s) sv sv' one h = hang_up-OneSender s sv sv' one h
  step-OneSender (beat s) sv sv' one h = Calm-OneSender (beat_late-Calm s sv sv' h) one
  step-OneSender handle_lost sv sv' one h = next_lost-OneSender sv.lost_con sv sv' one h
  step-OneSender (wake m) sv sv' one h = Calm-OneSender (wake_timer-Calm m sv sv' h) one
  step-OneSender (tick n) sv sv' one h =
      let later : record sv { clock = sv.clock + n } ≡ sv' = cc in
      subst OneSender later (record { only = one.only })

  -- Where only the connection that `accept` waits for, if any, has the sender that `Session::new`
  -- waits on, that is so in every state that can be reached.
  pub Reach-OneSender :
      {start sv : Server} → OneSender start → Reach services start sv → OneSender sv
  Reach-OneSender one here = one
  Reach-OneSender one (next e r q) = step-OneSender e _ _ (Reach-OneSender one r) q
