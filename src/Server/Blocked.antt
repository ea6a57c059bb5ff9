-- ===== src/Server/Blocked.antt =====
-- While `accept` waits for a connection to authenticate, it holds the lock of `sessions`: no other
-- connection is accepted, and no lost one is handled.
use phira_mp.Common.{
  ℕ, ◌+◌, ◌≡◌, refl, ◌∙◌, subst, Bool, true, false, not, ◌&&◌, Option, none, some, List, [], ◌∷◌,
  arith, ◌==◌, Bool-cases, Option-cases, inl, inr,
}
use phira_mp.Server.{Services, Server}
use phira_mp.Server.Calm.{Calm, Calm-update_conn, OneSender, Calm-OneSender, receive-Calm}
use phira_mp.Server.Steps.{
  Event, connect, hello, gone, beat, packet, handle_lost, wake, tick, is_free, accept, take_packet,
  hang_up, next_lost, step,
}
use phira_mp.Server.Sender.{when-some, when-Calm, greet-Calm, beat_late-Calm, wake_timer-Calm}

-- An event of the connection `s`.
unfoldable pub is_of : ℕ → Event → Bool
is_of s (connect t) = t == s
is_of s (hello t) = t == s
is_of s (packet t cmd) = t == s
is_of s (gone t) = t == s
is_of s _ = false

unfoldable pub none_of : ℕ → List Event → Bool
none_of s [] = true
none_of s (e ∷ es) = not (is_of s e) && none_of s es

-- A list of events, one after the other.
unfoldable pub run : Services → List Event → Server → Option Server
run services [] sv = some sv
run services (e ∷ es) sv = elim (step services e sv) [
  | none ↦ none
  | some sv' ↦ run services es sv'
]

module _ (services : Services) (s : ℕ) where
  not_free :
      (sv : Server) (b : Bool) → sv.accepting ≡ some s → ¬ ((is_free sv.accepting && b) ≡ true)
  not_free sv b held h = cc (rw held at h)

  next_lost_waits :
      (queue : List ℕ) (sv sv' : Server)
      → sv.accepting ≡ some s
      → ¬ (next_lost services queue sv ≡ some sv')
  unfolding next_lost
  next_lost_waits [] sv sv' held h = cc
  next_lost_waits (t ∷ queue) sv sv' held h = not_free sv _ held (when-some _ _ sv' h).0

  hang_up-Calm :
      (t : ℕ) (sv sv' : Server) → (sv.conn_at t).tx ≡ false → hang_up t sv ≡ some sv' → Calm sv sv'
  unfolding hang_up
  hang_up-Calm t sv sv' idle h =
      when-Calm _ sv _ sv' h
        (rw idle (Calm-update_conn t (λ c. record c { receiving = false }) sv (λ c q. q)))

  sender_elsewhere :
      (t : ℕ) (sv : Server)
      → OneSender sv
      → sv.accepting ≡ some s
      → (t == s) ≡ false
      → (sv.conn_at t).tx ≡ false
  sender_elsewhere t sv one held other = one.only t (rw held (ground arith))

  -- While the lock is held, every step of others is calm.
  others-Calm :
      (e : Event) (sv sv' : Server)
      → OneSender sv
      → sv.accepting ≡ some s
      → is_of s e ≡ false
      → step services e sv ≡ some sv'
      → Calm sv sv'
  unfolding step is_of
  others-Calm (connect t) sv sv' one held other h =
      absurd (not_free sv _ held (unfold accept in (when-some _ _ sv' h).0))
  others-Calm (hello t) sv sv' one held other h = greet-Calm services t sv sv' h
  others-Calm (packet t cmd) sv sv' one held other h =
      unfold take_packet in
      (when-Calm _ sv _ sv' h
        (receive-Calm services t cmd sv (sender_elsewhere t sv one held other)))
  others-Calm (gone t) sv sv' one held other h =
      hang_up-Calm t sv sv' (sender_elsewhere t sv one held other) h
  others-Calm (beat t) sv sv' one held other h = beat_late-Calm services t sv sv' h
  others-Calm handle_lost sv sv' one held other h =
      absurd (next_lost_waits sv.lost_con sv sv' held h)
  others-Calm (wake m) sv sv' one held other h = wake_timer-Calm services m sv sv' h
  others-Calm (tick n) sv sv' one held other h =
      let later : record sv { clock = sv.clock + n } ≡ sv' = cc in
      subst (λ x. Calm sv x) later (record { accepting = refl; sessions = refl; no_tx = λ t q. q })

  both_none :
      (e : Event) (es : List Event)
      → none_of s (e ∷ es) ≡ true
      → (is_of s e ≡ false) × (none_of s es ≡ true)
  unfolding none_of
  both_none e es h = ground (arith, Bool-cases (is_of s e))

  run_first :
      (e : Event) (es : List Event) (sv sv' : Server)
      → run services (e ∷ es) sv ≡ some sv'
      → (mid : Server) × (step services e sv ≡ some mid) × (run services es mid ≡ some sv')
  unfolding run
  run_first e es sv sv' h = elim (Option-cases (step services e sv)) [
    | inl q ↦ cc (rw (q, run) at h)
    | inr (mid, q) ↦ (mid, q, rw (q, run) at h)
  ]

  -- A connection is being accepted, and only its callback has a sender. Whatever happens then, but
  -- for its version, a packet of it and its end, the lock stays with it: it is still being
  -- accepted, and no session has come or gone.
  pub silent_client-Calm :
      (es : List Event) (sv sv' : Server)
      → OneSender sv
      → sv.accepting ≡ some s
      → none_of s es ≡ true
      → run services es sv ≡ some sv'
      → (sv'.accepting ≡ some s) × (sv'.sessions ≡ sv.sessions)
  unfolding run none_of
  silent_client-Calm [] sv sv' one held others h =
      let same : sv ≡ sv' = cc in rw (← same) (held, refl)
  silent_client-Calm (e ∷ es) sv sv' one held others h =
      let (other, rest) = both_none e es others in
      let (mid, q, r) = run_first e es sv sv' h in
      let c = others-Calm e sv mid one held other q in
      let (still, kept) =
        silent_client-Calm es mid sv' (Calm-OneSender c one) (c.accepting ∙ held) rest r in
      (still, kept ∙ c.sessions)
