-- ===== src/Session/Mirror.antt =====
-- A client in a room keeps what the server would tell it of the room: the messages that the server
-- sends, followed by `process` of the client, make the same change as the server made.
pub mod Settings
pub mod Entering
pub mod Joining
pub mod Play
use phira_mp.Common.{
  ℕ, zero, suc, ◌+◌, ◌≡◌, refl, sym, ap, ◌∙◌, Bool, true, false, ◌&&◌, Option, none, some, List, [],
  ◌∷◌, ◌++◌, append_assoc, append-nil, ◌==◌, if◌then◌else◌, Bool-cases, Option-cases, ◌⊎◌, inl, inr,
}
use phira_mp.Command.Types.{ServerCommand, ClientRoomState}
use phira_mp.World.{World}
use phira_mp.Room.{users, monitors, broadcast, try_send, send_all}
use phira_mp.Client.View.{follow, follow_all}

-- What was sent to a session, in order.
unfoldable pub commands_for : ℕ → List (ℕ × ServerCommand) → List ServerCommand
commands_for s [] = []
commands_for s ((t, cmd) ∷ out) = if t == s then cmd ∷ commands_for s out else commands_for s out

-- What sending a command to a user, or to users, puts into the outbox.
unfoldable pub sent : World → ServerCommand → ℕ → List (ℕ × ServerCommand)
sent w cmd u = elim (w.user_at u).session [
  | none ↦ []
  | some t ↦ if w.session_alive t then (t, cmd) ∷ [] else []
]

unfoldable pub all_sent : World → ServerCommand → List ℕ → List (ℕ × ServerCommand)
unfolding sent
all_sent w cmd [] = []
all_sent w cmd (u ∷ us) = sent w cmd u ++ all_sent w cmd us

-- Whether a session gets what is sent to a user, and how often it gets what is sent to users.
unfoldable pub gets_from : World → ℕ → ℕ → Bool
gets_from w s u = elim (w.user_at u).session [
  | none ↦ false
  | some t ↦ w.session_alive t && (t == s)
]

unfoldable pub copies : World → ℕ → List ℕ → ℕ
unfolding gets_from
copies w s [] = zero
copies w s (u ∷ us) = if gets_from w s u then suc (copies w s us) else copies w s us

abbrev pub repeat {ℓ} : {A : Type ℓ} → ℕ → A → List A
repeat zero a = []
repeat (suc n) a = a ∷ repeat n a

try_send-sent :
    (u : ℕ) (cmd : ServerCommand) (w : World)
    → try_send u cmd w ≡ record w { outbox = w.outbox ++ sent w cmd u }
unfolding try_send sent
try_send-sent u cmd w = elim (Option-cases (w.user_at u).session) [
  | inl e ↦ rw (e, try_send, sent) (ap (λ o. record w { outbox = o }) (sym (append-nil w.outbox)))
  | inr (t, e) ↦ elim (Bool-cases (w.session_alive t)) [
    | inl live ↦ rw (e, live, try_send, sent) refl
    | inr dead ↦
        rw (e, dead, try_send, sent) (ap (λ o. record w { outbox = o }) (sym (append-nil w.outbox)))
  ]
]

pub send_all-sent :
    (us : List ℕ) (cmd : ServerCommand) (w : World)
    → send_all us cmd w ≡ record w { outbox = w.outbox ++ all_sent w cmd us }
unfolding send_all all_sent sent
send_all-sent [] cmd w = ap (λ o. record w { outbox = o }) (sym (append-nil w.outbox))
send_all-sent (u ∷ us) cmd w =
    ap (send_all us cmd) (try_send-sent u cmd w)
    ∙ send_all-sent us cmd (record w { outbox = w.outbox ++ sent w cmd u })
    ∙ ap (λ o. record w { outbox = o }) (append_assoc w.outbox (sent w cmd u) (all_sent w cmd us))

pub commands_for-append :
    (s : ℕ) (xs ys : List (ℕ × ServerCommand))
    → commands_for s (xs ++ ys) ≡ commands_for s xs ++ commands_for s ys
unfolding commands_for
commands_for-append s [] ys = refl
commands_for-append s ((t, cmd) ∷ xs) ys = elim (Bool-cases (t == s)) [
  | inl e ↦ rw (e, commands_for) (ap (λ cs. cmd ∷ cs) (commands_for-append s xs ys))
  | inr e ↦ rw (e, commands_for) (commands_for-append s xs ys)
]

pub commands_for-all_sent :
    (s : ℕ) (cmd : ServerCommand) (us : List ℕ) (w : World)
    → commands_for s (all_sent w cmd us) ≡ repeat (copies w s us) cmd
unfolding all_sent copies sent gets_from commands_for
commands_for-all_sent s cmd [] w = refl
commands_for-all_sent s cmd (u ∷ us) w =
    commands_for-append s (sent w cmd u) (all_sent w cmd us)
    ∙ ap (λ cs. commands_for s (sent w cmd u) ++ cs) (commands_for-all_sent s cmd us w)
    ∙ first
  where
    first :
        commands_for s (sent w cmd u) ++ repeat (copies w s us) cmd
        ≡ repeat (copies w s (u ∷ us)) cmd
    first = elim (Option-cases (w.user_at u).session) [
      | inl e ↦ rw (e, sent, copies, gets_from) refl
      | inr (t, e) ↦ elim (Bool-cases (w.session_alive t)) [
        | inl live ↦ elim (Bool-cases (t == s)) [
          | inl mine ↦ rw (e, live, mine, sent, copies, gets_from, commands_for) refl
          | inr other ↦ rw (e, live, other, sent, copies, gets_from, commands_for) refl
        ]
        | inr dead ↦ rw (e, dead, sent, copies, gets_from, commands_for) refl
      ]
    ]

-- A command that says what it said before changes nothing.
pub follow_all-repeat :
    (n : ℕ) (cmd : ServerCommand) (room : ClientRoomState)
    → follow cmd (follow cmd room) ≡ follow cmd room
    → follow_all (repeat (suc n) cmd) room ≡ follow cmd room
unfolding follow_all
follow_all-repeat zero cmd room e = refl
follow_all-repeat (suc n) cmd room e =
    ap (follow_all (repeat n cmd)) e ∙ follow_all-repeat n cmd room e

-- The users and monitors of a room.
abbrev pub members : World → ℕ → List ℕ
members w rm = users w rm ++ monitors w rm

pub broadcast-sent :
    (rm : ℕ) (cmd : ServerCommand) (w : World)
    → broadcast rm cmd w ≡ record w { outbox = w.outbox ++ all_sent w cmd (members w rm) }
unfolding broadcast
broadcast-sent rm cmd w = send_all-sent (members w rm) cmd w
