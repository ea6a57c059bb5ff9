-- ===== src/Client/Answers.antt =====
-- `rcall`: when its answer comes, and what happens when it comes too early.
use phira_mp.Common.{
  ℕ, ◌+◌, ◌≡◌, refl, sym, ap, ◌∙◌, true, Option, none, some, List, [], ◌∷◌, ◌++◌, arith,
}
use mathlib.Core.Path.{fun_ext}
use phira_mp.Command.Types.{ClientCommand, ClientRoomState, ServerCommand}
use phira_mp.Client.{
  Slot, Answer, me_and_room, joined, done, Answered, State, set_callback, Run, returns, panics, M,
  ◌>>=◌, ◌>>◌, pure,
}
use phira_mp.Client.Process.{cb, process, process_all}
use phira_mp.Client.Calls.{arrived, received, wait, send, rcall}
use phira_mp.Client.View.{no_reply, follow_all, bind_returns, process_all-FollowsAll}

-- The slot and the answer of a command that answers a call.
unfoldable pub answer_of : ServerCommand → Option (Slot × Answer)
answer_of (ServerCommand.authenticate res) = some (Slot.authenticate, me_and_room res)
answer_of (ServerCommand.chat res) = some (Slot.chat, done res)
answer_of (ServerCommand.create_room res) = some (Slot.create_room, done res)
answer_of (ServerCommand.join_room res) = some (Slot.join_room, joined res)
answer_of (ServerCommand.leave_room res) = some (Slot.leave_room, done res)
answer_of (ServerCommand.lock_room res) = some (Slot.lock_room, done res)
answer_of (ServerCommand.cycle_room res) = some (Slot.cycle_room, done res)
answer_of (ServerCommand.select_chart res) = some (Slot.select_chart, done res)
answer_of (ServerCommand.request_start res) = some (Slot.request_start, done res)
answer_of (ServerCommand.ready res) = some (Slot.ready, done res)
answer_of (ServerCommand.cancel_ready res) = some (Slot.cancel_ready, done res)
answer_of (ServerCommand.played res) = some (Slot.played, done res)
answer_of (ServerCommand.abort res) = some (Slot.abort, done res)
answer_of _ = none

process-cb :
    (cmd : ServerCommand) (s : Slot) (a : Answer)
    → answer_of cmd ≡ some (s, a)
    → process cmd ≡ cb s a
unfolding process answer_of
process-cb (ServerCommand.authenticate res) s a e = cc
process-cb _ s a e = cc

-- Where nobody waits, `cb` panics; where somebody does, it sends the answer and takes the sender.
cb_panics : (s : Slot) (a : Answer) (st : State) → st.callback s ≡ none → cb s a st ≡ panics st
unfolding cb
cb_panics s a st e = rw (e, cb)

abbrev pub delivered : Slot → ℕ → Answer → State → State
delivered s c a st = record (set_callback s none st) {
  answered = st.answered ++ (record { channel = c; answer = a } ∷ []);
}

cb_returns :
    (s : Slot) (a : Answer) (c : ℕ) (st : State)
    → st.callback s ≡ some c
    → cb s a st ≡ returns tt (delivered s c a st)
unfolding cb
cb_returns s a c st e = rw (e, cb)

received-append :
    (c : ℕ) (a : Answer) (before : List Answered)
    → received c before ≡ none
    → received c (before ++ (record { channel = c; answer = a } ∷ [])) ≡ some a
unfolding received
received-append c a [] h = ground arith
received-append c a (b ∷ before) h = ground (arith, received-append c a before)

assoc :
    (r : Run (Unit {0})) (f g : M (Unit {0}))
    → ◌≡◌ {A = Run (Unit {0})}
        (elim (elim r as (λ _. Run (Unit {0})) [ returns a s ↦ f s | panics s ↦ panics s ])
          as (λ _. Run (Unit {0})) [ returns a s ↦ g s | panics s ↦ panics s ])
        (elim r as (λ _. Run (Unit {0})) [ returns a s ↦ (f >> g) s | panics s ↦ panics s ])
assoc (returns a s) f g = refl
assoc (panics s) f g = refl

process_all-append :
    (xs ys : List ServerCommand) → process_all (xs ++ ys) ≡ (process_all xs >> process_all ys)
unfolding process_all
process_all-append [] ys = refl
process_all-append (x ∷ xs) ys =
    ap (λ k. process x >> k) (process_all-append xs ys)
    ∙ fun_ext (λ st. sym (assoc (process x st) (process_all xs) (process_all ys)))

-- Quiet commands, and then one that answers.
process_all_then :
    (cmds : List ServerCommand) (cmd : ServerCommand) (st st' : State)
    → process_all cmds st ≡ returns tt st'
    → process_all (cmds ++ (cmd ∷ [])) st ≡ process_all (cmd ∷ []) st'
process_all_then cmds cmd st st' run =
    ap (λ m. m st) (process_all-append cmds (cmd ∷ []))
    ∙ bind_returns (process_all cmds) (λ _. process_all (cmd ∷ [])) run

process_one_returns :
    (s : Slot) (a : Answer) (c : ℕ) (cmd : ServerCommand) (st : State)
    → answer_of cmd ≡ some (s, a)
    → st.callback s ≡ some c
    → process_all (cmd ∷ []) st ≡ returns tt (delivered s c a st)
unfolding process_all
process_one_returns s a c cmd st e h =
    bind_returns (process cmd) (λ _. pure tt)
      (ap (λ m. m st) (process-cb cmd s a e) ∙ cb_returns s a c st h)

process_one_panics :
    (s : Slot) (a : Answer) (cmd : ServerCommand) (st : State)
    → answer_of cmd ≡ some (s, a)
    → st.callback s ≡ none
    → process_all (cmd ∷ []) st ≡ panics st
unfolding process_all
process_one_panics s a cmd st e h =
    let stop = ap (λ m. m st) (process-cb cmd s a e) ∙ cb_panics s a st h in rw (stop, ◌>>=◌)

wait_arrived :
    (s : Slot) (c : ℕ) (a : Answer) (st : State)
    → received c st.answered ≡ some a
    → wait s c st ≡ arrived a
unfolding wait
wait_arrived s c a st e = rw (e, wait)

taken : (s : Slot) (c : ℕ) (a : Answer) (st : State) → (delivered s c a st).callback s ≡ none
taken s c a st = ground arith

bind_panics {ℓ κ} :
    {A : Type ℓ} {B : Type κ} (m : M A) (f : A → M B) {st st' : State}
    → m st ≡ panics st'
    → (m >>= f) st ≡ panics st'
bind_panics m f h = rw (h, ◌>>=◌)

-- The receive task comes as far as the answer, before and after the callback is entered.
abbrev pub registered : Slot → State → State
registered s st = set_callback s (some st.fresh) (record st { fresh = st.fresh + 1 })

pub rcall_delivers :
    (s : Slot) (payload : ClientCommand) (a : Answer) (cmd : ServerCommand) (st st1 st2 : State)
    → answer_of cmd ≡ some (s, a)
    → (early before : List ServerCommand) → process_all early (send payload st) ≡ returns tt st1
    → process_all before (registered s st1) ≡ returns tt st2
    → st2.callback s ≡ some st1.fresh
    → received st1.fresh st2.answered ≡ none
    → rcall s payload (record { early = early; later = before ++ (cmd ∷ []) }) st
      ≡ returns (arrived a) (delivered s st1.fresh a st2)
unfolding rcall
rcall_delivers s payload a cmd st st1 st2 answers early before run1 run2 pending unused =
    let c = st1.fresh in
    let last =
      process_all_then before cmd (registered s st1) st2 run2
      ∙ process_one_returns s a c cmd st2 answers pending in
    let found : received c (delivered s c a st2).answered ≡ some a =
      received-append c a st2.answered unused in
    bind_returns (process_all early) _ run1
    ∙ bind_returns (process_all (before ++ (cmd ∷ []))) _ last
    ∙ ap (λ v. returns v (delivered s c a st2)) (wait_arrived s c a (delivered s c a st2) found)

-- What a call needs to be answered, and what answers it.
module _ (s : Slot) (payload : ClientCommand) (a : Answer) (cmd : ServerCommand) (st : State)
    (room : ClientRoomState) (here : st.room ≡ some room)
    (answers : answer_of cmd ≡ some (s, a)) where
  -- A client knows its room, and no answer stands on the next channel. It makes a call, and the
  -- server's answer to it is processed after the callback was entered, with only commands that
  -- answer nothing before it. Then the call gets that answer, nobody waits on the slot any more, and
  -- the room is what the commands say of it.
  pub rcall-arrived :
      (early before : List ServerCommand)
      → no_reply early ≡ true
      → no_reply before ≡ true
      → received st.fresh st.answered ≡ none
      → (st' : State) × (rcall s payload (record { early = early; later = before ++ (cmd ∷ []) }) st
          ≡ returns (arrived a) st')
        × (st'.callback s ≡ none)
        × (st'.room ≡ some (follow_all before (follow_all early room)))
  rcall-arrived early before q1 q2 unused =
      let (st1, run1, room1, msgs1, cbs1, ans1, fresh1) =
        process_all-FollowsAll early (send payload st) room here q1 in
      let (st3, run3, room3, msgs3, cbs3, ans3, fresh3) =
        process_all-FollowsAll before (registered s st1) (follow_all early room) room1 q2 in
      let c = st1.fresh in
      (
        delivered s c a st3,
        rcall_delivers s payload a cmd st st1 st3 answers early before run1 run3
            (ap (λ f. f s) cbs3 ∙ ground arith)
            (ap (received c) (ans3 ∙ ans1) ∙ ap (λ k. received k st.answered) fresh1 ∙ unused),
        taken s c a st3,
        room3,
      )

  -- A client knows its room, and nobody waits on the slot of a call. The server's answer to the
  -- call is processed before its callback is entered, with only commands that answer nothing before
  -- it. Then the receive task panics.
  pub rcall_early-panics :
      (before later : List ServerCommand)
      → no_reply before ≡ true
      → st.callback s ≡ none
      → (st' : State) × (rcall s payload (record { early = before ++ (cmd ∷ []); later = later }) st
          ≡ panics st')
  unfolding rcall
  rcall_early-panics before later q idle =
      let (st1, run1, room1, msgs1, cbs1, ans1, fresh1) =
        process_all-FollowsAll before (send payload st) room here q in
      (
        st1,
        bind_panics (process_all (before ++ (cmd ∷ []))) _ (
            process_all_then before cmd (send payload st) st1 run1
            ∙ process_one_panics s a cmd st1 answers (ap (λ f. f s) cbs1 ∙ idle)),
      )
