-- ===== src/Client/Stale.antt =====
-- An answer that comes when its call has given up.
use phira_mp.Common.{ℕ, ◌≤◌, ◌≡◌, ap, ◌∙◌, true, none, some, List, [], ◌∷◌, ◌++◌, arith}
use phira_mp.Command.Types.{ClientCommand, ClientRoomState, ServerCommand}
use phira_mp.Client.{Slot, Answer, State, returns}
use phira_mp.Client.Process.{process_all}
use phira_mp.Client.Calls.{arrived, too_late, received, is_pending, wait, send, rcall}
use phira_mp.Client.View.{no_reply, follow_all, bind_returns, process_all-FollowsAll}
use phira_mp.Client.Answers.{answer_of, registered, rcall-arrived}

wait_late :
    (s : Slot) (c : ℕ) (st : State)
    → received c st.answered ≡ none
    → st.callback s ≡ some c
    → wait s c st ≡ too_late
unfolding wait is_pending
wait_late s c st e pending = rw (e, wait) (rw (pending, is_pending) (ground arith))

module _ (s : Slot) (payload : ClientCommand) (st : State) (room : ClientRoomState)
    (here : st.room ≡ some room)
    (unused : (c : ℕ) → st.fresh ≤ c → received c st.answered ≡ none) where
  -- What a call leaves that got no answer in time.
  record Late (early later : List ServerCommand) : Type 0 where
    after : State
    run : rcall s payload (record { early = early; later = later }) st ≡ returns too_late after
    room_is : after.room ≡ some (follow_all later (follow_all early room))
    free : received after.fresh after.answered ≡ none

  rcall-Late :
      (early later : List ServerCommand)
      → no_reply early ≡ true
      → no_reply later ≡ true
      → Late early later
  unfolding rcall
  rcall-Late early later q1 q2 =
      let (st1, run1, room1, msgs1, cbs1, ans1, fresh1) =
        process_all-FollowsAll early (send payload st) room here q1 in
      let (st2, run2, room2, msgs2, cbs2, ans2, fresh2) =
        process_all-FollowsAll later (registered s st1) (follow_all early room) room1 q2 in
      let answered : st2.answered ≡ st.answered = ans2 ∙ ans1 in
      let none_yet : received st1.fresh st2.answered ≡ none =
        ap (received st1.fresh) answered ∙ unused st1.fresh (omega (arith, fresh1)) in
      let pending : st2.callback s ≡ some st1.fresh = ap (λ f. f s) cbs2 ∙ ground arith in
      record {
        after = st2;
        run =
            bind_returns (process_all early) _ run1
            ∙ bind_returns (process_all later) _ run2
            ∙ ap (λ v. returns v st2) (wait_late s st1.fresh st2 none_yet pending);
        room_is = room2;
        free = ap (received st2.fresh) answered ∙ unused st2.fresh (omega (arith, fresh1, fresh2));
      }

  -- A client knows its room, and answers stand on channels of earlier calls only. It makes a call, and
  -- no answer is processed until the time is over; then it makes a call of the same kind, and the
  -- answer to the first one comes, with only commands that answer nothing before it. Then the first
  -- call fails for the time, and the second one takes the answer to the first for its own.
  pub rcall_late-arrived :
      (again : ClientCommand) (a : Answer) (cmd : ServerCommand)
      → answer_of cmd ≡ some (s, a)
      → (early1 later1 early2 before2 : List ServerCommand) → no_reply early1 ≡ true
      → no_reply later1 ≡ true
      → no_reply early2 ≡ true
      → no_reply before2 ≡ true
      → (st1 : State) × (st2 : State) × (rcall s payload
            (record { early = early1; later = later1 })
            st
          ≡ returns too_late st1)
        × (rcall s again (record { early = early2; later = before2 ++ (cmd ∷ []) }) st1
            ≡ returns (arrived a) st2)
  rcall_late-arrived again a cmd answers early1 later1 early2 before2 q1 q2 q3 q4 =
      let l = rcall-Late early1 later1 q1 q2 in
      let (st2, run, idle, view) =
        rcall-arrived s again a cmd l.after (follow_all later1 (follow_all early1 room)) l.room_is
          answers early2 before2 q3 q4 l.free in
      (l.after, st2, l.run, run)
