-- ===== src/Client/Outside.antt =====
-- A client that is in no room, while it waits to be let into one.
use phira_mp.Common.{
  ◌≡◌, refl, ap, ◌∙◌, Bool, true, false, ◌&&◌, none, some, List, [], ◌∷◌, ◌++◌, arith,
}
use phira_mp.Command.Types.{ClientCommand, Message, ServerCommand}
use phira_mp.Client.{Slot, Answer, State, returns}
use phira_mp.Client.Process.{process, process_all, on_message, if_room, push_message}
use phira_mp.Client.Calls.{arrived, received, rcall, send}
use phira_mp.Client.View.{bind_returns}
use phira_mp.Client.Answers.{answer_of, registered, delivered, rcall_delivers}

-- A command that does not unwrap the room, nor answer a call.
unfoldable pub is_harmless : ServerCommand → Bool
is_harmless (ServerCommand.message (Message.lock_room lock)) = false
is_harmless (ServerCommand.message (Message.cycle_room cycle)) = false
is_harmless (ServerCommand.message (Message.leave_room user name)) = false
is_harmless (ServerCommand.message msg) = true
is_harmless (ServerCommand.on_join_room user) = true
is_harmless _ = false

unfoldable pub all_harmless : List ServerCommand → Bool
unfolding is_harmless
all_harmless [] = true
all_harmless (cmd ∷ cmds) = is_harmless cmd && all_harmless cmds

all_harmless-cons :
    (cmd : ServerCommand) (cmds : List ServerCommand)
    → all_harmless (cmd ∷ cmds) ≡ true
    → (is_harmless cmd ≡ true) × (all_harmless cmds ≡ true)
unfolding all_harmless
all_harmless-cons cmd cmds h = ground (arith, h)

pub all_harmless-append :
    (xs ys : List ServerCommand)
    → all_harmless xs ≡ true
    → all_harmless ys ≡ true
    → all_harmless (xs ++ ys) ≡ true
unfolding all_harmless
all_harmless-append [] ys h k = k
all_harmless-append (x ∷ xs) ys h k = ground (arith, all_harmless-append xs ys)

-- All that a call depends on is as it was, and there is no room still.
pub record Outside (st st' : State) : Type 0 where
  pub room : st'.room ≡ none
  pub me : st'.me ≡ st.me
  pub callback : st'.callback ≡ st.callback
  pub answered : st'.answered ≡ st.answered
  pub fresh : st'.fresh ≡ st.fresh

Outside-trans : {a b c : State} → Outside a b → Outside b c → Outside a c
Outside-trans p q = record {
  room = q.room;
  me = q.me ∙ p.me;
  callback = q.callback ∙ p.callback;
  answered = q.answered ∙ p.answered;
  fresh = q.fresh ∙ p.fresh;
}

message-Outside :
    (msg : Message) (st : State)
    → st.room ≡ none
    → is_harmless (ServerCommand.message msg) ≡ true
    → process (ServerCommand.message msg) st ≡ returns tt (push_message msg st)
unfolding process on_message is_harmless
message-Outside (Message.lock_room lock) st e h = cc
message-Outside (Message.cycle_room cycle) st e h = cc
message-Outside (Message.leave_room user name) st e h = cc
message-Outside (Message.chat user content) st e h = refl
message-Outside _ st e h = refl

process-Outside :
    (cmd : ServerCommand) (st : State)
    → st.room ≡ none
    → is_harmless cmd ≡ true
    → (st' : State) × (process cmd st ≡ returns tt st') × Outside st st'
unfolding is_harmless process if_room
process-Outside (ServerCommand.message msg) st e h = (
  push_message msg st,
  message-Outside msg st e h,
  record { room = e; me = refl; callback = refl; answered = refl; fresh = refl },
)
process-Outside (ServerCommand.on_join_room user) st e h =
    (st, rw e refl, record { room = e; me = refl; callback = refl; answered = refl; fresh = refl })
process-Outside _ st e h = cc

pub process_all-Outside :
    (cmds : List ServerCommand) (st : State)
    → st.room ≡ none
    → all_harmless cmds ≡ true
    → (st' : State) × (process_all cmds st ≡ returns tt st') × Outside st st'
unfolding process_all
process_all-Outside [] st e h =
    (st, refl, record { room = e; me = refl; callback = refl; answered = refl; fresh = refl })
process_all-Outside (cmd ∷ cmds) st e h =
    let (one, others) = all_harmless-cons cmd cmds h in
    let (st1, run1, o1) = process-Outside cmd st e one in
    let (st2, run2, o2) = process_all-Outside cmds st1 o1.room others in
    (st2, bind_returns (process cmd) (λ _. process_all cmds) run1 ∙ run2, Outside-trans o1 o2)

-- A call from outside, whose answer comes behind commands that are harmless.
pub rcall-Outside :
    (s : Slot) (payload : ClientCommand) (a : Answer) (cmd : ServerCommand) (st : State)
    → answer_of cmd ≡ some (s, a)
    → (before : List ServerCommand) → st.room ≡ none
    → all_harmless before ≡ true
    → received st.fresh st.answered ≡ none
    → (st' : State) × (rcall s payload (record { early = []; later = before ++ (cmd ∷ []) }) st
        ≡ returns (arrived a) st')
      × (st'.me ≡ st.me)
unfolding process_all
rcall-Outside s payload a cmd st answers before e h unused =
    let st1 = send payload st in
    let (st2, run, o) = process_all-Outside before (registered s st1) e h in
    (
      delivered s st.fresh a st2,
      rcall_delivers s payload a cmd st st1 st2 answers [] before refl run
          (ap (λ f. f s) o.callback ∙ ground arith) (ap (received st.fresh) o.answered ∙ unused),
      o.me,
    )
