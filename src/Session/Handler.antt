-- ===== src/Session/Handler.antt =====
-- session.rs: the blocks `async move { .. }` of `process`, which end in a value or a failure.
use phira_mp.Common.{ℕ, Bool, true, false, Option, none, some, [], ◌∷◌}
use Prim.Native.Char.{code}
use Prim.Native.String.{String}
use phira_mp.Bin.Reader.{Bytes}
use phira_mp.Bin.Data.{Outcome, success, failure}
use phira_mp.Command.Types.{SResult, ServerCommand}
use phira_mp.L10n.{translate}
use phira_mp.World.{World, Env, Key, Run, returns, panics, M}

-- `service` is an error of the web service's answer, `localized` one that `tl!` translates.
pub data Failure : Type 0 where
  no_room invalid_state only_host already_in_room room_not_found : Failure
  already_ready not_ready invalid_record aborted already_uploaded : Failure
  localized : Key → Failure
  service : Bytes → Failure

abbrev pub codes : String → Bytes
codes String.[] = []
codes (String.◌∷◌ c s) = code c ∷ codes s

abbrev pub H : Type 0 → Type 0
H A = World → Run (Outcome A Failure)

infixl 5 ◌>>=◌ ◌>>◌
abbrev pub ◌>>=◌ : {A B : Type 0} → H A → (A → H B) → H B
◌>>=◌ m f w = elim (m w) [
  | returns r w' ↦ elim r [ success a ↦ f a w' | failure e ↦ returns (failure e) w' ]
  | panics w' ↦ panics w'
]

abbrev pub ◌>>◌ : {B : Type 0} → H Unit → H B → H B
m >> k = m >>= λ _. k

abbrev pub done : {A : Type 0} → A → H A
done a w = returns (success a) w

abbrev pub bail : {A : Type 0} → Failure → H A
bail e w = returns (failure e) w

-- Goes on if the test holds.
abbrev pub require : Bool → Failure → H Unit
require true e w = returns (success tt) w
require false e w = returns (failure e) w

abbrev pub gets : {A : Type 0} → (World → A) → H A
gets f w = returns (success (f w)) w

abbrev pub act : (World → World) → H Unit
act f w = returns (success tt) (f w)

abbrev pub lift : {A : Type 0} → M A → H A
lift m w = elim (m w) [ returns a w' ↦ returns (success a) w' | panics w' ↦ panics w' ]

abbrev pub from_service : {A : Type 0} → Outcome A Bytes → H A
from_service (success a) w = returns (success a) w
from_service (failure s) w = returns (failure (service s)) w

-- `get_room!`
unfoldable pub get_room : ℕ → H ℕ
get_room u w = elim (w.user_at u).room [
  | none ↦ returns (failure no_room) w
  | some rm ↦ returns (success rm) w
]

-- The keys that `tl!` is called with.
unfoldable pub key_of : Key → Bytes
key_of Key.create_id_occupied = codes "create-id-occupied"
key_of Key.join_room_locked = codes "join-room-locked"
key_of Key.join_game_ongoing = codes "join-game-ongoing"
key_of Key.join_cant_monitor = codes "join-cant-monitor"
key_of Key.join_room_full = codes "join-room-full"
key_of Key.start_no_chart_selected = codes "start-no-chart-selected"

-- `tl!`: `none` where it panics. What the caches hold changes no translation (L10n/Cached).
unfoldable pub tl : Env → ℕ → Key → Option Bytes
unfolding key_of
tl env lang key = translate env.bundles (record { lang = lang; key = key_of key; args = tt })

unfoldable pub text : Env → ℕ → Failure → Option Bytes
unfolding tl
text env lang no_room = some (codes "no room")
text env lang invalid_state = some (codes "invalid state")
text env lang only_host = some (codes "only host can do this")
text env lang already_in_room = some (codes "already in room")
text env lang room_not_found = some (codes "room not found")
text env lang already_ready = some (codes "already ready")
text env lang not_ready = some (codes "not ready")
text env lang invalid_record = some (codes "invalid record")
text env lang aborted = some (codes "aborted")
text env lang already_uploaded = some (codes "already uploaded")
text env lang (localized key) = tl env lang key
text env lang (service s) = some s

unfoldable pub err_to_str : {A : Type 0} → Env → ℕ → Outcome A Failure → Option (SResult A)
unfolding text
err_to_str env lang (success a) = some (success a)
err_to_str env lang (failure e) = elim (text env lang e) [ none ↦ none | some s ↦ some (failure s) ]

-- The reply that a block's result becomes, in the user's language. Where `tl!` panics in the block
-- it is the last thing that the block does, so that the state is the one that the block leaves.
unfoldable pub answer :
    {A : Type 0} → Env → ℕ → (SResult A → ServerCommand) → H A → M (Option ServerCommand)
unfolding err_to_str
answer env u reply m w = elim (m w) [
  | returns r w' ↦ elim (err_to_str env (w.user_at u).lang r) [
    | none ↦ panics w'
    | some s ↦ returns (some (reply s)) w'
  ]
  | panics w' ↦ panics w'
]
