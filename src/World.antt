-- ===== src/World.antt =====
-- The shared state of phira-mp-server: users (session.rs), rooms (room.rs), the maps of server.rs, and
-- what the program takes from outside. An `Arc` or `Weak` is an address; a `Weak<User>` can be
-- upgraded as long as the address is alive. Each handler runs on the whole state, as if alone.
use phira_mp.Common.{ℕ, Bool, Option, List, ◌==◌, if◌then◌else◌}
use phira_mp.Common.Int.{ℤ}
use phira_mp.Bin.Reader.{Bytes}
use phira_mp.Bin.Data.{Outcome}
use phira_mp.L10n.{L10nBundles}
use phira_mp.Command.Types.{RoomId, ServerCommand}

pub record Chart : Type 0 where
  pub id : ℤ
  pub name : Bytes

-- A `f32` stands as its bit pattern.
pub record Record : Type 0 where
  pub id : ℤ
  pub player : ℤ
  pub score : ℤ
  pub perfect : ℤ
  pub good : ℤ
  pub bad : ℤ
  pub miss : ℤ
  pub max_combo : ℤ
  pub accuracy : ℕ
  pub full_combo : Bool
  pub std : ℕ
  pub std_score : ℕ

pub data InternalRoomState : Type 0 where
  select_chart : InternalRoomState
  wait_for_ready : List ℤ → InternalRoomState
  playing : List (ℤ × Record) → List ℤ → InternalRoomState

pub record User : Type 0 where
  pub id : ℤ
  pub name : Bytes
  pub lang : ℕ
  pub session : Option ℕ
  pub room : Option ℕ
  pub monitor : Bool
  pub game_time : ℕ
  pub dangle_mark : Option ℕ

pub record Room : Type 0 where
  pub id : RoomId
  pub host : ℕ
  pub state : InternalRoomState
  pub live : Bool
  pub locked : Bool
  pub cycle : Bool
  pub users : List ℕ
  pub monitors : List ℕ
  pub chart : Option Chart

-- `users` and `rooms` are the maps of `ServerState`; `outbox` is what was sent, oldest first, each with
-- the session that it went to. `fresh` is an address that is not in use, `draws` counts random choices.
pub record World : Type 0 where
  pub user_at : ℕ → User
  pub alive : ℕ → Bool
  pub room_at : ℕ → Room
  pub session_alive : ℕ → Bool
  pub users : List (ℤ × ℕ)
  pub rooms : List (RoomId × ℕ)
  pub config_monitors : List ℤ
  pub outbox : List (ℕ × ServerCommand)
  pub fresh : ℕ
  pub draws : ℕ

-- The keys that `tl!` is called with.
pub data Key : Type 0 where
  create_id_occupied join_game_ongoing join_room_full : Key
  join_room_locked join_cant_monitor start_no_chart_selected : Key

-- The bundles of translations, whose patterns are handles of fluent, the random choice (rand), and the answers of the web service.
pub record Env : Type 0 where
  pub bundles : L10nBundles ℕ Unit
  pub choose : ℕ → List ℕ → Option ℕ
  pub fetch_chart : ℤ → Outcome Chart Bytes
  pub fetch_record : ℤ → Outcome Record Bytes

abbrev pub update {ℓ} : {A : Type ℓ} → (ℕ → A) → ℕ → A → ℕ → A
update f p v q = if q == p then v else f q

abbrev pub set_user : ℕ → User → World → World
set_user u user w = record w { user_at = update w.user_at u user }

abbrev pub set_room : ℕ → Room → World → World
set_room rm room w = record w { room_at = update w.room_at rm room }

-- A handler returns a value, or panics on an `unwrap`; what it did before stays done.
pub data Run {ℓ} (A : Type ℓ) : Type ℓ where
  returns : A → World → Run A
  panics : World → Run A

abbrev pub M {ℓ} : Type ℓ → Type ℓ
M A = World → Run A

infixl 5 ◌>>=◌ ◌>>◌
abbrev pub ◌>>=◌ {ℓ κ} : {A : Type ℓ} {B : Type κ} → M A → (A → M B) → M B
◌>>=◌ m f w = elim (m w) [ returns a w' ↦ f a w' | panics w' ↦ panics w' ]

abbrev pub ◌>>◌ {ℓ} : {B : Type ℓ} → M (Unit {0}) → M B → M B
m >> k = m >>= λ _. k

abbrev pub pure {ℓ} : {A : Type ℓ} → A → M A
pure a w = returns a w

abbrev pub gets {ℓ} : {A : Type ℓ} → (World → A) → M A
gets f w = returns (f w) w

abbrev pub modify : (World → World) → M (Unit {0})
modify f w = returns tt (f w)
