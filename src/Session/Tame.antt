-- ===== src/Session/Tame.antt =====
-- What no command of a user changes: who the users are, which sessions they have, and who can be
-- upgraded.
pub mod Rooms
pub mod Commands
pub mod Games
pub mod Whole
use phira_mp.Common.{
  ◌≤◌, ◌<◌, length, ℕ, ◌+◌, ◌≡◌, ◌⊎◌, inl, inr, refl, sym, ap, ◌∙◌, Bool, true, false, Option, none,
  some, List, [], ◌∷◌, ◌==◌, if◌then◌else◌, Bool-cases, ==_iff, arith,
}
use phira_mp.Common.Int.{ℤ}
use phira_mp.Bin.Reader.{Bytes}
use phira_mp.Bin.Data.{Outcome, success, failure}
use phira_mp.World.{◌>>=◌ as ◌>>>=◌, User, Room, World, Run, returns, panics, M, set_user, set_room}
use phira_mp.Common.Maps.{lookup}
use phira_mp.Command.Types.{RoomId, room_id_eq}
use phira_mp.Room.{room_max_users, reset_times, reset_game_time}
use phira_mp.Room.Frame.{Quiet}
use phira_mp.Session.Handler.{Failure, H, ◌>>=◌, require, lift, get_room, no_room}

-- What makes a user who it is, and what its connection sets.
pub record Identity : Type 0 where
  pub id : ℤ
  pub name : Bytes
  pub lang : ℕ
  pub session : Option ℕ
  pub dangle_mark : Option ℕ

unfoldable pub identity : User → Identity
identity u = record {
  id = u.id;
  name = u.name;
  lang = u.lang;
  session = u.session;
  dangle_mark = u.dangle_mark;
}

-- No room lists more users than it may have, and what is listed under a room's id is a room of that
-- id, at an address in use.
pub record Roomy (w : World) : Type 0 where
  pub capacity : (rm : ℕ) → length (w.room_at rm).users ≤ room_max_users
  pub listed :
      (id : RoomId) (rm : ℕ)
      → lookup id w.rooms ≡ some rm
      → ((w.room_at rm).id ≡ id) × (rm < w.fresh)

pub Roomy-same :
    (w w' : World)
    → w'.room_at ≡ w.room_at
    → w'.rooms ≡ w.rooms
    → w.fresh ≤ w'.fresh
    → Roomy w
    → Roomy w'
Roomy-same w w' rooms_at rooms fresh r = record {
  capacity = λ rm. let e = r.capacity rm in rw (ap (λ f. f rm) rooms_at) e;
  listed = λ id rm h.
      let (named, small) = r.listed id rm (ap (lookup id) (sym rooms) ∙ h) in
      (ap (λ f. (f rm).id) rooms_at ∙ named, omega (arith, small, fresh));
}

pub record Tame (w w' : World) : Type 0 where
  pub same : (v : ℕ) → identity (w'.user_at v) ≡ identity (w.user_at v)
  pub users : w'.users ≡ w.users
  pub alive : w'.alive ≡ w.alive
  pub session_alive : w'.session_alive ≡ w.session_alive
  pub config_monitors : w'.config_monitors ≡ w.config_monitors
  pub fresh : w.fresh ≤ w'.fresh
  pub roomy : Roomy w → Roomy w'

pub Tame-refl : (w : World) → Tame w w
Tame-refl w = record {
  same = λ v. refl;
  users = refl;
  alive = refl;
  session_alive = refl;
  config_monitors = refl;
  fresh = omega arith;
  roomy = λ r. r;
}

pub Tame-trans : {a b c : World} → Tame a b → Tame b c → Tame a c
Tame-trans p q = record {
  same = λ v. q.same v ∙ p.same v;
  users = q.users ∙ p.users;
  alive = q.alive ∙ p.alive;
  session_alive = q.session_alive ∙ p.session_alive;
  config_monitors = q.config_monitors ∙ p.config_monitors;
  fresh = omega (arith, p.fresh, q.fresh);
  roomy = λ r. q.roomy (p.roomy r);
}

pub Quiet-Tame : {w w' : World} → Quiet w w' → Tame w w'
Quiet-Tame {w} {w'} q = record {
  same = λ v. ap (λ f. identity (f v)) q.user_at;
  users = q.users;
  alive = q.alive;
  session_alive = q.session_alive;
  config_monitors = q.config_monitors;
  fresh = omega (arith, q.fresh);
  roomy = Roomy-same w w' q.room_at q.rooms (omega (arith, q.fresh));
}

set_room-Roomy :
    (rm : ℕ) (room : Room) (w : World)
    → room.id ≡ (w.room_at rm).id
    → (length (w.room_at rm).users ≤ room_max_users → length room.users ≤ room_max_users)
    → Roomy w
    → Roomy (set_room rm room w)
set_room-Roomy rm room w same_id small r = record {
  capacity = λ q. elim (Bool-cases (q == rm)) [
    | inl here ↦ rw here (small (r.capacity rm))
    | inr apart ↦ rw apart (r.capacity q)
  ];
  listed = λ id q h. elim (Bool-cases (q == rm)) [
    | inl here ↦
        let e = (==_iff q rm).0 here in
        rw here
          (same_id ∙ ap (λ a. (w.room_at a).id) (sym e) ∙ (r.listed id q h).0, (r.listed id q h).1)
    | inr apart ↦ rw apart (r.listed id q h)
  ];
}

-- A room is set that keeps its id and does not list too many users.
pub set_room-Tame :
    (rm : ℕ) (room : Room) (w : World)
    → room.id ≡ (w.room_at rm).id
    → (length (w.room_at rm).users ≤ room_max_users → length room.users ≤ room_max_users)
    → Tame w (set_room rm room w)
set_room-Tame rm room w same_id small = record {
  same = λ v. refl;
  users = refl;
  alive = refl;
  session_alive = refl;
  config_monitors = refl;
  fresh = omega arith;
  roomy = set_room-Roomy rm room w same_id small;
}

pub set_user-Tame :
    (u : ℕ) (user : User) (w : World)
    → identity user ≡ identity (w.user_at u)
    → Tame w (set_user u user w)
set_user-Tame u user w e = record {
  same = λ v. elim (Bool-cases (v == u)) [
    | inl here ↦ rw here (e ∙ ap (λ x. identity (w.user_at x)) (sym ((==_iff v u).0 here)))
    | inr apart ↦ rw apart
  ];
  users = refl;
  alive = refl;
  session_alive = refl;
  config_monitors = refl;
  fresh = omega arith;
  roomy = λ r. record { capacity = r.capacity; listed = r.listed };
}

pub reset_times-Tame : (us : List ℕ) (w : World) → Tame w (reset_times us w)
unfolding reset_times identity
reset_times-Tame [] w = Tame-refl w
reset_times-Tame (u ∷ us) w = Tame-trans (set_user-Tame u _ w refl) (reset_times-Tame us _)

pub reset_game_time-Tame : (rm : ℕ) (w : World) → Tame w (reset_game_time rm w)
unfolding reset_game_time
reset_game_time-Tame rm w = reset_times-Tame _ w

-- The state that a handler leaves, whether it returns or panics.
abbrev pub final {ℓ} : {A : Type ℓ} → Run A → World
final (returns a w) = w
final (panics w) = w

-- Rules for the steps of a handler that do not compute away.
module _ {A : Type 0} (w : World) where
  pub room_step :
      (u : ℕ) (k : ℕ → H A)
      → ((rm : ℕ) → Tame w (final (k rm w)))
      → Tame w (final ((get_room u >>= k) w))
  unfolding get_room
  room_step u k h = found (w.user_at u).room
    where
      found :
          (r : Option ℕ)
          → Tame w (
              final
                (elim (elim r as (λ _. Run (Outcome ℕ Failure)) [
                  | none ↦ returns (failure no_room) w
                  | some rm ↦ returns (success rm) w
                ])
                  as (λ _. Run (Outcome A Failure)) [
                    | returns o w' ↦ elim o [
                      | success a ↦ k a w'
                      | failure e ↦ returns (failure e) w'
                    ]
                    | panics w' ↦ panics w'
                  ]))
      found none = Tame-refl w
      found (some rm) = h rm

  pub required :
      (b : Bool) (e : Failure) (k : Unit → H A)
      → Tame w (final (k tt w))
      → Tame w (final ((require b e >>= k) w))
  required true e k h = h
  required false e k h = Tame-refl w

  pub lifted :
      {B : Type 0} (m : M B) (k : B → H A)
      → Tame w (final (m w))
      → ((b : B) (w' : World) → Tame w' (final (k b w')))
      → Tame w (final ((lift m >>= k) w))
  lifted {B} m k h next = ended (m w) h
    where
      ended :
          (r : Run B)
          → Tame w (final r)
          → Tame w (
              final
                (elim (elim r as (λ _. Run (Outcome B Failure)) [
                  | returns a w' ↦ returns (success a) w'
                  | panics w' ↦ panics w'
                ])
                  as (λ _. Run (Outcome A Failure)) [
                    | returns o w' ↦ elim o [
                      | success a ↦ k a w'
                      | failure e ↦ returns (failure e) w'
                    ]
                    | panics w' ↦ panics w'
                  ]))
      ended (returns b w') t = Tame-trans t (next b w')
      ended (panics w') t = t

  pub lifted_last : (m : M A) → Tame w (final (m w)) → Tame w (final (lift m w))
  lifted_last m h = ended (m w) h
    where
      ended :
          (r : Run A)
          → Tame w (final r)
          → Tame w (
              final (elim r as (λ _. Run (Outcome A Failure)) [
                | returns a w' ↦ returns (success a) w'
                | panics w' ↦ panics w'
              ]))
      ended (returns a w') t = t
      ended (panics w') t = t

  pub world_step :
      {B : Type 0} (m : M B) (k : B → M A)
      → Tame w (final (m w))
      → ((b : B) (w' : World) → Tame w' (final (k b w')))
      → Tame w (final ((m >>>= k) w))
  world_step {B} m k h next = ended (m w) h
    where
      ended :
          (r : Run B)
          → Tame w (final r)
          → Tame w
              (final (elim r as (λ _. Run A) [ returns a w' ↦ k a w' | panics w' ↦ panics w' ]))
      ended (returns b w') t = Tame-trans t (next b w')
      ended (panics w') t = t
