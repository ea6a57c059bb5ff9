-- ===== src/Server/Named.antt =====
-- The map of users holds each user under its own id.
pub mod Packets
pub mod Lost
pub mod Reached
use phira_mp.Common.{
  ℕ, ◌+◌, ◌≤◌, ◌<◌, ◌≡◌, ◌≢◌, refl, sym, ap, ◌∙◌, subst, Option, none, some, List, arith,
  ◌==◌ as nat_beq, ==_iff, if◌then◌else◌, Bool-cases, ◌⊎◌, inl, inr,
}
use phira_mp.Common.Int.{ℤ}
use phira_mp.Common.Eq.{int_eq, ◌==◌, beq→eq, beq_false→ne}
use phira_mp.Common.Maps.{
  lookup, insert, remove, lookup-insert_self, lookup-insert_ne, lookup-remove_self,
  lookup-remove_ne,
}
use phira_mp.World.{User, World, set_user}
use phira_mp.Session.Tame.{Roomy, Tame, Identity, identity}

-- What is listed under an id has that id, and its address is in use; so it is with the rooms, none of
-- which lists too many users.
pub record Named (w : World) : Type 0 where
  pub listed : (k : ℤ) (u : ℕ) → lookup k w.users ≡ some u → ((w.user_at u).id ≡ k) × (u < w.fresh)
  pub roomy : Roomy w

-- Where the map, the ids and the addresses in use are the same.
pub Named-same :
    {w w' : World}
    → w'.users ≡ w.users
    → ((v : ℕ) → (w'.user_at v).id ≡ (w.user_at v).id)
    → w.fresh ≤ w'.fresh
    → (Roomy w → Roomy w')
    → Named w
    → Named w'
Named-same {w} users ids fresh rooms n = record {
  roomy = rooms n.roomy;
  listed = λ k u h.
      let (id, small) = n.listed k u (ap (lookup k) (sym users) ∙ h) in
      (ids u ∙ id, omega (arith, small, fresh));
}

pub Tame-Named : {w w' : World} → Tame w w' → Named w → Named w'
unfolding identity
Tame-Named {w} {w'} t n =
    Named-same {w = w} {w' = w'} t.users (λ v. ap (λ (i : Identity). i.id) (t.same v)) t.fresh
      t.roomy n

pub set_user-Named :
    (u : ℕ) (user : User) (w : World)
    → user.id ≡ (w.user_at u).id
    → Named w
    → Named (set_user u user w)
set_user-Named u user w e n =
    Named-same {w = w} refl ids (omega arith)
      (λ r. record { capacity = r.capacity; listed = r.listed }) n
  where
    ids : (v : ℕ) → ((set_user u user w).user_at v).id ≡ (w.user_at v).id
    ids v = elim (Bool-cases (nat_beq v u)) [
      | inl here ↦ rw here (e ∙ ap (λ x. (w.user_at x).id) (sym ((==_iff v u).0 here)))
      | inr apart ↦ rw apart refl
    ]

pub remove-Named : (k : ℤ) (w : World) → Named w → Named (record w { users = remove k w.users })
remove-Named k w n = record {
  roomy = record { capacity = n.roomy.capacity; listed = n.roomy.listed };
  listed = λ j u h. elim (Bool-cases (k == j)) [
    | inl t ↦
        let e = beq→eq {j = k} {k = j} t in
        let gone = ap (λ i. lookup i (remove k w.users)) (sym e) ∙ lookup-remove_self k w.users in
        absurd (cc (gone, h))
    | inr f ↦ n.listed j u (sym (lookup-remove_ne k j w.users (beq_false→ne f)) ∙ h)
  ];
}

-- A new user, at an address that was not in use, is entered under its id.
pub insert-Named :
    (user : User) (w w' : World)
    → w'.users ≡ insert user.id w.fresh w.users
    → w'.user_at w.fresh ≡ user
    → ((v : ℕ) → v < w.fresh → (w'.user_at v).id ≡ (w.user_at v).id)
    → w'.fresh ≡ w.fresh + 1
    → (Roomy w → Roomy w')
    → Named w
    → Named w'
insert-Named user w w' users self others fresh rooms n = record {
  roomy = rooms n.roomy;
  listed = λ j u h. elim (Bool-cases (user.id == j)) [
    | inl t ↦
        let e = beq→eq {j = user.id} {k = j} t in
        let found =
          ap (lookup j) users
          ∙ ap (λ i. lookup i (insert user.id w.fresh w.users)) (sym e)
          ∙ lookup-insert_self user.id w.fresh w.users in
        let same : w.fresh ≡ u = cc (found, h) in
        (
          ap (λ v. (w'.user_at v).id) (sym same) ∙ ap (λ (x : User). x.id) self ∙ e,
          omega (arith, same, fresh),
        )
    | inr f ↦
        let (id, small) = n.listed j u (
          sym (lookup-insert_ne user.id j w.fresh w.users (beq_false→ne f))
          ∙ ap (lookup j) (sym users)
          ∙ h) in
        (others u small ∙ id, omega (arith, small, fresh))
  ];
}
