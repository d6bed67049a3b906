-- ===== src/Withered/Game/Invariant.antt =====
-- What joining and leaving keep true of the world.
use tanzlaurel.Base.{
  ℕ, ◌+◌, ◌%◌, ◌^◌, ◌≡◌, ◌≢◌, refl, sym, ◌∙◌, List, [], ◌∷◌, ◌++◌, false, Option, none, some, ◌==◌,
  ==_iff, inl, inr, arith, Bool-cases, Option-cases,
}
use mathlib.Core.Option.{some-injective}
use tanzlaurel.Flourish.Crdt.Rga.{contains}
use tanzlaurel.Withered.Sessions.Room.{remove}
use tanzlaurel.Withered.Game.World.{
  ShootingWorld, Vector, put, unset, new_shooting_world, alloc_entity, spawn_actor, unlink,
  remove_entity,
}
use tanzlaurel.Withered.Game.Commands.{on_join, on_leave}

-- No component is kept for this identifier.
pub record IsBare (w : ShootingWorld) (id : ℕ) : Type 0 where
  pub position : w.position id ≡ none
  pub health : w.health id ≡ none
  pub life_state : w.life_state id ≡ none
  pub velocity : w.velocity id ≡ none
  pub ttl : w.ttl id ≡ none
  pub owner : w.owner id ≡ none
  pub tag : w.tag id ≡ none
  pub shoot_cooldown : w.shoot_cooldown id ≡ none
  pub respawn_timer : w.respawn_timer id ≡ none
  pub entity_to_session : w.entity_to_session id ≡ none

-- Only the world's entities have components, and the entity of a session is linked back to it.
pub record IsWorld (w : ShootingWorld) : Type 0 where
  pub bare : (id : ℕ) → contains id w.entities ≡ false → IsBare w id
  pub linked : (s id : ℕ) → w.session_to_entity s ≡ some id → w.entity_to_session id ≡ some s

pub new_shooting_world-IsWorld : IsWorld new_shooting_world
unfolding new_shooting_world
new_shooting_world-IsWorld = record {
  bare = λ id h. record {
    position = refl;
    health = refl;
    life_state = refl;
    velocity = refl;
    ttl = refl;
    owner = refl;
    tag = refl;
    shoot_cooldown = refl;
    respawn_timer = refl;
    entity_to_session = refl;
  };
  linked = λ s id h. cc;
}

-- The identifier that the next entity gets.
abbrev pub next_id : ShootingWorld → ℕ
next_id w = (w.next_entity_id + 1) % 2 ^ 16

contains-snoc :
    (k x : ℕ) (xs : List ℕ)
    → contains k (xs ++ (x ∷ [])) ≡ false
    → (contains k xs ≡ false) × ((k == x) ≡ false)
unfolding contains
contains-snoc k x [] h = ground arith
contains-snoc k x (y ∷ ys) h = ground (arith, contains-snoc k x ys)

contains-remove :
    (k id : ℕ) (xs : List ℕ) → contains k (remove id xs) ≡ false → k ≢ id → contains k xs ≡ false
unfolding contains remove
contains-remove k id [] h ne = refl
contains-remove k id (y ∷ ys) h ne = ground (arith, contains-remove k id ys)

put-other {ℓ} :
    {A : Type ℓ} (m : ℕ → Option A) (k : ℕ) (v : A) (j : ℕ) → (j == k) ≡ false → put m k v j ≡ m j
put-other m k v j h = rw h refl

put-same {ℓ} : {A : Type ℓ} (m : ℕ → Option A) (k : ℕ) (v : A) → put m k v k ≡ some v
put-same m k v = rw ((==_iff k k).1 refl) refl

unset-same {ℓ} : {A : Type ℓ} (m : ℕ → Option A) (k : ℕ) → unset m k k ≡ none
unset-same m k = rw ((==_iff k k).1 refl) refl

unset-none {ℓ} :
    {A : Type ℓ} (m : ℕ → Option A) (k j : ℕ) → ((j == k) ≡ false → m j ≡ none) → unset m k j ≡ none
unset-none m k j h = elim (Bool-cases (j == k)) [ inl e ↦ rw e refl | inr e ↦ rw e (h e) ]

unset-other {ℓ} : {A : Type ℓ} (m : ℕ → Option A) (k j : ℕ) → j ≢ k → unset m k j ≡ m j
unset-other m k j ne = ground arith

put-linked :
    (m e : ℕ → Option ℕ) (k n : ℕ)
    → ((s id : ℕ) → m s ≡ some id → e id ≡ some s)
    → e n ≡ none
    → (s id : ℕ) → put m k n s ≡ some id
    → put e n k id ≡ some s
put-linked m e k n linked free s id h = elim (Bool-cases (s == k)) [
  | inl here ↦
      let named : n ≡ id = some-injective n id (sym (rw here refl) ∙ h) in
      let same : s ≡ k = (==_iff s k).0 here in rw (sym named, same) (put-same e n k)
  | inr there ↦
      let linked_there : e id ≡ some s = linked s id (sym (rw there refl) ∙ h) in
      elim (Bool-cases (id == n)) [
        | inl new ↦ let same : id ≡ n = (==_iff id n).0 new in absurd (cc)
        | inr old ↦ rw old linked_there
      ]
]

unset-linked :
    (m e : ℕ → Option ℕ) (k n : ℕ)
    → ((s id : ℕ) → m s ≡ some id → e id ≡ some s)
    → e n ≡ some k
    → (s id : ℕ) → unset m k s ≡ some id
    → unset e n id ≡ some s
unset-linked m e k n linked back s id h = elim (Bool-cases (s == k)) [
  | inl here ↦ absurd (ground arith)
  | inr there ↦
      let linked_there : e id ≡ some s = linked s id (sym (rw there refl) ∙ h) in
      elim (Bool-cases (id == n)) [
        | inl new ↦ let same : id ≡ n = (==_iff id n).0 new in absurd (ground arith)
        | inr old ↦ rw old linked_there
      ]
]

-- In a consistent world, while the next identifier is not in use, a joining session gets an entity
-- under it, placed at full health, the other sessions keep theirs, and the world stays consistent.
pub on_join-IsWorld :
    (pos : Vector) (session_id : ℕ) (w : ShootingWorld)
    → IsWorld w
    → contains (next_id w) w.entities ≡ false
    → IsWorld (on_join pos session_id w)
      × ((on_join pos session_id w).session_to_entity session_id ≡ some (next_id w))
      × ((on_join pos session_id w).position (next_id w) ≡ some pos)
      × ((on_join pos session_id w).health (next_id w) ≡ some 100)
      × ((s : ℕ)
          → s ≢ session_id
          → (on_join pos session_id w).session_to_entity s ≡ w.session_to_entity s)
unfolding on_join spawn_actor alloc_entity
on_join-IsWorld pos session_id w inv fresh = (
  rw fresh (record {
    bare = λ id h.
        let (out, ne) = contains-snoc id (next_id w) w.entities h in
        let b = inv.bare id out in
        record {
          position = rw ne b.position;
          health = rw ne b.health;
          life_state = rw ne b.life_state;
          velocity = b.velocity;
          ttl = b.ttl;
          owner = b.owner;
          tag = rw ne b.tag;
          shoot_cooldown = rw ne b.shoot_cooldown;
          respawn_timer = b.respawn_timer;
          entity_to_session = rw ne b.entity_to_session;
        };
    linked = λ s id h.
        put-linked w.session_to_entity w.entity_to_session session_id (next_id w) inv.linked
          (inv.bare (next_id w) fresh).entity_to_session s id h;
  }),
  put-same w.session_to_entity session_id (next_id w),
  put-same w.position (next_id w) pos,
  put-same w.health (next_id w) 100,
  λ s ne. put-other w.session_to_entity session_id (next_id w) s (ground arith),
)

-- The world without an entity that is linked to a session.
abbrev removed : ℕ → ℕ → ShootingWorld → ShootingWorld
removed id sid w = record w {
  entities = remove id w.entities;
  position = unset w.position id;
  health = unset w.health id;
  life_state = unset w.life_state id;
  velocity = unset w.velocity id;
  ttl = unset w.ttl id;
  owner = unset w.owner id;
  tag = unset w.tag id;
  shoot_cooldown = unset w.shoot_cooldown id;
  respawn_timer = unset w.respawn_timer id;
  entity_to_session = unset w.entity_to_session id;
  session_to_entity = unset w.session_to_entity sid;
}

remove_entity-removed :
    (id sid : ℕ) (w : ShootingWorld)
    → w.entity_to_session id ≡ some sid
    → remove_entity id w ≡ removed id sid w
unfolding remove_entity unlink
remove_entity-removed id sid w back = rw (back, remove_entity, unlink) refl

removed-IsBare :
    (id sid : ℕ) (w : ShootingWorld) (k : ℕ)
    → ((k == id) ≡ false → IsBare w k)
    → IsBare (removed id sid w) k
removed-IsBare id sid w k b = record {
  position = unset-none w.position id k (λ ne. (b ne).position);
  health = unset-none w.health id k (λ ne. (b ne).health);
  life_state = unset-none w.life_state id k (λ ne. (b ne).life_state);
  velocity = unset-none w.velocity id k (λ ne. (b ne).velocity);
  ttl = unset-none w.ttl id k (λ ne. (b ne).ttl);
  owner = unset-none w.owner id k (λ ne. (b ne).owner);
  tag = unset-none w.tag id k (λ ne. (b ne).tag);
  shoot_cooldown = unset-none w.shoot_cooldown id k (λ ne. (b ne).shoot_cooldown);
  respawn_timer = unset-none w.respawn_timer id k (λ ne. (b ne).respawn_timer);
  entity_to_session = unset-none w.entity_to_session id k (λ ne. (b ne).entity_to_session);
}

removed-IsWorld :
    (id sid : ℕ) (w : ShootingWorld)
    → IsWorld w
    → w.entity_to_session id ≡ some sid
    → IsWorld (removed id sid w)
removed-IsWorld id sid w inv back = record {
  bare = λ k h.
      removed-IsBare id sid w k
        (λ ne. inv.bare k (contains-remove k id w.entities h (ground arith)));
  linked = unset-linked w.session_to_entity w.entity_to_session sid id inv.linked back;
}

remove-contains :
    (k id : ℕ) (xs : List ℕ)
    → (contains id (remove id xs) ≡ false) × (k ≢ id → contains k (remove id xs) ≡ contains k xs)
unfolding contains remove
remove-contains k id [] = (refl, λ ne. refl)
remove-contains k id (y ∷ ys) =
    let (gone, kept) = remove-contains k id ys in
    elim (Bool-cases (y == id)) [
      | inl e ↦
          let same = (==_iff y id).0 e in
          rw e (gone, λ ne. let other : (k == y) ≡ false = ground arith in rw other (kept ne))
      | inr e ↦
          let other : (id == y) ≡ false = ground arith in
          rw (e, other) (gone, λ ne. rw (kept ne) refl)
    ]

-- In a consistent world, a leaving session takes its entity with it: the session has none then, the
-- entity is not among the entities any more and has no components, the other entities stay, the
-- other sessions keep theirs, and the world stays consistent.
pub on_leave-IsWorld :
    (session_id : ℕ) (w : ShootingWorld)
    → IsWorld w
    → IsWorld (on_leave session_id w)
      × ((on_leave session_id w).session_to_entity session_id ≡ none)
      × ((id : ℕ)
          → w.session_to_entity session_id ≡ some id
          → IsBare (on_leave session_id w) id
            × (contains id (on_leave session_id w).entities ≡ false)
            × ((k : ℕ)
                → k ≢ id
                → contains k (on_leave session_id w).entities ≡ contains k w.entities))
      × ((s : ℕ)
          → s ≢ session_id
          → (on_leave session_id w).session_to_entity s ≡ w.session_to_entity s)
unfolding on_leave
on_leave-IsWorld session_id w inv = elim (Option-cases (w.session_to_entity session_id)) [
  | inl e ↦ rw (e, on_leave) (inv, e, (λ id h. cc), λ s ne. refl)
  | inr (id, e) ↦
      let back = inv.linked session_id id e in
      rw (e, on_leave, remove_entity-removed id session_id w back)
        (
          removed-IsWorld id session_id w inv back,
          unset-same w.session_to_entity session_id,
          (λ id' h.
              let same : id ≡ id' = some-injective id id' h in
              (
                removed-IsBare id session_id w id' (λ ne. absurd (ground arith)),
                rw (sym same) (remove-contains id id w.entities).0,
                λ k ne. (remove-contains k id w.entities).1 (ground arith),
              )),
          λ s ne. unset-other w.session_to_entity session_id s ne,
        )
]
