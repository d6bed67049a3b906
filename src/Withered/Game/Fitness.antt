-- ===== src/Withered/Game/Fitness.antt =====
-- Bounds of what the systems count: health points, cooldowns and the time until an actor is back.
use tanzlaurel.Base.{
  ℕ, ◌≤◌, ◌<◌, ◌≡◌, refl, sym, ap, ◌∙◌, List, [], ◌∷◌, true, false, Option, some, ◌==◌, Bool-cases,
  Option-cases, inl, inr, arith,
}
use mathlib.Core.Option.{some-injective}
use tanzlaurel.Base.Int.{ℤ, pos, is_positive, ltb_ℕ}
use tanzlaurel.Withered.Game.World.{ShootingWorld, put, unset, remove_entity, unlink}
use tanzlaurel.Withered.Game.Systems.{is_alive, each}

-- A time until the return: from 1 to 180 ticks.
abbrev pub IsTimer : ℤ → Type 0
IsTimer t = (is_positive t ≡ true) × (ltb_ℕ t 181 ≡ true)

-- Health is at most 100, and that of an actor that is alive is not 0; a shot is at most 30 ticks away.
pub record Fit (health life_state : ℕ → Option ℕ) (respawn_timer shoot_cooldown : ℕ → Option ℤ)
    : Type 0 where
  pub hp : (id v : ℕ) → health id ≡ some v → v ≤ 100
  pub timer : (id : ℕ) (t : ℤ) → respawn_timer id ≡ some t → IsTimer t
  pub cooldown : (id : ℕ) (t : ℤ) → shoot_cooldown id ≡ some t → ltb_ℕ t 31 ≡ true
  pub alive :
      (id s : ℕ)
      → life_state id ≡ some s
      → is_alive s ≡ true
      → (v : ℕ) × (health id ≡ some v) × (0 < v)

abbrev pub IsFit : ShootingWorld → Type 0
IsFit w = Fit w.health w.life_state w.respawn_timer w.shoot_cooldown

put-all :
    {A : Type 0} (P : A → Type 0) (m : ℕ → Option A) (k : ℕ) (v : A)
    → P v
    → ((id : ℕ) (u : A) → m id ≡ some u → P u)
    → (id : ℕ) (u : A) → put m k v id ≡ some u
    → P u
put-all P m k v p h id u e = elim (Bool-cases (id == k)) [
  | inl here ↦ let same : v ≡ u = some-injective v u (sym (rw here refl) ∙ e) in rw (← same) p
  | inr other ↦ h id u (sym (rw other refl) ∙ e)
]

unset-all :
    {A : Type 0} (P : A → Type 0) (m : ℕ → Option A) (k : ℕ)
    → ((id : ℕ) (u : A) → m id ≡ some u → P u)
    → (id : ℕ) (u : A) → unset m k id ≡ some u
    → P u
unset-all P m k h id u e = elim (Bool-cases (id == k)) [
  | inl here ↦ absurd (cc (rw here at e))
  | inr other ↦ h id u (rw other at e)
]

module _ (health life : ℕ → Option ℕ) (timer cooldown : ℕ → Option ℤ)
    (h : Fit health life timer cooldown) (id : ℕ) where
  pub Fit-timer : (t : ℤ) → IsTimer t → Fit health life (put timer id t) cooldown
  Fit-timer t p = record {
    hp = h.hp;
    timer = put-all IsTimer timer id t p h.timer;
    cooldown = h.cooldown;
    alive = h.alive;
  }

  pub Fit-cooldown : (t : ℤ) → ltb_ℕ t 31 ≡ true → Fit health life timer (put cooldown id t)
  Fit-cooldown t p = record {
    hp = h.hp;
    timer = h.timer;
    cooldown = put-all (λ t. ltb_ℕ t 31 ≡ true) cooldown id t p h.cooldown;
    alive = h.alive;
  }

  -- New health, with a new state or the old one.
  pub Fit-health : (v : ℕ) → v ≤ 100 → 0 < v → Fit (put health id v) life timer cooldown
  Fit-health v le more = record {
    hp = put-all (λ v. v ≤ 100) health id v le h.hp;
    timer = h.timer;
    cooldown = h.cooldown;
    alive = λ j s e a. elim (Bool-cases (j == id)) [
      | inl here ↦ (v, rw here refl, more)
      | inr other ↦ let (u, at, pos') = h.alive j s e a in (u, rw other at, pos')
    ];
  }

  pub Fit-back : (s : ℕ) → Fit (put health id 100) (put life id s) (unset timer id) cooldown
  Fit-back s = record {
    hp = put-all (λ v. v ≤ 100) health id 100 (omega arith) h.hp;
    timer = unset-all IsTimer timer id h.timer;
    cooldown = h.cooldown;
    alive = λ j s' e a. elim (Bool-cases (j == id)) [
      | inl here ↦ (100, rw here refl, omega arith)
      | inr other ↦ let (u, at, pos') = h.alive j s' (rw other at e) a in (u, rw other at, pos')
    ];
  }

  pub Fit-down :
      (s : ℕ)
      → is_alive s ≡ false
      → Fit (put health id 0) (put life id s) (put timer id (pos 180)) cooldown
  Fit-down s dead = record {
    hp = put-all (λ v. v ≤ 100) health id 0 (omega arith) h.hp;
    timer = put-all IsTimer timer id (pos 180) (refl, refl) h.timer;
    cooldown = h.cooldown;
    alive = λ j s' e a. elim (Bool-cases (j == id)) [
      | inl here ↦
          let same : s ≡ s' = some-injective s s' (rw here at e) in absurd (cc (ap is_alive same))
      | inr other ↦ let (u, at, pos') = h.alive j s' (rw other at e) a in (u, rw other at, pos')
    ];
  }

  -- A new actor.
  pub Fit-new : Fit (put health id 100) (put life id 1) timer (put cooldown id (pos 0))
  Fit-new = record {
    hp = put-all (λ v. v ≤ 100) health id 100 (omega arith) h.hp;
    timer = h.timer;
    cooldown = put-all (λ t. ltb_ℕ t 31 ≡ true) cooldown id (pos 0) refl h.cooldown;
    alive = λ j s' e a. elim (Bool-cases (j == id)) [
      | inl here ↦ (100, rw here refl, omega arith)
      | inr other ↦ let (u, at, pos') = h.alive j s' (rw other at e) a in (u, rw other at, pos')
    ];
  }

  Fit-gone : Fit (unset health id) (unset life id) (unset timer id) (unset cooldown id)
  Fit-gone = record {
    hp = unset-all (λ v. v ≤ 100) health id h.hp;
    timer = unset-all IsTimer timer id h.timer;
    cooldown = unset-all (λ t. ltb_ℕ t 31 ≡ true) cooldown id h.cooldown;
    alive = λ j s' e a. elim (Bool-cases (j == id)) [
      | inl here ↦ absurd (cc (rw here at e))
      | inr other ↦ let (u, at, pos') = h.alive j s' (rw other at e) a in (u, rw other at, pos')
    ];
  }

pub remove_entity-IsFit : (id : ℕ) (w : ShootingWorld) → IsFit w → IsFit (remove_entity id w)
unfolding remove_entity unlink
remove_entity-IsFit id w h = elim (Option-cases (w.entity_to_session id)) [
  | inl e ↦
      rw (e, remove_entity, unlink)
        (Fit-gone w.health w.life_state w.respawn_timer w.shoot_cooldown h id)
  | inr (sid, e) ↦
      rw (e, remove_entity, unlink)
        (Fit-gone w.health w.life_state w.respawn_timer w.shoot_cooldown h id)
]

pub each-IsFit :
    (body : ℕ → ShootingWorld → ShootingWorld)
    → ((id : ℕ) (w : ShootingWorld) → IsFit w → IsFit (body id w))
    → (ids : List ℕ) (w : ShootingWorld) → IsFit w
    → IsFit (each body ids w)
unfolding each
each-IsFit body keeps [] w h = h
each-IsFit body keeps (id ∷ ids) w h = each-IsFit body keeps ids (body id w) (keeps id w h)
