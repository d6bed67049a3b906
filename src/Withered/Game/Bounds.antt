-- ===== src/Withered/Game/Bounds.antt =====
-- What a tick runs, and that it keeps the bounds.
use tanzlaurel.Base.{
  ℕ, zero, suc, ◌-◌, ◌≤◌, ◌≡◌, refl, sym, List, [], ◌∷◌, ◌++◌, true, false, not, ◌&&◌, ◌||◌, Option,
  none, some, leb, Bool-cases, Option-cases, inl, inr, arith, Returns, Returns-weaken, subst,
}
use tanzlaurel.Base.Int.{ℤ, pos, negsuc, pred, is_positive, ltb_ℕ}
use tanzlaurel.Flourish.Crdt.Rga.{contains}
use tanzlaurel.Withered.Game.World.{
  ShootingWorld, Vector, new_shooting_world, spawn_actor, InputEntry, put, spawn_bullet,
  alloc_entity, remove_entity, drain,
}
use tanzlaurel.Withered.Game.Grid.{Grid}
use tanzlaurel.Withered.Game.Floats.{FloatOps, distance_sq}
use tanzlaurel.Withered.Game.Systems.{
  is_alive, is_respawning, with_state, read, origin, is_actor, lives, is_bullet, respawn_one,
  respawn, key_mask_to_direction, move_one, move_all, input_move, nearest, shoot_at, auto_shoot_one,
  auto_shoot, bullet_move_one, bullet_move, find_hit, damage, hits, collision_damage,
  bullet_cleanup, max_float32, min_distance,
}
use tanzlaurel.Withered.Game.Scheduler.{
  find_system, add_dependencies, collect, sources, release, sort_loop, topological_sort, check_ids,
  in_phase, order_phases, new_scheduler, run_all, run_phases, run_tick,
}
use tanzlaurel.Withered.Game.Fitness.{
  IsFit, IsTimer, Fit-timer, Fit-new, Fit-cooldown, Fit-health, Fit-back, Fit-down,
  remove_entity-IsFit, each-IsFit,
}
use tanzlaurel.Withered.Game.Commands.{on_join, on_leave}
use tanzlaurel.Withered.Game.Ticks.{game_scheduler, tick}

IsTimer-left : (t : ℤ) → ltb_ℕ t 181 ≡ true → is_positive (pred t) ≡ true → IsTimer (pred t)
IsTimer-left (pos zero) h p = absurd (cc p)
IsTimer-left (pos (suc n)) h p = (p, ground arith)
IsTimer-left (negsuc n) h p = absurd (cc p)

-- A missing timer reads as 0.
timer_read : (o : Option ℤ) → ((t : ℤ) → o ≡ some t → IsTimer t) → ltb_ℕ (read (pos 0) o) 181 ≡ true
unfolding read
timer_read none h = refl
timer_read (some t) h = (h t refl).1

cooldown_left : (t : ℤ) → ltb_ℕ t 31 ≡ true → ltb_ℕ (pred t) 31 ≡ true
cooldown_left (pos zero) h = refl
cooldown_left (pos (suc n)) h = ground arith
cooldown_left (negsuc n) h = refl

cooldown_read :
    (o : Option ℤ) → ((t : ℤ) → o ≡ some t → ltb_ℕ t 31 ≡ true) → ltb_ℕ (read (pos 0) o) 31 ≡ true
unfolding read
cooldown_read none h = refl
cooldown_read (some t) h = h t refl

read_le : (o : Option ℕ) → ((v : ℕ) → o ≡ some v → v ≤ 100) → read 0 o ≤ 100
unfolding read
read_le none h = omega arith
read_le (some v) h = h v refl

down_state : (s : ℕ) → is_alive (with_state s 2) ≡ false
unfolding is_alive with_state
down_state s = ground arith

module _ (f : FloatOps) where
  respawn_one-IsFit :
      (draw : ℕ → Vector) (id : ℕ) (w : ShootingWorld) → IsFit w → IsFit (respawn_one f draw id w)
  unfolding respawn_one
  respawn_one-IsFit draw id w h = elim (Option-cases (w.life_state id)) [
    | inl e ↦ rw (e, respawn_one) h
    | inr (s, e) ↦ elim (Bool-cases (is_respawning s)) [
      | inr not_yet ↦ rw (e, not_yet, respawn_one) h
      | inl gone ↦
          let left = timer_read (w.respawn_timer id) (h.timer id) in
          elim (Bool-cases (is_positive (pred (read (pos 0) (w.respawn_timer id))))) [
            | inl more ↦
                rw (e, gone, more, respawn_one)
                  (Fit-timer w.health w.life_state w.respawn_timer w.shoot_cooldown h id _
                    (IsTimer-left _ left more))
            | inr over ↦
                rw (e, gone, over, respawn_one)
                  (Fit-back w.health w.life_state w.respawn_timer w.shoot_cooldown h id _)
          ]
    ]
  ]

  move_one-IsFit :
      (g : Grid) (entry : InputEntry) (w : ShootingWorld) → IsFit w → IsFit (move_one f g entry w)
  unfolding move_one
  move_one-IsFit g entry w h =
      let id = entry.entity_id in
      let d = key_mask_to_direction f entry.key_mask in
      elim (Bool-cases
        (not (contains id w.entities) || not (lives w id) || (f.eq d.x 0 && f.eq d.y 0))) [
          | inl stays ↦ rw (stays, move_one) h
          | inr moves ↦ rw (moves, move_one) h
        ]

  move_all-IsFit :
      (g : Grid) (entries : List InputEntry) (w : ShootingWorld)
      → IsFit w
      → IsFit (move_all f g entries w)
  unfolding move_all
  move_all-IsFit g [] w h = h
  move_all-IsFit g (entry ∷ entries) w h =
      move_all-IsFit g entries (move_one f g entry w) (move_one-IsFit g entry w h)

  shoot_at-IsFit : (id target : ℕ) (w : ShootingWorld) → IsFit w → IsFit (shoot_at f id target w)
  unfolding shoot_at spawn_bullet alloc_entity
  shoot_at-IsFit id target w h =
      let p = read origin (w.position id) in
      let q = read origin (w.position target) in
      elim (Bool-cases (f.lt (f.sqrt (distance_sq f q p)) min_distance)) [
        | inl near ↦ rw (near, shoot_at) h
        | inr far ↦
            rw (far, shoot_at)
              (Fit-cooldown w.health w.life_state w.respawn_timer w.shoot_cooldown h id (pos 30)
                refl)
      ]

  auto_shoot_one-IsFit : (id : ℕ) (w : ShootingWorld) → IsFit w → IsFit (auto_shoot_one f id w)
  unfolding auto_shoot_one
  auto_shoot_one-IsFit id w h = elim (Bool-cases (is_actor w id && lives w id)) [
    | inr miss ↦ rw (miss, auto_shoot_one) h
    | inl hit ↦
        let cooldown = pred (read (pos 0) (w.shoot_cooldown id)) in
        let w' : ShootingWorld = record w { shoot_cooldown = put w.shoot_cooldown id cooldown } in
        let h' : IsFit w' =
          Fit-cooldown w.health w.life_state w.respawn_timer w.shoot_cooldown h id cooldown (
            cooldown_left (read (pos 0) (w.shoot_cooldown id))
              (cooldown_read (w.shoot_cooldown id) (h.cooldown id))) in
        elim (Bool-cases (is_positive cooldown)) [
          | inl more ↦ rw (hit, more, auto_shoot_one) h'
          | inr over ↦
              elim (Option-cases
                (nearest f w' id (read origin (w'.position id)) w'.entities max_float32 none)) [
                  | inl nobody ↦ rw (hit, over, nobody, auto_shoot_one) h'
                  | inr (target, seen) ↦
                      rw (hit, over, seen, auto_shoot_one) (shoot_at-IsFit id target w' h')
                ]
        ]
  ]

  bullet_move_one-IsFit : (id : ℕ) (w : ShootingWorld) → IsFit w → IsFit (bullet_move_one f id w)
  unfolding bullet_move_one
  bullet_move_one-IsFit id w h = elim (Bool-cases (is_bullet w id)) [
    | inl hit ↦ rw (hit, bullet_move_one) h
    | inr miss ↦ rw (miss, bullet_move_one) h
  ]

  damage-IsFit : (actor : ℕ) (w : ShootingWorld) → IsFit w → IsFit (damage f actor w)
  unfolding damage
  damage-IsFit actor w h =
      let v = read 0 (w.health actor) in
      let le = read_le (w.health actor) (h.hp actor) in
      elim (Bool-cases (leb v 20)) [
        | inl dies ↦
            rw (dies, damage)
              (Fit-down w.health w.life_state w.respawn_timer w.shoot_cooldown h actor _
                (down_state (read 0 (w.life_state actor))))
        | inr lives_on ↦
            rw (lives_on, damage)
              (Fit-health w.health w.life_state w.respawn_timer w.shoot_cooldown h actor (v - 20)
                (omega (arith, le)) (ground arith))
      ]

  hits-IsFit :
      (ids : List ℕ) (w : ShootingWorld) (gone : List ℕ) → IsFit w → IsFit (hits f ids w gone).0
  unfolding hits
  hits-IsFit [] w gone h = h
  hits-IsFit (id ∷ ids) w gone h = elim (Bool-cases (is_bullet w id)) [
    | inr miss ↦ rw (miss, hits) (hits-IsFit ids w gone h)
    | inl hit ↦
        elim (Option-cases
          (find_hit f w (read origin (w.position id)) (read 0 (w.owner id)) w.entities)) [
            | inl nobody ↦ rw (hit, nobody, hits) (hits-IsFit ids w gone h)
            | inr (actor, e) ↦
                rw (hit, e, hits)
                  (hits-IsFit ids (damage f actor w) (gone ++ (id ∷ [])) (damage-IsFit actor w h))
          ]
  ]

-- The order of the seven systems.
game_scheduler-order :
    (f : FloatOps) (draw : ℕ → Vector) (g : Grid)
    → Returns
        (λ scheduler.
          (w : ShootingWorld)
          → run_tick scheduler w
            ≡ bullet_cleanup (
                collision_damage f
                  (bullet_move f (auto_shoot f (input_move f g (respawn f draw w))))))
        (game_scheduler f draw g)
unfolding game_scheduler find_system add_dependencies collect sources release sort_loop
    topological_sort check_ids in_phase order_phases new_scheduler run_all run_phases run_tick
game_scheduler-order f draw g = λ w. refl

module _ (f : FloatOps) (draw : ℕ → Vector) (g : Grid) where
  step-IsFit :
      (w : ShootingWorld)
      → IsFit w
      → IsFit (
          bullet_cleanup
            (collision_damage f (bullet_move f (auto_shoot f (input_move f g (respawn f draw w))))))
  unfolding respawn input_move auto_shoot bullet_move collision_damage bullet_cleanup drain
  step-IsFit w h =
      let w1 = respawn f draw w in
      let w2 = input_move f g w1 in
      let w3 = auto_shoot f w2 in
      let w4 = bullet_move f w3 in
      let w5 = collision_damage f w4 in
      let h1 : IsFit w1 =
        each-IsFit (respawn_one f draw) (respawn_one-IsFit f draw) w.entities w h in
      let h2 : IsFit w2 =
        move_all-IsFit f g w1.pending_inputs (record w1 { pending_inputs = [] }) h1 in
      let h3 : IsFit w3 =
        each-IsFit (auto_shoot_one f) (auto_shoot_one-IsFit f) w2.entities w2 h2 in
      let h4 : IsFit w4 =
        each-IsFit (bullet_move_one f) (bullet_move_one-IsFit f) w3.entities w3 h3 in
      let h5 : IsFit w5 =
        each-IsFit remove_entity remove_entity-IsFit _ _ (hits-IsFit f w4.entities w4 [] h4) in
      each-IsFit remove_entity remove_entity-IsFit _ _ h5

on_join-IsFit :
    (at_pos : Vector) (session_id : ℕ) (w : ShootingWorld)
    → IsFit w
    → IsFit (on_join at_pos session_id w)
unfolding on_join spawn_actor alloc_entity
on_join-IsFit at_pos session_id w h =
    Fit-new w.health w.life_state w.respawn_timer w.shoot_cooldown h _

on_leave-IsFit : (session_id : ℕ) (w : ShootingWorld) → IsFit w → IsFit (on_leave session_id w)
unfolding on_leave
on_leave-IsFit session_id w h = elim (Option-cases (w.session_to_entity session_id)) [
  | inl e ↦ rw (e, on_leave) h
  | inr (id, e) ↦ rw (e, on_leave) (remove_entity-IsFit id w h)
]

-- A world is fit when health is at most 100, an actor that is alive has some, a shot is at most 30
-- ticks away, and an actor that is to return does so in 1 to 180 ticks. The new world is fit, and a
-- fit world stays so when a session joins or leaves and in every tick of the application's
-- scheduler.
pub tick-IsFit :
    (f : FloatOps) (draw : ℕ → Vector) (g : Grid)
    → IsFit new_shooting_world
      × ((at_pos : Vector) (session_id : ℕ) (w : ShootingWorld)
          → IsFit w
          → IsFit (on_join at_pos session_id w))
      × ((session_id : ℕ) (w : ShootingWorld) → IsFit w → IsFit (on_leave session_id w))
      × Returns
          (λ scheduler. (w : ShootingWorld) → IsFit w → IsFit (tick scheduler w).0)
          (game_scheduler f draw g)
unfolding new_shooting_world tick
tick-IsFit f draw g = (
  record {
    hp = λ id v e. cc;
    timer = λ id t e. absurd (cc e);
    cooldown = λ id t e. cc;
    alive = λ id s e. absurd (cc e);
  },
  on_join-IsFit,
  on_leave-IsFit,
  Returns-weaken _ _ (game_scheduler f draw g) (game_scheduler-order f draw g)
      (λ scheduler order w h. subst IsFit (sym (order w)) (step-IsFit f draw g w h)),
)
