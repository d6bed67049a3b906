-- ===== src/Withered/Game/Layout.antt =====
-- Which bytes a snapshot has for an entity.
use tanzlaurel.Base.{
  ℕ, ◌≡◌, refl, List, [], ◌∷◌, ◌++◌, Bool, true, false, ◌&&◌, Option, none, some, if◌then◌else◌,
  arith,
}
use Prim.Native.Nat.{bit_or}
use tanzlaurel.Withered.Protocol.Payload.{uint32_bytes}
use tanzlaurel.Withered.Sessions.Session.{has}
use tanzlaurel.Withered.Game.World.{ShootingWorld}
use tanzlaurel.Withered.Game.Snapshots.{
  uint16_bytes, m_pos, m_vel, m_hp, m_life, m_ttl, m_own, m_tag, mark, mask_of, encode_entity,
  section, vector_bytes, or_zero,
}

abbrev pub is_some {ℓ} : {A : Type ℓ} → Option A → Bool
is_some none = false
is_some (some a) = true

-- The bytes of a component that is there, and none of one that is not.
abbrev pub present {ℓ} : {A : Type ℓ} → (A → List ℕ) → Option A → List ℕ
present bytes none = []
present bytes (some a) = bytes a

abbrev same : Bool → Bool → Bool
same true b = b
same false true = false
same false false = true

same-eq : (a b : Bool) → same a b ≡ true → a ≡ b
same-eq true true h = refl
same-eq true false h = cc
same-eq false true h = cc
same-eq false false h = refl

abbrev both : (Bool → Bool) → Bool
both p = p true && p false

both-at : (p : Bool → Bool) → both p ≡ true → (b : Bool) → p b ≡ true
both-at p h true = ground arith
both-at p h false = ground arith

abbrev mark_if : Bool → ℕ → ℕ → ℕ
mark_if b bit mask = if b then bit_or mask bit else mask

mark_if-is_some {ℓ} :
    {A : Type ℓ} (o : Option A) (bit mask : ℕ) → mark o bit mask ≡ mark_if (is_some o) bit mask
unfolding mark
mark_if-is_some none bit mask = refl
mark_if-is_some (some a) bit mask = refl

abbrev flags : Bool → Bool → Bool → Bool → Bool → Bool → Bool → ℕ
flags p v h l t o g = mark_if g m_tag (
    mark_if o m_own
      (mark_if t m_ttl (mark_if l m_life (mark_if h m_hp (mark_if v m_vel (mark_if p m_pos 0))))))

abbrev readable : Bool → Bool → Bool → Bool → Bool → Bool → Bool → Bool
readable p v h l t o g =
    let mask = flags p v h l t o g in
    same (has mask m_pos) p
    && (same (has mask m_vel) v
        && (same (has mask m_hp) h
            && (same (has mask m_life) l
                && (same (has mask m_ttl) t
                    && (same (has mask m_own) o && same (has mask m_tag) g)))))

all_readable :
    both (λ p.
      both
        (λ v. both (λ h. both (λ l. both (λ t. both (λ o. both (λ g. readable p v h l t o g)))))))
    ≡ true
unfolding has
all_readable = refl

readable_lem : (p v h l t o g : Bool) → readable p v h l t o g ≡ true
readable_lem p v h l t o g =
    let at_p =
      both-at
        (λ p.
          both (λ v.
            both (λ h. both (λ l. both (λ t. both (λ o. both (λ g. readable p v h l t o g)))))))
        all_readable p in
    let at_v =
      both-at
        (λ v. both (λ h. both (λ l. both (λ t. both (λ o. both (λ g. readable p v h l t o g))))))
        at_p v in
    let at_h =
      both-at (λ h. both (λ l. both (λ t. both (λ o. both (λ g. readable p v h l t o g))))) at_v
        h in
    let at_l = both-at (λ l. both (λ t. both (λ o. both (λ g. readable p v h l t o g)))) at_h l in
    let at_t = both-at (λ t. both (λ o. both (λ g. readable p v h l t o g))) at_l t in
    let at_o = both-at (λ o. both (λ g. readable p v h l t o g)) at_t o in
    both-at (λ g. readable p v h l t o g) at_o g

split : (a b : Bool) → (a && b) ≡ true → (a ≡ true) × (b ≡ true)
split true true h = (refl, refl)
split true false h = cc
split false b h = cc

module _ (w : ShootingWorld) (id : ℕ) where
  abbrev pub Reads : ℕ → Type 0
  Reads mask =
      (has mask m_pos ≡ is_some (w.position id))
      × (has mask m_vel ≡ is_some (w.velocity id))
      × (has mask m_hp ≡ is_some (w.health id))
      × (has mask m_life ≡ is_some (w.life_state id))
      × (has mask m_ttl ≡ is_some (w.ttl id))
      × (has mask m_own ≡ is_some (w.owner id))
      × (has mask m_tag ≡ is_some (w.tag id))

  flags-Reads : Reads (
      flags
        (is_some (w.position id))
        (is_some (w.velocity id))
        (is_some (w.health id))
        (is_some (w.life_state id))
        (is_some (w.ttl id))
        (is_some (w.owner id))
        (is_some (w.tag id)))
  flags-Reads =
      let (p, p') = split _ _ (
        readable_lem (is_some (w.position id)) (is_some (w.velocity id)) (is_some (w.health id))
          (is_some (w.life_state id)) (is_some (w.ttl id)) (is_some (w.owner id))
          (is_some (w.tag id))) in
      let (v, v') = split _ _ p' in
      let (h, h') = split _ _ v' in
      let (l, l') = split _ _ h' in
      let (t, t') = split _ _ l' in
      let (o, g) = split _ _ t' in
      (
        same-eq _ _ p,
        same-eq _ _ v,
        same-eq _ _ h,
        same-eq _ _ l,
        same-eq _ _ t,
        same-eq _ _ o,
        same-eq _ _ g,
      )

  mask_of-Reads : Reads (mask_of w id)
  unfolding mask_of
  mask_of-Reads =
      rw
        (
          mark_if-is_some (w.position id),
          mark_if-is_some (w.velocity id),
          mark_if-is_some (w.health id),
          mark_if-is_some (w.life_state id),
          mark_if-is_some (w.ttl id),
          mark_if-is_some (w.owner id),
          mark_if-is_some (w.tag id),
        )
        flags-Reads

section-present {ℓ} :
    {A : Type ℓ} (mask bit : ℕ) (o : Option A) (bytes : A → List ℕ) (whole : List ℕ)
    → has mask bit ≡ is_some o
    → ((a : A) → o ≡ some a → whole ≡ bytes a)
    → section mask bit whole ≡ present bytes o
section-present mask bit none bytes whole h e = rw h refl
section-present mask bit (some a) bytes whole h e = rw h (e a refl)

-- An entity is written as its identifier, the mask of its components, and then the bytes of each
-- component that it has, in a fixed order; a bit of the mask is set exactly when that component follows.
pub encode_entity-present :
    (w : ShootingWorld) (id : ℕ)
    → Reads w id (mask_of w id)
      × (encode_entity w id
          ≡ uint16_bytes id
            ++ (mask_of w id ∷ [])
            ++ present (λ v. uint32_bytes v.x ++ uint32_bytes v.y) (w.position id)
            ++ present (λ v. uint32_bytes v.x ++ uint32_bytes v.y) (w.velocity id)
            ++ present (λ hp. hp ∷ []) (w.health id)
            ++ present (λ state. state ∷ []) (w.life_state id)
            ++ present uint16_bytes (w.ttl id)
            ++ present uint16_bytes (w.owner id)
            ++ present (λ tag. tag ∷ []) (w.tag id))
unfolding encode_entity
encode_entity-present w id =
    let mask = mask_of w id in
    let (p, v, h, l, t, o, g) = mask_of-Reads w id in
    (
      (p, v, h, l, t, o, g),
      rw
          (
            section-present mask m_pos (w.position id) (λ v. uint32_bytes v.x ++ uint32_bytes v.y)
                (vector_bytes (w.position id)) p (λ a e. rw e refl),
            section-present mask m_vel (w.velocity id) (λ v. uint32_bytes v.x ++ uint32_bytes v.y)
                (vector_bytes (w.velocity id)) v (λ a e. rw e refl),
            section-present mask m_hp (w.health id) (λ hp. hp ∷ []) (or_zero (w.health id) ∷ []) h
                (λ a e. rw e refl),
            section-present mask m_life (w.life_state id) (λ state. state ∷ [])
                (or_zero (w.life_state id) ∷ []) l (λ a e. rw e refl),
            section-present mask m_ttl (w.ttl id) uint16_bytes (uint16_bytes (or_zero (w.ttl id))) t
                (λ a e. rw e refl),
            section-present mask m_own (w.owner id) uint16_bytes
                (uint16_bytes (or_zero (w.owner id))) o (λ a e. rw e refl),
            section-present mask m_tag (w.tag id) (λ tag. tag ∷ []) (or_zero (w.tag id) ∷ []) g
                (λ a e. rw e refl),
          )
          refl,
    )
