-- ===== src/Loop/Invariant.antt =====
-- What always holds of the running server: the table, the sessions that are alive and the events in the
-- loop agree.
use files_event.Prelude.{
  ℕ, ◌^◌, ◌<◌, ◌≡◌, arith, refl, sym, subst, ◌∙◌, ◌==◌, Bool, true, false, Option, none, some, inl,
  inr, Bool-cases,
}
use files_event.SessionTable.{Table, get, update}
use files_event.Session.{Session}
use files_event.Session.Frame.{Serves}
use files_event.Server.{EventGlobal}
use files_event.Loop.{Slots, World}
use files_event.Loop.Events.{Waits}

-- A session that is alive: the table has it under its number, its descriptor is open, and its events
-- wait as its flags say.
pub record Alive (w : World) (table : Table) (p : ℕ) (s : Session) : Type 0 where
  pub own_pointer : s.self ≡ p
  pub serves : Serves s
  pub has_global : s.global ≡ true
  pub low : s.sid < 2 ^ 16
  pub in_table : (get s.sid table).0 ≡ some p
  pub descriptor : w.is_open s.sid ≡ true
  pub waits : Waits (w.slots p) s

-- A deleted session has no event in the loop, and the table holds none.
pub record Sound (w : World) : Type 0 where
  pub table : Table
  pub has_table : w.global.manager ≡ some table
  pub alive : (p : ℕ) (s : Session) → w.live p ≡ some s → Alive w table p s
  pub dead : (p : ℕ) → w.live p ≡ none → ((w.slots p).reads ≡ false) × ((w.slots p).writes ≡ false)
  pub held :
      (sid p : ℕ)
      → sid < 2 ^ 16
      → (get sid table).0 ≡ some p
      → (s : Session) × (w.live p ≡ some s) × (s.sid ≡ sid)

pub update-here {ℓ} : {A : Type ℓ} (f : ℕ → A) (k : ℕ) (a : A) → update f k a k ≡ a
update-here f k a = let same : (k == k) ≡ true = ground arith in rw same refl

update-else {ℓ} :
    {A : Type ℓ} (f : ℕ → A) (k : ℕ) (a : A) (i : ℕ) → (i == k) ≡ false → update f k a i ≡ f i
update-else f k a i other = rw other refl

-- A world in which one session has changed.
abbrev pub changed : ℕ → Option Session → Slots → EventGlobal → (ℕ → Bool) → World → World
changed p left k g fds w = record {
  global = g;
  live = update w.live p left;
  slots = update w.slots p k;
  is_open = fds;
}

-- What must be shown where one session has changed: of it itself, and what is left of the others.
pub record Change (w : World) (sound : Sound w) (p : ℕ) (left : Option Session) (k : Slots)
    (g : EventGlobal) (fds : ℕ → Bool) : Type 0 where
  pub table : Table
  pub has_table : g.manager ≡ some table
  pub alive : (s : Session) → left ≡ some s → Alive (changed p left k g fds w) table p s
  pub dead : left ≡ none → (k.reads ≡ false) × (k.writes ≡ false)
  pub others_in :
      (q : ℕ) (u : Session)
      → (q == p) ≡ false
      → Alive w sound.table q u
      → ((get u.sid table).0 ≡ some q) × (fds u.sid ≡ true)
  pub own :
      (sid : ℕ)
      → sid < 2 ^ 16
      → (get sid table).0 ≡ some p
      → (s : Session) × (left ≡ some s) × (s.sid ≡ sid)
  pub others_held :
      (sid q : ℕ) → (q == p) ≡ false → (get sid table).0 ≡ some q → (get sid sound.table).0 ≡ some q

module _ (w : World) (sound : Sound w) (p : ℕ) (left : Option Session) (k : Slots) (g : EventGlobal)
    (fds : ℕ → Bool) (c : Change w sound p left k g fds) where
  abbrev after : World
  after = changed p left k g fds w

  changed-Alive : (q : ℕ) (u : Session) → after.live q ≡ some u → Alive after c.table q u
  changed-Alive q u h = elim (Bool-cases (q == p)) [
    | inl e ↦
        let same : p ≡ q = ground arith in
        subst (λ n. after.live n ≡ some u → Alive after c.table n u) same
          (λ h'. c.alive u (sym (update-here w.live p left) ∙ h')) h
    | inr e ↦
        let old = sound.alive q u (sym (update-else w.live p left q e) ∙ h) in
        let (there, opened) = c.others_in q u e old in
        record {
          own_pointer = old.own_pointer;
          serves = old.serves;
          has_global = old.has_global;
          low = old.low;
          in_table = there;
          descriptor = opened;
          waits = subst (λ l. Waits l u) (sym (update-else w.slots p k q e)) old.waits;
        }
  ]

  changed_dead :
      (q : ℕ)
      → after.live q ≡ none
      → ((after.slots q).reads ≡ false) × ((after.slots q).writes ≡ false)
  changed_dead q h = elim (Bool-cases (q == p)) [
    | inl e ↦
        let same : p ≡ q = ground arith in
        subst
          (λ n.
            after.live n ≡ none
            → ((after.slots n).reads ≡ false) × ((after.slots n).writes ≡ false))
          same
          (λ h'.
            subst (λ (l : Slots). (l.reads ≡ false) × (l.writes ≡ false))
              (sym (update-here w.slots p k)) (c.dead (sym (update-here w.live p left) ∙ h')))
          h
    | inr e ↦
        subst (λ (l : Slots). (l.reads ≡ false) × (l.writes ≡ false))
          (sym (update-else w.slots p k q e))
          (sound.dead q (sym (update-else w.live p left q e) ∙ h))
  ]

  changed_held :
      (sid q : ℕ)
      → sid < 2 ^ 16
      → (get sid c.table).0 ≡ some q
      → (s : Session) × (after.live q ≡ some s) × (s.sid ≡ sid)
  changed_held sid q low h = elim (Bool-cases (q == p)) [
    | inl e ↦
        let same : p ≡ q = ground arith in
        subst
          (λ n.
            (get sid c.table).0 ≡ some n → (s : Session) × (after.live n ≡ some s) × (s.sid ≡ sid))
          same
          (λ h'.
            let (s, is_left, number) = c.own sid low h' in
            (s, update-here w.live p left ∙ is_left, number))
          h
    | inr e ↦
        let (s, old, number) = sound.held sid q low (c.others_held sid q e h) in
        (s, update-else w.live p left q e ∙ old, number)
  ]

  pub changed-Sound : Sound after
  changed-Sound = record {
    table = c.table;
    has_table = c.has_table;
    alive = changed-Alive;
    dead = changed_dead;
    held = changed_held;
  }
