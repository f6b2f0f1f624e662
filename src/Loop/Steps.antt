-- ===== src/Loop/Steps.antt =====
-- Each callback keeps the table, the live sessions and the events in agreement.
use files_event.Prelude.{
  ℕ, ◌+◌, ◌%◌, ◌^◌, ◌<◌, ◌≡◌, arith, refl, ap, sym, subst, ◌∙◌, ◌==◌, if◌then◌else◌, Bool, true,
  false, Option, none, some, pos, ◌⊎◌, inl, inr, Bool-cases, ◌-ℤ◌,
}
use files_event.SessionTable.{Table, get, put, get_and_remove, update, row_of}
use files_event.SessionTable.Lookup.{put_lem, get_and_remove_lem}
use files_event.Session.{Session}
use files_event.Session.Frame.{Serves}
use files_event.Server.{EventGlobal}
use files_event.Loop.{Slots, World}
use files_event.Loop.Events.{Waits, Stays}
use files_event.Loop.Invariant.{Sound, Alive, changed, changed-Sound, update-here}

some-eq : (a b : Session) → some a ≡ some b → a ≡ b
some-eq a b e = cc

-- A session goes on, and the table stays.
pub going :
    (w : World) (sound : Sound w) (p : ℕ) (s s' : Session) (k : Slots) (g : EventGlobal)
    (fds : ℕ → Bool)
    → w.live p ≡ some s
    → g.manager ≡ some sound.table
    → fds ≡ w.is_open
    → Stays s s'
    → Waits k s'
    → Sound (changed p (some s') k g fds w)
going w sound p s s' k g fds here kept same stays waits =
    let old = sound.alive p s here in
    changed-Sound w sound p (some s') k g fds (record {
      table = sound.table;
      has_table = kept;
      alive = λ u is.
          subst (λ v. Alive (changed p (some s') k g fds w) sound.table p v) (some-eq s' u is)
            (record {
              own_pointer = stays.0 ∙ old.own_pointer;
              serves = stays.3 old.serves;
              has_global = stays.2 ∙ old.has_global;
              low = rw stays.1 old.low;
              in_table = rw stays.1 old.in_table;
              descriptor = rw (same, stays.1) old.descriptor;
              waits = subst (λ l. Waits l s') (sym (update-here w.slots p k)) waits;
            });
      dead = λ h. cc;
      others_in = λ q u e other. (other.in_table, rw same other.descriptor);
      own = λ sid low h.
          let (u, live, number) = sound.held sid p low h in
          (
            s',
            refl,
            stays.1 ∙ ap (λ (v : Session). v.sid) (some-eq s u (sym here ∙ live)) ∙ number,
          );
      others_held = λ sid q e h. h;
    })

session_if :
    (b : Bool) (a : Option ℕ) (n : ℕ) (e : Option ℕ × ℕ)
    → (if b then (a, n) else e).0 ≡ (if b then a else e.0)
session_if true a n e = refl
session_if false a n e = refl

-- What `getAndRemove` leaves of a number that has a session, at it and elsewhere.
removed-get :
    (sid p : ℕ) (t : Table)
    → (get sid t).0 ≡ some p
    → (j : ℕ) → (get j (get_and_remove sid t).1).0 ≡ (if j == sid then none else (get j t).0)
removed-get sid p t found j = pick (get_and_remove_lem sid j t)
  where
    pick :
        (let (session, t') = get_and_remove sid t in
          (session ≡ (get sid t).0)
          × (((get j t' ≡ (if j == sid then (none, ((get sid t).1 + 1) % 2 ^ 16) else get j t))
                × (t'.count ≡ t.count -ℤ pos 1))
              ⊎ ((t' ≡ t) × (t.rows (row_of sid) ≡ none) × (session ≡ none))))
        → (get j (get_and_remove sid t).1).0 ≡ (if j == sid then none else (get j t).0)
    pick (e, inl (there, _)) =
        ap (λ (x : Option ℕ × ℕ). x.0) there
        ∙ session_if (j == sid) none (((get sid t).1 + 1) % 2 ^ 16) (get j t)
    pick (e, inr (_, _, n)) = cc

-- Two numbers at which there is not the same.
apart_of :
    (a b q p : ℕ) (f : ℕ → Option ℕ)
    → f a ≡ some q
    → f b ≡ some p
    → (q == p) ≡ false
    → (a == b) ≡ false
apart_of a b q p f there here other = elim (Bool-cases (a == b)) [
  | inl e ↦
      let same : a ≡ b = ground arith in
      let found : f a ≡ f b = ap f same in
      let pointer : q ≡ p = cc in absurd (ground (arith, other, pointer))
  | inr e ↦ e
]

kept_of :
    (b : Bool) (o : Option ℕ) (x : ℕ)
    → (if b then none else o) ≡ some x
    → (b ≡ false) × (o ≡ some x)
kept_of true o x h = cc
kept_of false o x h = (refl, h)

-- A session is deleted: the number that it had is free, and so is its descriptor.
pub leaving :
    (w : World) (sound : Sound w) (p : ℕ) (s : Session) (k : Slots) (g : EventGlobal)
    (fds : ℕ → Bool)
    → w.live p ≡ some s
    → g.manager ≡ some (get_and_remove s.sid sound.table).1
    → ((fd : ℕ) → fds fd ≡ (if fd == s.sid then false else w.is_open fd))
    → (k.reads ≡ false) × (k.writes ≡ false)
    → Sound (changed p none k g fds w)
leaving w sound p s k g fds here out closes off =
    let old = sound.alive p s here in
    let at = removed-get s.sid p sound.table old.in_table in
    changed-Sound w sound p none k g fds (record {
      table = (get_and_remove s.sid sound.table).1;
      has_table = out;
      alive = λ u is. cc;
      dead = λ h. off;
      others_in = λ q u e other.
          let apart : (u.sid == s.sid) ≡ false =
            apart_of u.sid s.sid q p (λ n. (get n sound.table).0) other.in_table old.in_table e in
          (at u.sid ∙ rw apart other.in_table, closes u.sid ∙ rw apart other.descriptor);
      own = λ sid low h.
          let (other, still) =
            kept_of (sid == s.sid) (get sid sound.table).0 p (sym (at sid) ∙ h) in
          let (u, live, number) = sound.held sid p low still in
          let same : s.sid ≡ sid =
            ap (λ (v : Session). v.sid) (some-eq s u (sym here ∙ live)) ∙ number in
          absurd (ground (arith, other, same));
      others_held =
          λ sid q e h. (kept_of (sid == s.sid) (get sid sound.table).0 q (sym (at sid) ∙ h)).1;
    })

-- What `put` leaves of the numbers.
entered-get :
    (sid p : ℕ) (t : Table) (j : ℕ)
    → (get j (put sid p t).1).0 ≡ (if j == sid then some p else (get j t).0)
entered-get sid p t j =
    ap (λ (x : Option ℕ × ℕ). x.0) (put_lem sid p j t).1
    ∙ session_if (j == sid) (some p) (get sid t).1 (get j t)

new_of :
    (b : Bool) (o : Option ℕ) (p q : ℕ)
    → (if b then some p else o) ≡ some q
    → ((b ≡ true) × (p ≡ q)) ⊎ ((b ≡ false) × (o ≡ some q))
new_of true o p q h = inl (refl, cc)
new_of false o p q h = inr (refl, h)

apart_open : (a b : ℕ) (f : ℕ → Bool) → f a ≡ true → f b ≡ false → (a == b) ≡ false
apart_open a b f on off = elim (Bool-cases (a == b)) [
  | inl e ↦ let same : a ≡ b = ground arith in let found : f a ≡ f b = ap f same in cc
  | inr e ↦ e
]

-- A session comes in on a descriptor that was not open.
pub coming :
    (w : World) (sound : Sound w) (p client : ℕ) (s : Session) (k : Slots) (g : EventGlobal)
    → w.live p ≡ none
    → w.is_open client ≡ false
    → client < 2 ^ 16
    → g.manager ≡ some (put client p sound.table).1
    → s.self ≡ p
    → s.sid ≡ client
    → s.global ≡ true
    → Serves s
    → Waits k s
    → Sound (changed p (some s) k g (update w.is_open client true) w)
coming w sound p client s k g free closed low entered self number has serves waits =
    let at = entered-get client p sound.table in
    changed-Sound w sound p (some s) k g (update w.is_open client true) (record {
      table = (put client p sound.table).1;
      has_table = entered;
      alive = λ u is.
          subst
            (λ v.
              Alive (changed p (some s) k g (update w.is_open client true) w)
                (put client p sound.table).1 p v)
            (some-eq s u is)
            (record {
              own_pointer = self;
              serves = serves;
              has_global = has;
              low = rw number low;
              in_table = rw number (
                  at client
                  ∙ (let same : (client == client) ≡ true = ground arith in rw same refl));
              descriptor = rw number (update-here w.is_open client true);
              waits = subst (λ l. Waits l s) (sym (update-here w.slots p k)) waits;
            });
      dead = λ h. cc;
      others_in = λ q u e other.
          let apart : (u.sid == client) ≡ false =
            apart_open u.sid client w.is_open other.descriptor closed in
          (at u.sid ∙ rw apart other.in_table, rw apart other.descriptor);
      own = λ sid low h.
          elim (new_of (sid == client) (get sid sound.table).0 p p (sym (at sid) ∙ h)) [
            | inl r ↦ let same : client ≡ sid = ground (arith, r.0) in (s, refl, number ∙ same)
            | inr r ↦ let (u, live, n) = sound.held sid p low r.1 in absurd (cc)
          ];
      others_held = λ sid q e h.
          elim (new_of (sid == client) (get sid sound.table).0 p q (sym (at sid) ∙ h)) [
            | inl r ↦ absurd (ground (arith, e, r.1))
            | inr r ↦ r.1
          ];
    })
