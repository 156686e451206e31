-- ===== src/Proc/Reparent.antt =====
-- The loop of `exit` that hands the children of a process to `initproc`: what it makes of each slot.
use mathlib.Core.Option
use linux_project.Base.{
  ℕ, zero, suc, ◌+◌, ◌≤◌, ◌<◌, ◌≡◌, refl, inl, inr, ◌⊎◌, Bool, true, false, ◌&&◌, Option, some,
  List, ◌==◌, if◌then◌else◌, ltb, leb, get_elem?, get_or, get_or_of_some, get_elem?-update,
  get_elem?-map, update, Option-cases, arith, subst, ℕ_discrete,
}
use linux_project.Proc.{
  State, Chan, Proc, is_sleeping, is_zombie, chan_of, same_chan, points_to, blank,
}
use linux_project.Proc.Sched.{awake, wakeup1}
use linux_project.Proc.Life.{reparent}

-- A slot `j` before and after the loop of `exit` has gone from `lo` up to `hi`: only the parent and
-- the state may differ.
pub record Moved (me : ℕ) (init : Option ℕ) (lo hi j : ℕ) (p p' : Proc) : Type 0 where
  pub parent :
      p'.parent ≡ (if leb lo j && ltb j hi && points_to p.parent me then init else p.parent)
  pub rest : p' ≡ record p { parent = p'.parent; state = p'.state }
  pub state : (p'.state ≡ p.state) ⊎ ((is_sleeping p.state ≡ true) × (p'.state ≡ State.runnable))

pub record MovedAt (me : ℕ) (init : Option ℕ) (lo hi : ℕ) (procs : List Proc) (j : ℕ) (p' : Proc)
    : Type 0 where
  pub p : Proc
  pub at : get_elem? procs j ≡ some p
  pub moved : Moved me init lo hi j p p'

abbrev one_round : ℕ → ℕ → Option ℕ → List Proc → List Proc
one_round i me init procs =
    let p = get_or procs i blank in
    let moved = update procs i (λ p. record p { parent = init }) in
    if points_to p.parent me
    then (if is_zombie p.state then wakeup1 (chan_of init) moved else moved)
    else procs

-- What a round makes of slot `j`, where `p` is the slot `i` that the round looks at.
abbrev round_slot : ℕ → ℕ → ℕ → Option ℕ → Proc → Proc → Proc
round_slot i j me init p q =
    let q' = if (i == j) && points_to p.parent me then record q { parent = init } else q in
    if points_to p.parent me && is_zombie p.state then awake (chan_of init) q' else q'

get_elem?-one_round :
    (i me : ℕ) (init : Option ℕ) (procs : List Proc) (j : ℕ)
    → get_elem? (one_round i me init procs) j
      ≡ Option.map (round_slot i j me init (get_or procs i blank)) (get_elem? procs j)
unfolding wakeup1
get_elem?-one_round i me init procs j =
    let moved = update procs i (λ p. record p { parent = init }) in
    ground (
      arith,
      Option-cases (get_elem? procs j),
      get_elem?-update procs i j (λ p. record p { parent = init }),
      get_elem?-map (awake (chan_of init)) moved j,
    )

Moved-trans :
    (me : ℕ) (init : Option ℕ) (i n j : ℕ) (p q r : Proc)
    → Moved me init i (i + 1) j p q
    → Moved me init (i + 1) (i + 1 + n) j q r
    → Moved me init i (i + suc n) j p r
Moved-trans me init i n j p q r h g = record {
  parent = ground (arith, h.parent, h.rest, g.parent);
  rest = ground (arith, h.rest, g.rest);
  state = ground (arith, h.state, g.state);
}

round_slot-Moved :
    (i j me : ℕ) (init : Option ℕ) (p q : Proc)
    → (i ≡ j → p ≡ q)
    → Moved me init i (i + 1) j q (round_slot i j me init p q)
round_slot-Moved i j me init p q same = record {
  parent = ground (arith, same);
  rest = ground arith;
  state = ground arith;
}

one_round-Moved :
    (i me : ℕ) (init : Option ℕ) (procs : List Proc) (j : ℕ) (p' : Proc)
    → get_elem? (one_round i me init procs) j ≡ some p'
    → MovedAt me init i (i + 1) procs j p'
unfolding wakeup1
one_round-Moved i me init procs j p' e = elim (Option-cases (get_elem? procs j)) [
  | inl gone ↦ ground (arith, gone, get_elem?-one_round i me init procs j)
  | inr (p, at) ↦
      let same : round_slot i j me init (get_or procs i blank) p ≡ p' =
        ground (arith, at, get_elem?-one_round i me init procs j) in
      subst (MovedAt me init i (i + 1) procs j) same (record {
        p = p;
        at = at;
        moved =
            round_slot-Moved i j me init _ p (λ here. get_or_of_some procs i blank (rw here at));
      })
]

pub reparent-Moved :
    (n i me : ℕ) (init : Option ℕ) (procs : List Proc) (j : ℕ) (p' : Proc)
    → get_elem? (reparent n i me init procs) j ≡ some p'
    → MovedAt me init i (i + n) procs j p'
unfolding reparent
reparent-Moved zero i me init procs j p' e = record {
  p = p';
  at = e;
  moved = record { parent = ground arith; rest = refl; state = inl refl };
}
reparent-Moved (suc n) i me init procs j p' e =
    let r = reparent-Moved n (i + 1) me init (one_round i me init procs) j p' e in
    let s = one_round-Moved i me init procs j r.p r.at in
    record { p = s.p; at = s.at; moved = Moved-trans me init i n j s.p r.p p' s.moved r.moved }

-- The slot sleeps on the channel.
abbrev pub asleep : Chan → Proc → Bool
asleep chan p = is_sleeping p.state && same_chan p.chan chan

Moved-asleep :
    (chan : Chan) (me : ℕ) (init : Option ℕ) (lo hi j : ℕ) (p p' : Proc)
    → Moved me init lo hi j p p'
    → asleep chan p ≡ false
    → asleep chan p' ≡ false
Moved-asleep chan me init lo hi j p p' m quiet = ground (arith, m.rest, m.state)

-- A zombie child that is handed over wakes whoever sleeps on `initproc`.
pub reparent_wakes :
    (n i me c : ℕ) (init : Option ℕ) (procs : List Proc) (q : Proc)
    → i ≤ c
    → c < i + n
    → get_elem? procs c ≡ some q
    → points_to q.parent me ≡ true
    → is_zombie q.state ≡ true
    → (j : ℕ) (p' : Proc) → get_elem? (reparent n i me init procs) j ≡ some p'
    → asleep (chan_of init) p' ≡ false
unfolding reparent
reparent_wakes zero i me c init procs q lo hi at mine dead j p' e = absurd (omega arith)
reparent_wakes (suc n) i me c init procs q lo hi at mine dead j p' e = elim (ℕ_discrete i c) [
  | yes here ↦
      let r = reparent-Moved n (i + 1) me init (one_round i me init procs) j p' e in
      Moved-asleep (chan_of init) me init (i + 1) (i + 1 + n) j r.p p' r.moved (first here r.p r.at)
  | no later ↦
      reparent_wakes n (i + 1) me c init (one_round i me init procs)
        (round_slot i c me init (get_or procs i blank) q) (omega arith) (omega arith)
        (rw (get_elem?-one_round i me init procs c, at)) (ground arith) (ground arith) j p' e
]
  where
    first :
        i ≡ c
        → (p : Proc) → get_elem? (one_round i me init procs) j ≡ some p
        → asleep (chan_of init) p ≡ false
    first here p at' =
        let same : get_or procs i blank ≡ q = get_or_of_some procs i blank (rw here at) in
        ground
          (arith, same, Option-cases (get_elem? procs j), get_elem?-one_round i me init procs j)
