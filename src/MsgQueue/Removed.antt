-- ===== src/MsgQueue/Removed.antt =====
-- A queue that a process makes is removed once.
use mathlib.Core.Path.{fun_ext}
use fleetcore.Prelude.{
  ℕ, ◌+◌, ◌≡◌, ◌≢◌, ◌⊎◌, inl, inr, refl, sym, ap, ◌∙◌, subst, Bool, true, false, none, some, arith,
  ◌==◌, Bool-cases, Option-cases, ==_iff,
}
use fleetcore.MsgQueue.{MsgQueue, closed, open_queue, removes, move, move_assign}
use fleetcore.MsgQueue.Owners.{
  Holder, Act, opens, moves, assigns, destroys, act, at, remove_queue, Proper, Acts, nothing_done,
  then_done, Once,
}
use fleetcore.MsgQueue.Once.{
  at-cases, some_ne_none, some_injective, Once-idle, Once-made, Once-moved,
}

-- An object gives up what it owns, which is removed.
Once-removed :
    (h : Holder) (i id : ℕ) (q : MsgQueue)
    → removes (h.object i) ≡ some id
    → removes q ≡ none
    → Once h
    → Once (record h { object = at h.object i q; removals = at h.removals id (h.removals id + 1) })
Once-removed h i id q owns empty v = record {
  one = λ a b x p r. v.one a b x (owner a x p).1 (owner b x r).1;
  owned = λ a x p.
      let (differ, old) = owner a x p in
      elim (at-cases h.removals id (h.removals id + 1) x) [
        | inl (same, _) ↦ absurd (differ (v.one a i id (old ∙ ap some same) owns))
        | inr (_, is) ↦ ((v.owned a x old).0, is ∙ (v.owned a x old).1)
      ];
  at_most = λ x. elim (at-cases h.removals id (h.removals id + 1) x) [
    | inl (_, is) ↦ omega (arith, is, (v.owned i id owns).1)
    | inr (_, is) ↦ omega (arith, is, v.at_most x)
  ];
  unmade = λ x m. elim (at-cases h.removals id (h.removals id + 1) x) [
    | inl (same, _) ↦ absurd (cc ((v.owned i id owns).0, same, m))
    | inr (_, is) ↦ is ∙ v.unmade x m
  ];
  kept = λ x m. elim (at-cases h.removals id (h.removals id + 1) x) [
    | inl (_, is) ↦ inl (omega (arith, is, (v.owned i id owns).1))
    | inr (other, is) ↦ elim (v.kept x m) [
      | inl gone ↦ inl (is ∙ gone)
      | inr (a, p) ↦ elim (at-cases h.object i q a) [
        | inl (same, _) ↦ absurd (
            other (
              some_injective (removes (h.object i))
                (ap (λ (n : ℕ). removes (h.object n)) (sym same) ∙ p) owns))
        | inr (_, stays) ↦ inr (a, ap removes stays ∙ p)
      ]
    ]
  ];
}
  where
    owner :
        (a x : ℕ) → removes (at h.object i q a) ≡ some x → (a ≢ i) × (removes (h.object a) ≡ some x)
    owner a x p = elim (at-cases h.object i q a) [
      | inl (same, is) ↦ some_ne_none (removes (at h.object i q a)) p (ap removes is ∙ empty)
      | inr (other, is) ↦ (other, sym (ap removes is) ∙ p)
    ]

-- The destructor, or the first half of an assignment.
Once-given_up :
    (h : Holder) (i : ℕ) (q : MsgQueue)
    → removes q ≡ none
    → Once h
    → Once (record h {
      object = at h.object i q;
      removals = remove_queue (removes (h.object i)) h.removals;
    })
Once-given_up h i q empty v = elim (Option-cases (removes (h.object i))) [
  | inl idle ↦ rw idle (Once-idle h i q idle empty v)
  | inr (id, owns) ↦ rw owns (Once-removed h i id q owns empty v)
]

closed_owns_nothing : removes closed ≡ none
unfolding removes
closed_owns_nothing = refl

attached_owns_nothing : (id : ℕ) → removes (record { id = some id; owner = false }) ≡ none
unfolding removes
attached_owns_nothing id = refl

unopened_owns_nothing : (b : Bool) → removes (record { id = none; owner = b }) ≡ none
unfolding removes
unopened_owns_nothing true = refl
unopened_owns_nothing false = refl

made_owns : (id : ℕ) → removes (record { id = some id; owner = true }) ≡ some id
unfolding removes
made_owns id = refl

at_i : (h : Holder) (i : ℕ) (q : MsgQueue) → at h.object i q i ≡ q
at_i h i q = elim (at-cases h.object i q i) [
  | inl (_, is) ↦ is
  | inr (other, _) ↦ absurd (other refl)
]

at_other : (h : Holder) (i j : ℕ) (q : MsgQueue) → i ≢ j → at h.object i q j ≡ h.object j
at_other h i j q differ = elim (at-cases h.object i q j) [
  | inl (same, _) ↦ absurd (differ (sym same))
  | inr (_, is) ↦ is
]

-- An assignment removes what the object had, and then moves the other in.
twice :
    (f : ℕ → MsgQueue) (i j : ℕ) (a b c : MsgQueue) (n : ℕ)
    → at (at (at f i a) i b) j c n ≡ at (at f i b) j c n
twice f i j a b c n = ground arith

act-Once : (a : Act) (h : Holder) → Proper a h → Once h → Once (act a h)
unfolding act open_queue move move_assign
act-Once (opens i none create) h idle v =
    Once-idle h i _ idle (unopened_owns_nothing (h.object i).owner) v
act-Once (opens i (some id) false) h idle v = Once-idle h i _ idle (attached_owns_nothing id) v
act-Once (opens i (some id) true) h (idle, new) v = Once-made h i id _ idle (made_owns id) new v
act-Once (moves i j) h (differ, idle) v = Once-moved h i j _ differ idle refl v
act-Once (destroys i) h p v = Once-given_up h i closed closed_owns_nothing v
act-Once (assigns i j) h p v = elim (Bool-cases (i == j)) [
  | inl same ↦ rw same v
  | inr other ↦
      let differ : i ≢ j = λ is. ground (arith, other, is) in
      let g = record h {
        object = at h.object i closed;
        removals = remove_queue (removes (h.object i)) h.removals;
      } in
      let q : MsgQueue = record { id = (h.object j).id; owner = (h.object j).owner } in
      let moved =
        Once-moved g i j q differ (ap removes (at_i h i closed) ∙ closed_owns_nothing)
          (sym (ap removes (at_other h i j closed differ)))
          (Once-given_up h i closed closed_owns_nothing v) in
      rw other (
        subst (λ (f : ℕ → MsgQueue). Once (record g { object = f }))
          (fun_ext (twice h.object i j closed q closed)) moved)
]

-- Nothing is made yet, and no object has a queue.
abbrev pub nobody : Holder
nobody = record { object = λ n. closed; made = λ id. false; removals = λ id. 0 }

nobody-Once : Once nobody
nobody-Once = record {
  one = λ i j id p r. some_ne_none (removes closed) p closed_owns_nothing;
  owned = λ i id p. some_ne_none (removes closed) p closed_owns_nothing;
  at_most = λ id. omega arith;
  unmade = λ id m. refl;
  kept = λ id m. absurd (cc);
}

Acts-Once : {h : Holder} → Acts nobody h → Once h
Acts-Once nothing_done = nobody-Once
Acts-Once (then_done {g} a before p) = act-Once a g p (Acts-Once before)

-- Through any calls of `open`, move constructors, move assignments and destructors, of whatever
-- objects and with whatever answers of msgget, in which an object is opened only while it owns no
-- queue and what is made is a new queue: a queue is one that the process has not made, which no object
-- owns and which has not been removed; or one that it has made and has removed once, which no
-- object owns any more; or one that it has made and not removed, which one object owns and no other.
pub removed_once :
    {h : Holder} (id : ℕ)
    → Acts nobody h
    → ((h.made id ≡ false) × (h.removals id ≡ 0) × ((j : ℕ) → removes (h.object j) ≢ some id))
      ⊎ ((h.made id ≡ true) × (h.removals id ≡ 1) × ((j : ℕ) → removes (h.object j) ≢ some id))
      ⊎ ((h.made id ≡ true)
          × (h.removals id ≡ 0)
          × ((i : ℕ) × (removes (h.object i) ≡ some id)
              × ((j : ℕ) → (j ≡ i) ⊎ (removes (h.object j) ≢ some id))))
removed_once {h} id acts =
    let v = Acts-Once acts in
    elim (Bool-cases (h.made id)) [
      | inl m ↦ elim (v.kept id m) [
        | inl gone ↦ inr (inl (m, gone, λ j p. omega (arith, gone, (v.owned j id p).1)))
        | inr (i, p) ↦ inr (
            inr (
              m,
              (v.owned i id p).1,
              (
                i,
                p,
                λ j. elim (Bool-cases (j == i)) [
                  | inl same ↦ inl ((==_iff j i).0 same)
                  | inr other ↦ inr (λ r. ground (arith, other, v.one j i id r p))
                ],
              ),
            ))
      ]
      | inr m ↦ inl (m, v.unmade id m, λ j p. cc ((v.owned j id p).0, m))
    ]
