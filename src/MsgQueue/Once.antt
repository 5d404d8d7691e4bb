-- ===== src/MsgQueue/Once.antt =====
-- What the calls on the `MsgQueue` objects of a process do to who owns which queue.
use fleetcore.Prelude.{
  ℕ, ◌≡◌, ◌≢◌, ◌⊎◌, inl, inr, refl, sym, ap, ◌∙◌, true, false, Option, none, some, arith, ◌==◌,
  Bool-cases, ==_iff,
}
use fleetcore.MsgQueue.{MsgQueue, closed, removes}
use fleetcore.MsgQueue.Owners.{Holder, at, Once}

pub at-cases {ℓ} :
    {A : Type ℓ} (f : ℕ → A) (i : ℕ) (a : A) (n : ℕ)
    → ((n ≡ i) × (at f i a n ≡ a)) ⊎ ((n ≢ i) × (at f i a n ≡ f n))
at-cases f i a n = elim (Bool-cases (n == i)) [
  | inl same ↦ inl ((==_iff n i).0 same, rw same)
  | inr other ↦ inr ((λ is. ground (arith, other, is)), rw other)
]

pub some_ne_none : {id : ℕ} {A : Type 0} (o : Option ℕ) → o ≡ some id → o ≡ none → A
some_ne_none o e n = absurd (cc)

-- An object that owns no queue takes a value that owns none.
pub Once-idle :
    (h : Holder) (i : ℕ) (q : MsgQueue)
    → removes (h.object i) ≡ none
    → removes q ≡ none
    → Once h
    → Once (record h { object = at h.object i q })
Once-idle h i q idle empty v = record {
  one = λ a b id x y. v.one a b id (before a id x) (before b id y);
  owned = λ a id x. v.owned a id (before a id x);
  at_most = v.at_most;
  unmade = v.unmade;
  kept = λ id m. elim (v.kept id m) [
    | inl gone ↦ inl gone
    | inr (a, x) ↦ elim (at-cases h.object i q a) [
      | inl (same, is) ↦
          some_ne_none (removes (h.object a)) x (ap (λ (n : ℕ). removes (h.object n)) same ∙ idle)
      | inr (other, is) ↦ inr (a, ap removes is ∙ x)
    ]
  ];
}
  where
    before : (a id : ℕ) → removes (at h.object i q a) ≡ some id → removes (h.object a) ≡ some id
    before a id x = elim (at-cases h.object i q a) [
      | inl (same, is) ↦ some_ne_none (removes (at h.object i q a)) x (ap removes is ∙ empty)
      | inr (other, is) ↦ sym (ap removes is) ∙ x
    ]

pub some_injective : {a b : ℕ} (o : Option ℕ) → o ≡ some a → o ≡ some b → a ≡ b
some_injective o x y = ground arith

-- An object that owns no queue makes a new one.
pub Once-made :
    (h : Holder) (i id : ℕ) (q : MsgQueue)
    → removes (h.object i) ≡ none
    → removes q ≡ some id
    → h.made id ≡ false
    → Once h
    → Once (record h { object = at h.object i q; made = at h.made id true })
Once-made h i id q idle owns new v = record {
  one = λ a b x p r. elim (owner a x p) [
    | inl (ai, xid) ↦ elim (owner b x r) [
      | inl (bi, _) ↦ ai ∙ sym bi
      | inr (_, old) ↦ absurd (cc ((v.owned b x old).0, xid, new))
    ]
    | inr (_, old) ↦ elim (owner b x r) [
      | inl (_, xid) ↦ absurd (cc ((v.owned a x old).0, xid, new))
      | inr (_, old') ↦ v.one a b x old old'
    ]
  ];
  owned = λ a x p. elim (owner a x p) [
    | inl (_, xid) ↦ (now_made x (inl xid), v.unmade x (ap h.made xid ∙ new))
    | inr (_, old) ↦ (now_made x (inr (v.owned a x old).0), (v.owned a x old).1)
  ];
  at_most = v.at_most;
  unmade = λ x m. elim (at-cases h.made id true x) [
    | inl (_, is) ↦ absurd (cc)
    | inr (_, is) ↦ v.unmade x (sym is ∙ m)
  ];
  kept = λ x m. elim (at-cases h.made id true x) [
    | inl (same, _) ↦ inr (i, at_i ∙ owns ∙ ap some (sym same))
    | inr (_, is) ↦ elim (v.kept x (sym is ∙ m)) [
      | inl gone ↦ inl gone
      | inr (a, p) ↦ elim (at-cases h.object i q a) [
        | inl (same, _) ↦
            some_ne_none (removes (h.object a)) p (ap (λ (n : ℕ). removes (h.object n)) same ∙ idle)
        | inr (_, stays) ↦ inr (a, ap removes stays ∙ p)
      ]
    ]
  ];
}
  where
    owner :
        (a x : ℕ)
        → removes (at h.object i q a) ≡ some x
        → ((a ≡ i) × (x ≡ id)) ⊎ ((a ≢ i) × (removes (h.object a) ≡ some x))
    owner a x p = elim (at-cases h.object i q a) [
      | inl (same, is) ↦ inl (same, some_injective (removes q) (sym (ap removes is) ∙ p) owns)
      | inr (other, is) ↦ inr (other, sym (ap removes is) ∙ p)
    ]

    now_made : (x : ℕ) → (x ≡ id) ⊎ (h.made x ≡ true) → at h.made id true x ≡ true
    now_made x (inl same) = ground arith
    now_made x (inr old) = ground arith

    at_i : removes (at h.object i q i) ≡ removes q
    at_i = elim (at-cases h.object i q i) [
      | inl (_, is) ↦ ap removes is
      | inr (other, _) ↦ absurd (other refl)
    ]

-- An object that owns no queue takes over what another one has, which is closed.
pub Once-moved :
    (h : Holder) (i j : ℕ) (q : MsgQueue)
    → i ≢ j
    → removes (h.object i) ≡ none
    → removes q ≡ removes (h.object j)
    → Once h
    → Once (record h { object = at (at h.object i q) j closed })
unfolding removes
Once-moved h i j q differ idle same v = record {
  one = λ a b x p r.
      let (c, pc, ac) = owner a x p in
      let (d, rd, bd) = owner b x r in back a b c d (v.one c d x pc rd) ac bd;
  owned = λ a x p. let (c, pc, ac) = owner a x p in v.owned c x pc;
  at_most = v.at_most;
  unmade = v.unmade;
  kept = λ x m. elim (v.kept x m) [ inl gone ↦ inl gone | inr (a, p) ↦ inr (heir a x p) ];
}
  where
    owner :
        (a x : ℕ)
        → removes (at (at h.object i q) j closed a) ≡ some x
        → (c : ℕ) × (removes (h.object c) ≡ some x)
          × (((a ≡ i) × (c ≡ j)) ⊎ ((a ≢ j) × (a ≢ i) × (c ≡ a)))
    owner a x p = elim (at-cases (at h.object i q) j closed a) [
      | inl (_, is) ↦ some_ne_none (removes (at (at h.object i q) j closed a)) p (ap removes is)
      | inr (not_j, is) ↦ elim (at-cases h.object i q a) [
        | inl (ai, took) ↦ (j, sym (ap removes is ∙ ap removes took ∙ same) ∙ p, inl (ai, refl))
        | inr (not_i, stays) ↦
            (a, sym (ap removes is ∙ ap removes stays) ∙ p, inr (not_j, not_i, refl))
      ]
    ]

    back :
        (a b c d : ℕ)
        → c ≡ d
        → ((a ≡ i) × (c ≡ j)) ⊎ ((a ≢ j) × (a ≢ i) × (c ≡ a))
        → ((b ≡ i) × (d ≡ j)) ⊎ ((b ≢ j) × (b ≢ i) × (d ≡ b))
        → a ≡ b
    back a b c d e (inl (ai, cj)) (inl (bi, dj)) = ai ∙ sym bi
    back a b c d e (inl (ai, cj)) (inr (not_j, not_i, db)) = absurd (not_j (sym db ∙ sym e ∙ cj))
    back a b c d e (inr (not_j, not_i, ca)) (inl (bi, dj)) = absurd (not_j (sym ca ∙ e ∙ dj))
    back a b c d e (inr (_, _, ca)) (inr (_, _, db)) = sym ca ∙ e ∙ db

    heir :
        (a x : ℕ)
        → removes (h.object a) ≡ some x
        → (b : ℕ) × (removes (at (at h.object i q) j closed b) ≡ some x)
    heir a x p = elim (at-cases (at h.object i q) j closed a) [
      | inl (aj, _) ↦ elim (at-cases (at h.object i q) j closed i) [
        | inl (ij, _) ↦ absurd (differ ij)
        | inr (_, is) ↦ elim (at-cases h.object i q i) [
          | inl (_, took) ↦ (
            i,
            ap removes is
                ∙ ap removes took
                ∙ same
                ∙ ap (λ (n : ℕ). removes (h.object n)) (sym aj)
                ∙ p,
          )
          | inr (other, _) ↦ absurd (other refl)
        ]
      ]
      | inr (_, is) ↦ elim (at-cases h.object i q a) [
        | inl (ai, _) ↦
            some_ne_none (removes (h.object a)) p (ap (λ (n : ℕ). removes (h.object n)) ai ∙ idle)
        | inr (_, stays) ↦ (a, ap removes is ∙ ap removes stays ∙ p)
      ]
    ]
