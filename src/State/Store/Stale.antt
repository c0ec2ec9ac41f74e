-- ===== src/State/Store/Stale.antt =====
-- `Reconcile` of internal/state/reconcile.go and the entries whose process is gone.
use muro.Base.{
  ℕ, Bool, true, false, ◌&&◌, not, List, [], ◌∷◌, some, Bytes, bytes_eq, bytes_eq_iff, Has, refl,
  sym, ap, ◌∙◌, ◌≡◌, arith, inl, inr, Bool-cases, ◌⊎◌,
}
use muro.State.Store.{
  stopped, Sandbox, key, Registry, find, assign, Store, values, put, select, is_running, list,
  is_alive, reconcile_one, reconcile_all, reconcile,
}
use muro.State.Store.Laws.{find-assign, put_sandboxes, IsKeyed}

-- every entry stands under its own key, as a fact on what is found
abbrev pub Keyed : Registry → Type 0
Keyed m = (k : Bytes) (sb : Sandbox) → find k m ≡ some sb → k ≡ key sb.namespace sb.name

Keyed-of : (m : Registry) → IsKeyed m → Keyed m
unfolding IsKeyed find
Keyed-of [] h k sb e = absurd (ground arith)
Keyed-of ((j, x) ∷ m) (q, n, h) k sb e = elim (Bool-cases (bytes_eq j k)) [
  | inl t ↦
      let same : x ≡ sb = ground arith in
      sym ((bytes_eq_iff j k).0 t) ∙ q ∙ ap (λ y. key y.namespace y.name) same
  | inr f ↦ Keyed-of m h k sb (ground arith)
]

select-values :
    (m : Registry) (k : Bytes) (sb : Sandbox) → find k m ≡ some sb → Has sb (select [] (values m))
unfolding find select bytes_eq
select-values [] k sb e = absurd (ground arith)
select-values ((j, x) ∷ m) k sb e = elim (Bool-cases (bytes_eq j k)) [
  | inl t ↦ inl (ground arith)
  | inr f ↦ inr (select-values m k sb (ground arith))
]

module _ (signal : ℕ → Bool) where
  -- recorded as running with a process that is gone
  abbrev pub IsStale : Sandbox → Type 0
  IsStale sb = (is_running sb.state ≡ true) × (is_alive signal sb.pid ≡ false)

  -- the stale entries are among those that are left to visit
  abbrev pub StaleIn : List Sandbox → Registry → Type 0
  StaleIn todo m = (k : Bytes) (sb : Sandbox) → find k m ≡ some sb → IsStale sb → Has sb todo

  stop-done :
      (sb : Sandbox) (todo : List Sandbox) (m : Registry)
      → Keyed m
      → StaleIn (sb ∷ todo) m
      → Keyed (assign (key sb.namespace sb.name) (record sb { state = stopped }) m)
        × StaleIn todo (assign (key sb.namespace sb.name) (record sb { state = stopped }) m)
  stop-done sb todo m keyed stale =
      let k' = key sb.namespace sb.name in
      let sb' : Sandbox = record sb { state = stopped } in
      (
        λ k x e. elim (Bool-cases (bytes_eq k' k)) [
          | inl t ↦
              let same : sb' ≡ x = ground (arith, find-assign k k' sb' m) in
              sym ((bytes_eq_iff k' k).0 t) ∙ ap (λ y. key y.namespace y.name) same
          | inr f ↦ keyed k x (ground (arith, find-assign k k' sb' m))
        ],
        λ k x e st. elim (Bool-cases (bytes_eq k' k)) [
          | inl t ↦
              let same : sb' ≡ x = ground (arith, find-assign k k' sb' m) in
              absurd (ground (arith, ap (λ y. is_running y.state) same))
          | inr f ↦
              let found : find k m ≡ some x = ground (arith, find-assign k k' sb' m) in
              elim (stale k x found st) [
                | inl q ↦
                    let at : k ≡ k' = keyed k x found ∙ ap (λ y. key y.namespace y.name) q in
                    absurd (ground (arith, (bytes_eq_iff k' k).1 (sym at)))
                | inr h ↦ h
              ]
        ],
      )

  module _ (disk : Sandbox → Bool) where
    pass-done :
        (sb : Sandbox) (todo : List Sandbox) (m : Registry)
        → (is_running sb.state && not (is_alive signal sb.pid)) ≡ false
        → StaleIn (sb ∷ todo) m
        → StaleIn todo m
    pass-done sb todo m n stale k x e st = elim (stale k x e st) [
      | inl q ↦
          absurd (ground (arith, ap (λ y. is_running y.state) q, ap (λ y. is_alive signal y.pid) q))
      | inr h ↦ h
    ]

    reconcile_one_of :
        (sb : Sandbox) (s : Store)
        → ((is_running sb.state && not (is_alive signal sb.pid)) ≡ true)
            × (reconcile_one signal disk sb s ≡ put (disk sb) (record sb { state = stopped }) s)
          ⊎ ((is_running sb.state && not (is_alive signal sb.pid)) ≡ false)
            × (reconcile_one signal disk sb s ≡ (true, s))
    unfolding reconcile_one
    reconcile_one_of sb s = elim (Bool-cases (is_running sb.state)) [
      | inr r ↦ inr (ground arith, rw (r) refl)
      | inl r ↦ elim (Bool-cases (is_alive signal sb.pid)) [
        | inl a ↦ inr (ground arith, rw (r, a) refl)
        | inr a ↦ inl (ground arith, rw (r, a) refl)
      ]
    ]

    reconcile_one-done :
        (sb : Sandbox) (todo : List Sandbox) (s : Store)
        → Keyed s.sandboxes
        → StaleIn (sb ∷ todo) s.sandboxes
        → Keyed (reconcile_one signal disk sb s).1.sandboxes
          × StaleIn todo (reconcile_one signal disk sb s).1.sandboxes
    reconcile_one-done sb todo s keyed stale = elim (reconcile_one_of sb s) [
      | inl (_, e) ↦ rw (e, put_sandboxes) (stop-done sb todo s.sandboxes keyed stale)
      | inr (n, e) ↦ rw (e) (keyed, pass-done sb todo s.sandboxes n stale)
    ]

    put-true : (sb : Sandbox) (s : Store) → (put true sb s).0 ≡ true
    unfolding put
    put-true sb s = refl

    reconcile_one-true :
        (sb : Sandbox) (s : Store) → disk sb ≡ true → (reconcile_one signal disk sb s).0 ≡ true
    reconcile_one-true sb s d = elim (reconcile_one_of sb s) [
      | inl (_, e) ↦ rw (e, d) (put-true (record sb { state = stopped }) s)
      | inr (_, e) ↦ rw (e) refl
    ]

    reconcile_all-done :
        (todo : List Sandbox) (s : Store)
        → Keyed s.sandboxes
        → StaleIn todo s.sandboxes
        → ((sb : Sandbox) → disk sb ≡ true)
        → ((reconcile_all signal disk todo s).0 ≡ true)
          × StaleIn [] (reconcile_all signal disk todo s).1.sandboxes
    unfolding reconcile_all
    reconcile_all-done [] s keyed stale works = (refl, stale)
    reconcile_all-done (sb ∷ todo) s keyed stale works =
        let (keyed', stale') = reconcile_one-done sb todo s keyed stale in
        rw (reconcile_one-true sb s (works sb), reconcile_all)
          (reconcile_all-done todo (reconcile_one signal disk sb s).1 keyed' stale' works)

    -- With a disk that takes every write, a sort that loses no entry, and every entry under its
    -- own key, `Reconcile` succeeds and leaves no sandbox that is recorded as running and whose
    -- process is gone.
    pub reconcile_lem :
        (sort : List Sandbox → List Sandbox) (s : Store)
        → ((sb : Sandbox) (sbs : List Sandbox) → Has sb sbs → Has sb (sort sbs))
        → ((sb : Sandbox) → disk sb ≡ true)
        → IsKeyed s.sandboxes
        → ((reconcile signal disk sort s).0 ≡ true)
          × ((k : Bytes) (sb : Sandbox)
              → find k (reconcile signal disk sort s).1.sandboxes ≡ some sb
              → is_running sb.state ≡ true
              → is_alive signal sb.pid ≡ true)
    unfolding reconcile list
    reconcile_lem sort s sorts works h =
        let (done, none_left) =
          reconcile_all-done (sort (select [] (values s.sandboxes))) s (Keyed-of s.sandboxes h)
            (λ k sb e st.
              sorts sb (select [] (values s.sandboxes)) (select-values s.sandboxes k sb e))
            works in
        (
          done,
          λ k sb e r. elim (Bool-cases (is_alive signal sb.pid)) [
            | inl a ↦ a
            | inr a ↦ absurd (none_left k sb e (r, a))
          ],
        )
