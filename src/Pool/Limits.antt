-- ===== src/Pool/Limits.antt =====
-- How many connections the pool of crates/pgvs3/src/pg.rs has open.
use lakewing.Prelude.{
  ℕ, suc, zero, ◌+◌, ◌-◌, ◌≤◌, ◌≡◌, min, refl, ap, Option, none, some, Bool, List, [], ◌∷◌, ◌++◌,
  arith, length, length-append, ltb, ◌==◌, ◌&&◌, Bool-cases, Option-cases, inl, inr, subst,
}
use lakewing.Pool.{
  Options, pool_options, Conn, Pool, connect, pop, acquire, look_up, opened, take_lent, evict,
  push_idle, give_back, release, idle_max, PoolEvent, acquires, looks_up, opens, gives_back,
  releases, pool_step, pool_run,
}

-- Every slot is free or held by one task, and the connections that are open or about to be are no
-- more than the slots.
pub record IsWithin (opts : Options) (p : Pool) : Type 0 where
  pub slots_held : p.slots + p.acquired + p.opening + length p.lent + p.returned ≡ opts.max_open
  pub connections : length p.idle + p.opening + length p.lent ≤ opts.max_open

-- One connection was taken out, unless there was none.
abbrev pub IsTaken : List Conn → Option (Conn × List Conn) → Type 0
IsTaken cs none = length cs ≡ length cs
IsTaken cs (some (c, rest)) = length cs ≡ suc (length rest)

pop-none : (cs : List Conn) → pop cs ≡ none → length cs ≡ 0
unfolding pop
pop-none [] h = refl
pop-none (x ∷ xs) h = absurd (some_more (pop xs) h)
  where
    some_more :
        (t : Option (Conn × List Conn))
        → ◌≡◌ {A = Option (Conn × List Conn)}
            (elim t [ none ↦ some (x, []) | some (top, rest) ↦ some (top, x ∷ rest) ])
            none
        → ⊥
    some_more none h = cc
    some_more (some (top, rest)) h = cc

pub pop-IsTaken : (cs : List Conn) → IsTaken cs (pop cs)
unfolding pop
pop-IsTaken [] = refl
pop-IsTaken (x ∷ xs) = more (pop xs) (pop-IsTaken xs) (pop-none xs)
  where
    more :
        (t : Option (Conn × List Conn))
        → IsTaken xs t
        → (t ≡ none → length xs ≡ 0)
        → IsTaken
            (x ∷ xs)
            (elim t [ none ↦ some (x, []) | some (top, rest) ↦ some (top, x ∷ rest) ])
    more none taken empty = ap suc (empty refl)
    more (some (top, rest)) taken empty = ap suc taken

take_lent-IsTaken : (n : ℕ) (cs : List Conn) → IsTaken cs (take_lent n cs)
unfolding take_lent
take_lent-IsTaken n [] = refl
take_lent-IsTaken zero (x ∷ xs) = refl
take_lent-IsTaken (suc n) (x ∷ xs) = more (take_lent n xs) (take_lent-IsTaken n xs)
  where
    more :
        (t : Option (Conn × List Conn))
        → IsTaken xs t
        → IsTaken (x ∷ xs) (elim t [ none ↦ none | some (d, rest) ↦ some (d, x ∷ rest) ])
    more none taken = refl
    more (some (d, rest)) taken = ap suc taken

-- The pool never shrinks below its minimum by an eviction, and never grows by one.
pub evict-length :
    (opts : Options) (now : ℕ) (cs : List Conn)
    → (min opts.min_open (length cs) ≤ length (evict opts now cs))
      × (length (evict opts now cs) ≤ length cs)
unfolding evict
evict-length opts now [] = (omega arith, omega arith)
evict-length opts now (c ∷ cs) =
    elim (Bool-cases (ltb opts.min_open (length (c ∷ cs)) && ltb idle_max (now - c.idle_since))) [
      | inl stale ↦ rw (stale, evict) (ground (arith, stale), omega arith)
      | inr kept ↦ rw (kept, evict) (omega arith, omega arith)
    ]

length-push_idle :
    (opts : Options) (now : ℕ) (c : Conn) (idle : List Conn)
    → length (push_idle opts now c idle) ≤ suc (length idle)
unfolding push_idle
length-push_idle opts now c idle =
    let pushed : List Conn = idle ++ (record c { idle_since = now } ∷ []) in
    omega (
      arith,
      (evict-length opts now pushed).1,
      length-append idle (record c { idle_since = now } ∷ []),
    )

acquire-IsWithin : (opts : Options) (p : Pool) → IsWithin opts p → IsWithin opts (acquire p)
unfolding acquire
acquire-IsWithin opts p w = elim (Bool-cases (p.slots == 0)) [
  | inl busy ↦ rw (busy, acquire) w
  | inr free ↦
      rw (free, acquire)
        (record { slots_held = ground (arith, w.slots_held, free); connections = w.connections })
]

release-IsWithin : (opts : Options) (p : Pool) → IsWithin opts p → IsWithin opts (release p)
unfolding release
release-IsWithin opts p w = elim (Bool-cases (p.returned == 0)) [
  | inl nothing ↦ rw (nothing, release) w
  | inr some_returned ↦
      rw (some_returned, release)
        (record {
          slots_held = ground (arith, w.slots_held, some_returned);
          connections = w.connections;
        })
]

opened-IsWithin :
    (opts : Options) (c : Option Conn) (p : Pool) → IsWithin opts p → IsWithin opts (opened c p)
unfolding opened
opened-IsWithin opts none p w = elim (Bool-cases (p.opening == 0)) [
  | inl nothing ↦ rw (nothing, opened) w
  | inr one ↦
      rw (one, opened)
        (record {
          slots_held = ground (arith, w.slots_held, one);
          connections = omega (arith, w.connections);
        })
]
opened-IsWithin opts (some c) p w = elim (Bool-cases (p.opening == 0)) [
  | inl nothing ↦ rw (nothing, opened) w
  | inr one ↦
      rw (one, opened)
        (record {
          slots_held = ground (arith, w.slots_held, one);
          connections = ground (arith, w.connections, one);
        })
]

look_up-IsWithin :
    (opts : Options) (closed : ℕ → Bool) (p : Pool)
    → IsWithin opts p
    → IsWithin opts (look_up closed p)
unfolding look_up
look_up-IsWithin opts closed p w = elim (Bool-cases (p.acquired == 0)) [
  | inl no_one ↦ rw (no_one, look_up) w
  | inr one ↦ elim (Option-cases (pop p.idle)) [
    | inl e ↦
        rw (one, look_up)
          (rw e (record {
            slots_held = ground (arith, w.slots_held, one);
            connections = ground (arith, w.slots_held, pop-none p.idle e, one);
          }))
    | inr ((c, rest), e) ↦
        (let fewer : length p.idle ≡ suc (length rest) =
            subst (IsTaken p.idle) e (pop-IsTaken p.idle) in
          elim (Bool-cases (closed c.client)) [
            | inl gone ↦
                rw (one, look_up)
                  (rw (e, gone)
                    (record {
                      slots_held = w.slots_held;
                      connections = omega (arith, w.connections, fewer);
                    }))
            | inr live ↦
                rw (one, look_up)
                  (rw (e, live)
                    (record {
                      slots_held = ground (arith, w.slots_held, one);
                      connections = omega (arith, w.connections, fewer);
                    }))
          ])
  ]
]

give_back-IsWithin :
    (opts : Options) (closed : ℕ → Bool) (now n : ℕ) (p : Pool)
    → IsWithin opts p
    → IsWithin opts (give_back opts closed now n p)
unfolding give_back
give_back-IsWithin opts closed now n p w = elim (Option-cases (take_lent n p.lent)) [
  | inl e ↦ rw (e, give_back) w
  | inr ((c, rest), e) ↦
      (let fewer : length p.lent ≡ suc (length rest) =
          subst (IsTaken p.lent) e (take_lent-IsTaken n p.lent) in
        elim (Bool-cases (closed c.client)) [
          | inl gone ↦
              rw (e, give_back)
                (rw gone (record {
                  slots_held = omega (arith, w.slots_held, fewer);
                  connections = omega (arith, w.connections, fewer);
                }))
          | inr live ↦
              rw (e, give_back)
                (rw live (record {
                  slots_held = omega (arith, w.slots_held, fewer);
                  connections =
                      omega (arith, w.connections, fewer, length-push_idle opts now c p.idle);
                }))
        ])
]

pool_step-IsWithin :
    (opts : Options) (e : PoolEvent) (p : Pool)
    → IsWithin opts p
    → IsWithin opts (pool_step opts e p)
unfolding pool_step
pool_step-IsWithin opts acquires p w = acquire-IsWithin opts p w
pool_step-IsWithin opts (looks_up closed) p w = look_up-IsWithin opts closed p w
pool_step-IsWithin opts (opens c) p w = opened-IsWithin opts c p w
pool_step-IsWithin opts (gives_back closed now n) p w = give_back-IsWithin opts closed now n p w
pool_step-IsWithin opts releases p w = release-IsWithin opts p w

pool_run-IsWithin :
    (opts : Options) (es : List PoolEvent) (p : Pool)
    → IsWithin opts p
    → IsWithin opts (pool_run opts es p)
unfolding pool_run
pool_run-IsWithin opts [] p w = w
pool_run-IsWithin opts (e ∷ es) p w =
    pool_run-IsWithin opts es (pool_step opts e p) (pool_step-IsWithin opts e p w)

-- Whatever the tasks do and in whatever order, the connections that are open or about to be are at
-- most the configured maximum, if the pool starts with the configured minimum.
pub pool_run-connections :
    (low high : Option ℕ) (warm : List Conn) (es : List PoolEvent)
    → length warm ≡ (pool_options low high).min_open
    → length (pool_run (pool_options low high) es (connect (pool_options low high) warm)).idle
        + (pool_run (pool_options low high) es (connect (pool_options low high) warm)).opening
        + length (pool_run (pool_options low high) es (connect (pool_options low high) warm)).lent
      ≤ (pool_options low high).max_open
unfolding pool_options connect
pool_run-connections low high warm es n =
    (pool_run-IsWithin (pool_options low high) es (connect (pool_options low high) warm)
      (record { slots_held = omega arith; connections = omega (arith, n) })).connections
