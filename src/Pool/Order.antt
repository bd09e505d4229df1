-- ===== src/Pool/Order.antt =====
-- How the pool of crates/pgvs3/src/pg.rs hands out its connections: the loop of `get`, and the
-- connection that was given back last.
use lakewing.Prelude.{
  ℕ, suc, zero, ◌+◌, ◌-◌, ◌≤◌, ◌<◌, ◌≡◌, ◌∙◌, min, refl, sym, ap, subst, some, Bool, true, false,
  List, [], ◌∷◌, ◌++◌, arith, length, length-append, ltb, ◌==◌, ◌&&◌, Bool-cases, Option-cases, inl,
  inr,
}
use lakewing.Pool.{
  Options, Conn, Pool, pop, look_up, look_ups, take_lent, evict, push_idle, give_back, idle_max,
}
use lakewing.Pool.Limits.{IsTaken, pop-IsTaken, evict-length}

pop-append : (cs : List Conn) (c : Conn) → pop (cs ++ (c ∷ [])) ≡ some (c, cs)
unfolding pop
pop-append [] c = refl
pop-append (x ∷ xs) c = rw (pop-append xs c, pop) refl

-- The connection that was pushed last is on top: it is not the one that the eviction closes.
pop-push_idle :
    (opts : Options) (now : ℕ) (c : Conn) (idle : List Conn)
    → (rest : List Conn) × (pop (push_idle opts now c idle)
        ≡ some (record c { idle_since = now }, rest))
unfolding push_idle evict
pop-push_idle opts now c [] =
    let e : (ltb opts.min_open 1 && ltb idle_max (now - now)) ≡ false = ground arith in
    ([], rw (e, evict) (pop-append [] (record c { idle_since = now })))
pop-push_idle opts now c (x ∷ xs) =
    let pushed : List Conn = x ∷ (xs ++ (record c { idle_since = now } ∷ [])) in
    elim (Bool-cases (ltb opts.min_open (length pushed) && ltb idle_max (now - x.idle_since))) [
      | inl stale ↦ (xs, rw (stale, evict) (pop-append xs (record c { idle_since = now })))
      | inr kept ↦ (x ∷ xs, rw (kept, evict) (pop-append (x ∷ xs) (record c { idle_since = now })))
    ]

abbrev given_back : Options → ℕ → Pool → Conn → List Conn → Pool
given_back opts now p c rest = record p {
  idle = push_idle opts now c p.idle;
  lent = rest;
  returned = p.returned + 1;
}

give_back-live :
    (opts : Options) (closed : ℕ → Bool) (now n : ℕ) (p : Pool) (c : Conn) (rest : List Conn)
    → take_lent n p.lent ≡ some (c, rest)
    → closed c.client ≡ false
    → give_back opts closed now n p ≡ given_back opts now p c rest
unfolding give_back
give_back-live opts closed now n p c rest e live = rw (e, give_back) (rw live refl)

top_lent :
    (opts : Options) (closed' : ℕ → Bool) (now : ℕ) (p : Pool) (c : Conn) (rest : List Conn)
    → closed' c.client ≡ false
    → (p.acquired == 0) ≡ false
    → (look_up closed' (given_back opts now p c rest)).lent ≡ record c { idle_since = now } ∷ rest
unfolding look_up
top_lent opts closed' now p c rest live' one =
    let (idle, top) = pop-push_idle opts now c p.idle in rw (one, look_up) (rw (top, live') refl)

-- The next task that looks for a connection gets the one that was given back last, if that was open
-- when it was given back and still is.
pub look_up-give_back :
    (opts : Options) (closed closed' : ℕ → Bool) (now n : ℕ) (p : Pool) (c : Conn)
    (rest : List Conn)
    → take_lent n p.lent ≡ some (c, rest)
    → closed c.client ≡ false
    → closed' c.client ≡ false
    → (p.acquired == 0) ≡ false
    → (look_up closed' (give_back opts closed now n p)).lent ≡ record c { idle_since = now } ∷ rest
look_up-give_back opts closed closed' now n p c rest e live live' one =
    ap (λ q. (look_up closed' q).lent) (give_back-live opts closed now n p c rest e live)
    ∙ top_lent opts closed' now p c rest live' one

-- Giving back an open connection keeps the minimum of idle connections.
pub give_back-min_open :
    (opts : Options) (closed : ℕ → Bool) (now n : ℕ) (p : Pool) (c : Conn) (rest : List Conn)
    → take_lent n p.lent ≡ some (c, rest)
    → closed c.client ≡ false
    → min opts.min_open (suc (length p.idle)) ≤ length (give_back opts closed now n p).idle
unfolding push_idle
give_back-min_open opts closed now n p c rest e live =
    rw (give_back-live opts closed now n p c rest e live) (
      omega (
        arith,
        (evict-length opts now (p.idle ++ (record c { idle_since = now } ∷ []))).0,
        length-append p.idle (record c { idle_since = now } ∷ []),
      ))

-- What a task that got its connection leaves: it waits no longer, and one connection more is lent
-- or about to be opened.
abbrev pub HasOneMore : Pool → Pool → Type 0
HasOneMore p q = (q.acquired ≡ 0) × (q.opening + length q.lent ≡ suc (p.opening + length p.lent))

look_ups-done : (n : ℕ) (closed : ℕ → Bool) (p : Pool) → p.acquired ≡ 0 → look_ups n closed p ≡ p
unfolding look_ups look_up
look_ups-done zero closed p done = refl
look_ups-done (suc n) closed p done =
    let e : (p.acquired == 0) ≡ true = ground (arith, done) in
    rw (e, look_up, look_ups) (look_ups-done n closed p done)

HasOneMore-look_ups :
    (n : ℕ) (closed : ℕ → Bool) (p q : Pool) → HasOneMore p q → HasOneMore p (look_ups n closed q)
HasOneMore-look_ups n closed p q h = subst (HasOneMore p) (sym (look_ups-done n closed q h.0)) h

look_ups-acquired :
    (n : ℕ) (closed : ℕ → Bool) (p : Pool)
    → p.acquired ≡ 1
    → length p.idle < n
    → HasOneMore p (look_ups n closed p)
unfolding look_ups look_up
look_ups-acquired zero closed p one enough = absurd (omega (arith, enough))
look_ups-acquired (suc n) closed p one enough =
    let e : (p.acquired == 0) ≡ false = ground (arith, one) in
    elim (Option-cases (pop p.idle)) [
      | inl none_idle ↦
          rw (e, look_up, look_ups)
            (rw none_idle (HasOneMore-look_ups n closed p _ (omega (arith, one), omega arith)))
      | inr ((c, rest), top) ↦
          (let fewer : length p.idle ≡ suc (length rest) =
              subst (IsTaken p.idle) top (pop-IsTaken p.idle) in
            elim (Bool-cases (closed c.client)) [
              | inl gone ↦
                  rw (e, look_up, look_ups)
                    (rw (top, gone)
                      (look_ups-acquired n closed _ one (omega (arith, fewer, enough))))
              | inr live ↦
                  rw (e, look_up, look_ups)
                    (rw (top, live)
                      (HasOneMore-look_ups n closed p _ (omega (arith, one), omega arith)))
            ])
    ]

-- The loop of `get` ends: a task that holds the only slot without a connection, with no other task's
-- step in between, has an idle connection lent or a new one to open, after at most one round more
-- than there are idle connections, however many of them are closed.
pub look_ups-end :
    (closed : ℕ → Bool) (p : Pool)
    → p.acquired ≡ 1
    → HasOneMore p (look_ups (suc (length p.idle)) closed p)
look_ups-end closed p one = look_ups-acquired (suc (length p.idle)) closed p one (omega arith)
