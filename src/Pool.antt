-- ===== src/Pool.antt =====
-- The connection pool of crates/pgvs3/src/pg.rs. Opening a connection, the TLS set-up and the
-- statements on a connection are not modelled; `closed` says which connections are found closed.
pub mod Limits
pub mod Order
use lakewing.Prelude.{
  ℕ, suc, zero, ◌+◌, ◌-◌, min, Option, none, some, Bool, ◌&&◌, List, [], ◌∷◌, ◌++◌, length, ltb,
  ◌==◌, if◌then◌else◌,
}

-- Times are in seconds.
abbrev pub idle_max : ℕ
idle_max = 600

-- `Options`, less what only the server sees.
pub record Options : Type 0 where
  pub min_open : ℕ
  pub max_open : ℕ

-- `unwrap_or(64)` in `pool_min` and `pool_max`
abbrev pub or_64 : Option ℕ → ℕ
or_64 none = 64
or_64 (some n) = n

-- `pool_min().min(pool_max())` and `pool_max()`, in `connect` of db.rs, from the values that the
-- environment has
unfoldable pub pool_options : Option ℕ → Option ℕ → Options
pool_options low high = record { min_open = min (or_64 low) (or_64 high); max_open = or_64 high }

pub record Conn : Type 0 where
  pub client : ℕ
  pub idle_since : ℕ

-- `Inner`, and the tasks that hold a slot: `acquired` look for a connection, `opening` open one,
-- `lent` have one, and `returned` have given theirs back and still hold the slot. The most recently
-- used idle connection is the last.
pub record Pool : Type 0 where
  pub idle : List Conn
  pub slots : ℕ
  pub acquired : ℕ
  pub opening : ℕ
  pub lent : List Conn
  pub returned : ℕ

-- `Pool::connect`, once `warm` are open
unfoldable pub connect : Options → List Conn → Pool
connect opts warm = record {
  idle = warm;
  slots = opts.max_open;
  acquired = 0;
  opening = 0;
  lent = [];
  returned = 0;
}

-- `idle.pop()`
unfoldable pub pop : List Conn → Option (Conn × List Conn)
pop [] = none
pop (c ∷ cs) = elim (pop cs) [ none ↦ some (c, []) | some (top, rest) ↦ some (top, c ∷ rest) ]

-- `acquire_owned`
unfoldable pub acquire : Pool → Pool
acquire p = if p.slots == 0 then p else record p { slots = p.slots - 1; acquired = p.acquired + 1 }

-- One round of the loop of `get`.
unfoldable pub look_up : (ℕ → Bool) → Pool → Pool
look_up closed p = if p.acquired == 0 then p else elim (pop p.idle) [
  | none ↦ record p { acquired = p.acquired - 1; opening = p.opening + 1 }
  | some (c, rest) ↦
      if closed c.client
      then record p { idle = rest }
      else record p { idle = rest; acquired = p.acquired - 1; lent = c ∷ p.lent }
]

-- `open` returns.
unfoldable pub opened : Option Conn → Pool → Pool
opened none p =
    if p.opening == 0 then p else record p { opening = p.opening - 1; slots = p.slots + 1 }
opened (some c) p =
    if p.opening == 0 then p else record p { opening = p.opening - 1; lent = c ∷ p.lent }

-- The lent connection that is dropped.
unfoldable pub take_lent : ℕ → List Conn → Option (Conn × List Conn)
take_lent n [] = none
take_lent zero (c ∷ cs) = some (c, cs)
take_lent (suc n) (c ∷ cs) = elim (take_lent n cs) [
  | none ↦ none
  | some (d, rest) ↦ some (d, c ∷ rest)
]

-- `idle.len() > min && idle[0].idle_since.elapsed() > IDLE_MAX`, and `idle.remove(0)`
unfoldable pub evict : Options → ℕ → List Conn → List Conn
evict opts now [] = []
evict opts now (c ∷ cs) =
    if ltb opts.min_open (length (c ∷ cs)) && ltb idle_max (now - c.idle_since) then cs else c ∷ cs

-- `idle.push(conn)` and the eviction
unfoldable pub push_idle : Options → ℕ → Conn → List Conn → List Conn
push_idle opts now c idle = evict opts now (idle ++ (record c { idle_since = now } ∷ []))

-- `Drop` of `Pooled`, of the n-th lent connection
unfoldable pub give_back : Options → (ℕ → Bool) → ℕ → ℕ → Pool → Pool
give_back opts closed now n p = elim (take_lent n p.lent) [
  | none ↦ p
  | some (c, rest) ↦
      if closed c.client
      then record p { lent = rest; returned = p.returned + 1 }
      else record p { idle = push_idle opts now c p.idle; lent = rest; returned = p.returned + 1 }
]

-- The slot is dropped after the connection.
unfoldable pub release : Pool → Pool
release p =
    if p.returned == 0 then p else record p { returned = p.returned - 1; slots = p.slots + 1 }

-- What the tasks of a process do to the pool, in the order in which they do it.
pub data PoolEvent : Type 0 where
  acquires : PoolEvent
  looks_up : (ℕ → Bool) → PoolEvent
  opens : Option Conn → PoolEvent
  gives_back : (ℕ → Bool) → ℕ → ℕ → PoolEvent
  releases : PoolEvent

unfoldable pub pool_step : Options → PoolEvent → Pool → Pool
pool_step opts acquires p = acquire p
pool_step opts (looks_up closed) p = look_up closed p
pool_step opts (opens c) p = opened c p
pool_step opts (gives_back closed now n) p = give_back opts closed now n p
pool_step opts releases p = release p

unfoldable pub pool_run : Options → List PoolEvent → Pool → Pool
pool_run opts [] p = p
pool_run opts (e ∷ es) p = pool_run opts es (pool_step opts e p)

-- `n` rounds of the loop of `get`, with no other task in between
unfoldable pub look_ups : ℕ → (ℕ → Bool) → Pool → Pool
look_ups zero closed p = p
look_ups (suc n) closed p = look_ups n closed (look_up closed p)
