-- ===== src/Lcm/Table.antt =====
-- The manager of src/api/lcm.c as a list of sessions in the order in which they were added.
use pcmm_policy_server.Base.{
  ℕ, zero, suc, ◌+◌, ◌^◌, ◌≤◌, ◌<◌, ◌≡◌, refl, ap, Bool, true, false, Option, none, some, List, [],
  ◌∷◌, ◌++◌, map, arith, ne→==, ltb, if◌then◌else◌, length, length-append, drop, get_elem?-of_drop,
  replicate,
}
use pcmm_policy_server.Base.Text.{Str}
use pcmm_policy_server.Lcm.{
  maxroom, same_address, lcm_err, lcm_ok, Client, Lcm, lcm_init, Found, search, lcm_getps,
  lcm_alloc_ok, store, lcm_set,
}

-- The sessions that stand in the table, whatever the limit is.
pub record Stored (self : Lcm) (cs : List Client) : Type 0 where
  pub rest : List (Option Client)
  pub slots : self.clients ≡ map some cs ++ rest
  pub counted : self.count ≡ length cs
  pub room : length self.clients ≡ maxroom

-- The manager holds the sessions `cs`.
pub record Holds (self : Lcm) (cs : List Client) : Type 0 where
  pub rest : List (Option Client)
  pub slots : self.clients ≡ map some cs ++ rest
  pub counted : self.count ≡ length cs
  pub room : length self.clients ≡ maxroom
  pub bounded : self.count ≤ self.maxpep
  pub capped : self.maxpep ≤ maxroom

-- The first session at an address.
abbrev pub find : Option Str → List Client → Option Client
find ip [] = none
find ip (c ∷ cs) = if same_address c.cmts_addr ip then some c else find ip cs

-- A limit of 0 to 20 sessions makes an empty manager with this limit.
pub lcm_init-Holds :
    (n : ℕ)
    → n ≤ maxroom
    → (self : Lcm) × (lcm_init 0 n ≡ some self) × (self.maxpep ≡ n) × Holds self []
unfolding lcm_init
lcm_init-Holds n small = (
  record { count = 0; maxpep = n; clients = replicate maxroom none },
  ground arith,
  refl,
  record {
    rest = replicate maxroom none;
    slots = refl;
    counted = refl;
    room = refl;
    bounded = omega arith;
    capped = small;
  },
)

-- A positive limit above 20 makes no manager.
pub lcm_init-none : (n mutex_init : ℕ) → maxroom < n → n < 2 ^ 31 → lcm_init mutex_init n ≡ none
unfolding lcm_init
lcm_init-none n mutex_init big fits = ground arith

-- There is room for one more exactly while the number of sessions is below the limit.
pub lcm_alloc_ok_lem :
    (self : Lcm) (cs : List Client)
    → Holds self cs
    → lcm_alloc_ok 0 self ≡ (if ltb (length cs) self.maxpep then lcm_ok else lcm_err)
unfolding lcm_alloc_ok
lcm_alloc_ok_lem self cs h = let e = h.counted in ground arith

store-end :
    (cs : List Client) (c : Client) (slot : Option Client) (rest : List (Option Client))
    → store (length cs) (some c) (map some cs ++ (slot ∷ rest))
      ≡ some (map some (cs ++ (c ∷ [])) ++ rest)
unfolding store
store-end [] c slot rest = refl
store-end (d ∷ cs) c slot rest = rw (store-end cs c slot rest)

pub store-none : {A : Type 0} (i : ℕ) (a : A) (xs : List A) → length xs ≤ i → store i a xs ≡ none
unfolding store
store-none i a [] h = refl
store-none zero a (x ∷ xs) h = absurd (omega arith)
store-none (suc i) a (x ∷ xs) h = rw (store-none i a xs (omega arith)) refl

length-map-some : (cs : List Client) → length (map {B = Option Client} some cs) ≡ length cs
length-map-some [] = refl
length-map-some (c ∷ cs) = ap suc (length-map-some cs)

same_result :
    (self : Lcm) {n n' i i' : ℕ}
    → n ≡ n'
    → i ≡ i'
    → ◌≡◌ {A = Lcm × ℕ} (record self { count = n }, i) (record self { count = n' }, i')
same_result self e e' = cc

abbrev pub stored_of : {self : Lcm} {cs : List Client} → Holds self cs → Stored self cs
stored_of h = record { rest = h.rest; slots = h.slots; counted = h.counted; room = h.room }

module _ (self : Lcm) (cs : List Client) (c : Client) (h : Stored self cs) where
  pub total :
      (rest : List (Option Client))
      → self.clients ≡ map some cs ++ rest
      → length cs + length rest ≡ maxroom
  total rest e = omega (
    arith,
    ap length e,
    h.room,
    length-append (map {B = Option Client} some cs) rest,
    length-map-some cs,
  )

  added :
      (slot : Option Client) (rest : List (Option Client))
      → self.clients ≡ map some cs ++ (slot ∷ rest)
      → (self' : Lcm) × (lcm_set 0 self c ≡ some (self', length cs))
        × (self'.maxpep ≡ self.maxpep)
        × Stored self' (cs ++ (c ∷ []))
  unfolding lcm_set
  added slot rest e = (
    record self { count = length cs + 1; clients = map some (cs ++ (c ∷ [])) ++ rest },
    rw (h.counted, e, store-end cs c slot rest)
        (ap some (
          same_result (record self { clients = map some (cs ++ (c ∷ [])) ++ rest })
            (omega (arith, total (slot ∷ rest) e)) (omega (arith, total (slot ∷ rest) e)))),
    refl,
    record {
      rest = rest;
      slots = refl;
      counted = omega (arith, length-append cs (c ∷ []));
      room = omega (
        arith,
        total (slot ∷ rest) e,
        length-append (map {B = Option Client} some (cs ++ (c ∷ []))) rest,
        length-map-some (cs ++ (c ∷ [])),
        length-append cs (c ∷ []),
      );
    },
  )

  -- With the lock free and a slot in the table, whatever the limit is: a session is added behind the
  -- others, and the result is its index.
  pub lcm_set-Stored :
      length cs < maxroom
      → (self' : Lcm) × (lcm_set 0 self c ≡ some (self', length cs))
        × (self'.maxpep ≡ self.maxpep)
        × Stored self' (cs ++ (c ∷ []))
  lcm_set-Stored less = fits h.rest h.slots
    where
      fits :
          (rest : List (Option Client))
          → self.clients ≡ map some cs ++ rest
          → (self' : Lcm) × (lcm_set 0 self c ≡ some (self', length cs))
            × (self'.maxpep ≡ self.maxpep)
            × Stored self' (cs ++ (c ∷ []))
      fits [] e = absurd (omega (arith, total [] e))
      fits (slot ∷ rest) e = added slot rest e

  -- Without a slot in the table, the session is written past its end.
  pub lcm_set_full : length cs ≡ maxroom → lcm_set 0 self c ≡ none
  unfolding lcm_set
  lcm_set_full full =
      rw (store-none self.count (some c) self.clients (omega (arith, h.room, h.counted))) refl

-- With the lock free and room below the limit, a session is added behind the others, the manager
-- stays well-formed, and the result is the session's index.
pub lcm_set-Holds :
    (self : Lcm) (cs : List Client) (c : Client)
    → Holds self cs
    → length cs < self.maxpep
    → (self' : Lcm) × (lcm_set 0 self c ≡ some (self', length cs))
      × (self'.maxpep ≡ self.maxpep)
      × Holds self' (cs ++ (c ∷ []))
lcm_set-Holds self cs c h less =
    let (self', e, kept, stored) =
      lcm_set-Stored self cs c (stored_of h) (omega (arith, h.capped)) in
    (
      self',
      e,
      kept,
      record {
        rest = stored.rest;
        slots = stored.slots;
        counted = stored.counted;
        room = stored.room;
        bounded = omega (arith, stored.counted, length-append cs (c ∷ []), kept);
        capped = omega (arith, h.capped, kept);
      },
    )

abbrev unlocked : Option Client → Found
unlocked p = record { ps = p; held = false }

choose :
    (b : Bool) (p q : Option Client)
    → (if b then some (unlocked p) else some (unlocked q)) ≡ some (unlocked (if b then p else q))
choose true p q = refl
choose false p q = refl

module _ (evnt_lock : Client → ℕ) (free : (c : Client) → evnt_lock c ≡ 0) where
  search-find :
      (cs : List Client) (i : ℕ) (clients rest : List (Option Client)) (ip : Option Str)
      → drop i clients ≡ map some cs ++ rest
      → search evnt_lock (length cs) i clients ip ≡ some (record { ps = find ip cs; held = false })
  unfolding search
  search-find [] i clients rest ip e = refl
  search-find (c ∷ cs) i clients rest ip e =
      let (here, next) = get_elem?-of_drop clients i (some c) (map some cs ++ rest) e in
      rw (here, free c, search-find cs (i + 1) clients rest ip next)
        (choose (same_address c.cmts_addr ip) (some c) (find ip cs))

  -- When every event lock can be taken, the session found is the first one at the address, and
  -- `lcm_internal_lock` is released.
  pub lcm_getps-find :
      (self : Lcm) (cs : List Client) (ip : Option Str)
      → Holds self cs
      → lcm_getps evnt_lock 0 (some self) ip ≡ some (record { ps = find ip cs; held = false })
  unfolding lcm_getps
  lcm_getps-find self [] ip h = rw (h.counted) refl
  lcm_getps-find self (c ∷ cs) ip h =
      rw (h.counted, ne→== (length (c ∷ cs)) 0 (omega arith))
        (search-find (c ∷ cs) 0 self.clients h.rest ip h.slots)
