-- ===== src/Fanout/Pool.antt =====
-- backend/src/realtime/fanout.ts: the connections of one convoy, a `Set` of objects, and what a
-- published frame sends to them.
use crew_link.Base.{
  ℕ, ◌+◌, String, Bool, true, false, not, List, [], ◌∷◌, ◌++◌, In, ◌==◌, if◌then◌else◌, eqb, ◌≡◌,
  ◌≢◌, refl, arith, eq_iff, inl, inr, Bool-cases, ◌⊎◌,
}

-- A registered connection. The object's identity is the number `conn`, by which its `send` is
-- known too: what is sent to it is an event of the run.
pub record LocalSender : Type 0 where
  pub conn : ℕ
  pub member_id : String

-- A call of `send` of a connection.
pub record Delivery : Type 0 where
  pub to : ℕ
  pub text : String

-- `Set.has`, `Set.add`, `Set.delete`; the order is that of insertion.
unfoldable pub has_conn : LocalSender → List LocalSender → Bool
has_conn conn [] = false
has_conn conn (x ∷ pool) = if eqb x.conn conn.conn then true else has_conn conn pool

unfoldable pub add_conn : LocalSender → List LocalSender → List LocalSender
unfolding has_conn
add_conn conn pool = if has_conn conn pool then pool else pool ++ conn ∷ []

unfoldable pub remove_conn : LocalSender → List LocalSender → List LocalSender
remove_conn conn [] = []
remove_conn conn (x ∷ pool) =
    if eqb x.conn conn.conn then remove_conn conn pool else x ∷ remove_conn conn pool

-- The loop of `publish`: every connection but those of the frame's origin is sent the text.
unfoldable pub deliveries : List LocalSender → String → String → List Delivery
deliveries [] text origin = []
deliveries (x ∷ pool) text origin =
    if not (x.member_id == origin)
    then record { to = x.conn; text = text } ∷ deliveries pool text origin
    else deliveries pool text origin

-- No two connections of the pool are one object.
abbrev pub IsApart : List LocalSender → Type 0
IsApart [] = Unit {0}
IsApart (x ∷ pool) = (has_conn x pool ≡ false) × IsApart pool

-- How often a connection is sent something.
unfoldable pub count_to : ℕ → List Delivery → ℕ
count_to n [] = 0
count_to n (d ∷ ds) = (if eqb d.to n then 1 else 0) + count_to n ds

has_conn-append :
    (conn x : LocalSender) (pool : List LocalSender)
    → has_conn conn (pool ++ x ∷ []) ≡ (if eqb x.conn conn.conn then true else has_conn conn pool)
unfolding has_conn
has_conn-append conn x [] = refl
has_conn-append conn x (y ∷ pool) = ground (arith, has_conn-append conn x pool)

append-IsApart :
    (conn : LocalSender) (pool : List LocalSender)
    → has_conn conn pool ≡ false
    → IsApart pool
    → IsApart (pool ++ conn ∷ [])
unfolding has_conn
append-IsApart conn [] h s = (refl, tt)
append-IsApart conn (y ∷ pool) h s =
    ground (arith, append-IsApart conn pool, has_conn-append y conn pool)

pub add_conn-IsApart :
    (conn : LocalSender) (pool : List LocalSender) → IsApart pool → IsApart (add_conn conn pool)
unfolding add_conn
add_conn-IsApart conn pool s = ground (arith, append-IsApart conn pool)

has_conn-remove_conn :
    (x conn : LocalSender) (pool : List LocalSender)
    → has_conn x (remove_conn conn pool) ≡ (if eqb x.conn conn.conn then false else has_conn x pool)
unfolding has_conn remove_conn
has_conn-remove_conn x conn [] = ground arith
has_conn-remove_conn x conn (y ∷ pool) = ground (arith, has_conn-remove_conn x conn pool)

pub remove_conn-IsApart :
    (conn : LocalSender) (pool : List LocalSender) → IsApart pool → IsApart (remove_conn conn pool)
unfolding remove_conn
remove_conn-IsApart conn [] s = tt
remove_conn-IsApart conn (y ∷ pool) s =
    ground (arith, remove_conn-IsApart conn pool, has_conn-remove_conn y conn pool)

-- A new connection that is removed again leaves the pool as it was.
pub remove_conn-add_conn :
    (conn : LocalSender) (pool : List LocalSender)
    → has_conn conn pool ≡ false
    → remove_conn conn (add_conn conn pool) ≡ pool
unfolding add_conn remove_conn has_conn
remove_conn-add_conn conn pool h = rw h (remove_conn-append pool h)
  where
    remove_conn-append :
        (pool : List LocalSender)
        → has_conn conn pool ≡ false
        → remove_conn conn (pool ++ conn ∷ []) ≡ pool
    remove_conn-append [] h = ground arith
    remove_conn-append (y ∷ pool) h = ground (arith, remove_conn-append pool)

count_to-deliveries_absent :
    (x : LocalSender) (pool : List LocalSender) (text origin : String)
    → has_conn x pool ≡ false
    → count_to x.conn (deliveries pool text origin) ≡ 0
unfolding count_to deliveries has_conn
count_to-deliveries_absent x [] text origin h = refl
count_to-deliveries_absent x (y ∷ pool) text origin h =
    ground (arith, count_to-deliveries_absent x pool text origin)

-- A connection of another member is sent the frame once, one of the origin's never.
pub count_to-deliveries :
    (x : LocalSender) (pool : List LocalSender) (text origin : String)
    → IsApart pool
    → In x pool
    → count_to x.conn (deliveries pool text origin) ≡ (if x.member_id == origin then 0 else 1)
unfolding count_to deliveries has_conn
count_to-deliveries x [] text origin s i = elim i [ ]
count_to-deliveries x (y ∷ pool) text origin s (inl e) =
    ground (arith, count_to-deliveries_absent y pool text origin s.0)
count_to-deliveries x (y ∷ pool) text origin s (inr i) =
    ground (arith, count_to-deliveries x pool text origin s.1 i, In-has_conn x pool i)
  where
    In-has_conn : (x : LocalSender) (pool : List LocalSender) → In x pool → has_conn x pool ≡ true
    In-has_conn x [] i = elim i [ ]
    In-has_conn x (y ∷ pool) (inl e) = ground arith
    In-has_conn x (y ∷ pool) (inr i) = ground (arith, In-has_conn x pool i)

pub add_conn_new :
    (conn : LocalSender) (pool : List LocalSender)
    → has_conn conn pool ≡ false
    → add_conn conn pool ≡ pool ++ conn ∷ []
unfolding add_conn
add_conn_new conn pool h = rw h refl

-- What is sent goes to a connection of the pool whose member is not the origin, and vice versa.
pub In-deliveries :
    (d : Delivery) (pool : List LocalSender) (text origin : String)
    → In d (deliveries pool text origin)
    → (x : LocalSender) × In x pool
      × (x.member_id ≢ origin)
      × (d ≡ record { to = x.conn; text = text })
unfolding deliveries
In-deliveries d [] text origin i = elim i [ ]
In-deliveries d (y ∷ pool) text origin i = elim (Bool-cases (y.member_id == origin)) [
  | inl same ↦
      let (x, there, other, e) = In-deliveries d pool text origin (rw same at i) in
      (x, inr there, other, e)
  | inr apart ↦ elim (split (rw apart at i)) [
    | inl e ↦ (y, inl refl, (λ same. cc ((eq_iff y.member_id origin).1 same)), e)
    | inr i' ↦
        let (x, there, other, e) = In-deliveries d pool text origin i' in (x, inr there, other, e)
  ]
]
  where
    split :
        In d (record { to = y.conn; text = text } ∷ deliveries pool text origin)
        → (d ≡ record { to = y.conn; text = text }) ⊎ In d (deliveries pool text origin)
    split i = i

pub deliveries-In :
    (x : LocalSender) (pool : List LocalSender) (text origin : String)
    → In x pool
    → x.member_id ≢ origin
    → In (record { to = x.conn; text = text }) (deliveries pool text origin)
unfolding deliveries
deliveries-In x [] text origin i n = elim i [ ]
deliveries-In x (y ∷ pool) text origin (inl e) n = ground (arith, eq_iff y.member_id origin)
deliveries-In x (y ∷ pool) text origin (inr i) n =
    ground (arith, deliveries-In x pool text origin i n)
