-- ===== src/Gateway/Registered.antt =====
-- backend/src/realtime/convoy_gateway.ts: the fan-out knows exactly the sockets of the instance.
use crew_link.Base.{
  ℕ, suc, ◌<◌, String, Bool, false, some, List, [], ◌∷◌, ◌++◌, All, All-append, if◌then◌else◌, ◌==◌,
  ◌≡◌, ◌≢◌, refl, arith, eq_iff,
}
use crew_link.Fanout.Pool.{LocalSender, has_conn, remove_conn}
use crew_link.Heartbeat.{Beat}
use crew_link.Gateway.{Socket, find_socket, remove_socket, set_open, set_beat, sender}

-- The connections of a convoy's sockets, in the order of their upgrades.
unfoldable pub senders_of : String → List Socket → List LocalSender
senders_of c [] = []
senders_of c (s ∷ sockets) =
    if s.convoy_id == c then sender s ∷ senders_of c sockets else senders_of c sockets

abbrev pub Below : ℕ → List Socket → Type 0
Below n = All λ s. s.conn < n

-- No two sockets have one connection.
abbrev pub IsApart : List Socket → Type 0
IsApart [] = Unit {0}
IsApart (s ∷ sockets) = All (λ t. t.conn ≢ s.conn) sockets × IsApart sockets

pub Below-suc : (n : ℕ) (sockets : List Socket) → Below n sockets → Below (suc n) sockets
Below-suc n [] b = tt
Below-suc n (s ∷ sockets) (b, bs) = (omega arith, Below-suc n sockets bs)

pub Below-has_conn :
    (x : LocalSender) (c : String) (sockets : List Socket)
    → Below x.conn sockets
    → has_conn x (senders_of c sockets) ≡ false
unfolding has_conn senders_of
Below-has_conn x c [] b = refl
Below-has_conn x c (s ∷ sockets) b = ground (arith, Below-has_conn x c sockets b.1)

Below-ne :
    (s : Socket) (sockets : List Socket) → Below s.conn sockets → All (λ t. s.conn ≢ t.conn) sockets
Below-ne s [] b = tt
Below-ne s (t ∷ sockets) (b, bs) = (ground arith, Below-ne s sockets bs)

pub append-IsApart :
    (s : Socket) (sockets : List Socket)
    → Below s.conn sockets
    → IsApart sockets
    → IsApart (sockets ++ s ∷ [])
append-IsApart s [] b a = (tt, tt)
append-IsApart s (t ∷ sockets) (b, bs) (a, rest) = (
  All-append (λ u. u.conn ≢ t.conn) sockets (s ∷ []) a (ground arith, tt),
  append-IsApart s sockets bs rest,
)

pub senders_of-append :
    (c : String) (sockets : List Socket) (s : Socket)
    → senders_of c (sockets ++ s ∷ [])
      ≡ (if s.convoy_id == c then senders_of c sockets ++ sender s ∷ [] else senders_of c sockets)
unfolding senders_of
senders_of-append c [] s = ground arith
senders_of-append c (t ∷ sockets) s = ground (arith, senders_of-append c sockets s)

pub remove_socket-Below :
    (m n : ℕ) (sockets : List Socket) → Below n sockets → Below n (remove_socket m sockets)
unfolding remove_socket
remove_socket-Below m n [] b = tt
remove_socket-Below m n (s ∷ sockets) b = ground (arith, remove_socket-Below m n sockets b.1)

remove_socket-ne :
    (m k : ℕ) (sockets : List Socket)
    → All (λ t. t.conn ≢ k) sockets
    → All (λ t. t.conn ≢ k) (remove_socket m sockets)
unfolding remove_socket
remove_socket-ne m k [] a = tt
remove_socket-ne m k (s ∷ sockets) a = ground (arith, remove_socket-ne m k sockets a.1)

pub remove_socket-IsApart :
    (m : ℕ) (sockets : List Socket) → IsApart sockets → IsApart (remove_socket m sockets)
unfolding remove_socket
remove_socket-IsApart m [] a = tt
remove_socket-IsApart m (s ∷ sockets) a =
    ground (arith, remove_socket-IsApart m sockets a.1, remove_socket-ne m s.conn sockets a.0)

-- Taking a socket out takes its connection out of its convoy's, and no other.
pub senders_of-remove_self :
    (s : Socket) (sockets : List Socket)
    → senders_of s.convoy_id (remove_socket s.conn sockets)
      ≡ remove_conn (sender s) (senders_of s.convoy_id sockets)
unfolding senders_of remove_socket remove_conn
senders_of-remove_self s [] = refl
senders_of-remove_self s (t ∷ sockets) = ground (arith, senders_of-remove_self s sockets)

remove_socket_absent :
    (n : ℕ) (sockets : List Socket)
    → All (λ t. t.conn ≢ n) sockets
    → remove_socket n sockets ≡ sockets
unfolding remove_socket
remove_socket_absent n [] a = refl
remove_socket_absent n (t ∷ sockets) a = ground (arith, remove_socket_absent n sockets a.1)

pub senders_of-remove_other :
    (s : Socket) (sockets : List Socket) (c : String)
    → IsApart sockets
    → find_socket s.conn sockets ≡ some s
    → s.convoy_id ≢ c
    → senders_of c (remove_socket s.conn sockets) ≡ senders_of c sockets
unfolding senders_of remove_socket find_socket
senders_of-remove_other s [] c a e n = cc
senders_of-remove_other s (t ∷ sockets) c a e n = ground (
  arith,
  eq_iff t.convoy_id c,
  eq_iff s.convoy_id c,
  senders_of-remove_other s sockets c a.1,
  remove_socket_absent t.conn sockets a.0,
)

-- Setting a flag or a heartbeat of a socket changes no connection.
pub set_open-senders_of :
    (n : ℕ) (b : Bool) (c : String) (sockets : List Socket)
    → senders_of c (set_open n b sockets) ≡ senders_of c sockets
unfolding senders_of set_open
set_open-senders_of n b c [] = refl
set_open-senders_of n b c (s ∷ sockets) = ground (arith, set_open-senders_of n b c sockets)

pub set_beat-senders_of :
    (n : ℕ) (b : Beat) (c : String) (sockets : List Socket)
    → senders_of c (set_beat n b sockets) ≡ senders_of c sockets
unfolding senders_of set_beat
set_beat-senders_of n b c [] = refl
set_beat-senders_of n b c (s ∷ sockets) = ground (arith, set_beat-senders_of n b c sockets)

pub set_open-All :
    (P : ℕ → Type 0) (n : ℕ) (b : Bool) (sockets : List Socket)
    → All (λ s. P s.conn) sockets
    → All (λ s. P s.conn) (set_open n b sockets)
unfolding set_open
set_open-All P n b [] h = tt
set_open-All P n b (s ∷ sockets) h = (h.0, set_open-All P n b sockets h.1)

pub set_beat-All :
    (P : ℕ → Type 0) (n : ℕ) (b : Beat) (sockets : List Socket)
    → All (λ s. P s.conn) sockets
    → All (λ s. P s.conn) (set_beat n b sockets)
unfolding set_beat
set_beat-All P n b [] h = tt
set_beat-All P n b (s ∷ sockets) h = (h.0, set_beat-All P n b sockets h.1)

pub set_open-IsApart :
    (n : ℕ) (b : Bool) (sockets : List Socket) → IsApart sockets → IsApart (set_open n b sockets)
unfolding set_open
set_open-IsApart n b [] a = tt
set_open-IsApart n b (s ∷ sockets) (a, rest) =
    (set_open-All (λ k. k ≢ s.conn) n b sockets a, set_open-IsApart n b sockets rest)

pub set_beat-IsApart :
    (n : ℕ) (b : Beat) (sockets : List Socket) → IsApart sockets → IsApart (set_beat n b sockets)
unfolding set_beat
set_beat-IsApart n b [] a = tt
set_beat-IsApart n b (s ∷ sockets) (a, rest) =
    (set_beat-All (λ k. k ≢ s.conn) n b sockets a, set_beat-IsApart n b sockets rest)

pub find_socket-conn :
    (n : ℕ) (sockets : List Socket) (s : Socket) → find_socket n sockets ≡ some s → s.conn ≡ n
unfolding find_socket
find_socket-conn n [] s e = cc
find_socket-conn n (t ∷ sockets) s e = ground (arith, find_socket-conn n sockets s)
