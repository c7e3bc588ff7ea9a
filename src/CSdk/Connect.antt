-- ===== src/CSdk/Connect.antt =====
-- sdk/src/dsp_accel_sdk.c: connecting and disconnecting, with the descriptors that they close.
use linux_opensource_univers.Prelude.{
  if◌then◌else◌, ℕ, ◌≡◌, refl, Bool, true, false, not, ◌&&◌, Option, none, some, List, [], ◌∷◌,
  ◌++◌,
}
use linux_opensource_univers.Sdk.{WorkloadType, Fd}
use linux_opensource_univers.Sdk.Connect.{safe_close, is_open}
use linux_opensource_univers.CSdk.{Ctx}

-- What the calls of `connect` give, each if it is made: the socket, whether the daemon is there and
-- answers, the descriptors that it passes, whether there is memory, and whether the file is mapped
pub record Replies : Type 0 where
  pub socket : Fd
  pub connects : Bool
  pub answers : Bool
  pub shm_fd : Fd
  pub e_send : Fd
  pub e_recv : Fd
  pub allocates : Bool
  pub maps : Bool

-- `dsp_accel_sdk_disconnect`: what it closes
unfoldable pub disconnect : Option Ctx → List ℕ
disconnect none = []
disconnect (some c) =
    safe_close c.shm_fd ++ safe_close c.e_send ++ safe_close c.e_recv ++ safe_close c.socket_fd

-- The context and the mapping; `calloc` is not looked at.
unfoldable pub map_memory : WorkloadType → ℕ → Replies → Option (Option Ctx × List ℕ)
map_memory type sock r =
    let c : Ctx = record {
      type = type;
      socket_fd = some sock;
      shm_fd = r.shm_fd;
      e_send = r.e_send;
      e_recv = r.e_recv;
      mapped = r.maps;
    } in
    if not r.allocates
    then none
    else if r.maps
    then some (some c, [])
    else some (none, disconnect (some c))

abbrev pub all_there : Replies → Bool
all_there r = is_open r.shm_fd && is_open r.e_send && is_open r.e_recv

unfoldable pub connect_socket : WorkloadType → ℕ → Replies → Option (Option Ctx × List ℕ)
connect_socket type sock r =
    if not r.connects
    then some (none, sock ∷ [])
    else if not r.answers
    then some (none, sock ∷ [])
    else if not (all_there r)
    then some (none, sock ∷ [])
    else map_memory type sock r

-- `dsp_accel_sdk_connect`: the context, if there is one, and what has been closed
unfoldable pub connect : WorkloadType → Fd → Replies → Option (Option Ctx × List ℕ)
connect type none r = some (none, [])
connect type (some sock) r = connect_socket type sock r

-- The descriptors that `connect` has been given
abbrev pub received : Replies → List ℕ
received r =
    if r.connects && r.answers
    then safe_close r.shm_fd ++ safe_close r.e_send ++ safe_close r.e_recv
    else []

-- Those that are neither closed nor in a context: what came when not all three came
abbrev pub leaked : Replies → List ℕ
leaked r = if r.connects && r.answers && not (all_there r) then received r else []

-- Where `connect` finds memory for the context, it comes back. Of the descriptors that it was given,
-- those that it closes and those that a later `disconnect` of the context closes are all but the
-- leaked ones, which are those that the daemon has passed when it has not passed all three; the
-- context, if there is one, is mapped.
pub c_connect_leaks :
    (type : WorkloadType) (sock : ℕ) (r : Replies)
    → r.allocates ≡ true
    → (c : Option Ctx) × (closed : List ℕ) × (connect type (some sock) r ≡ some (c, closed))
      × (leaked r ++ closed ++ disconnect c ≡ received r ++ sock ∷ [])
      × ((x : Ctx) → c ≡ some x → x.mapped ≡ true)
unfolding connect connect_socket map_memory disconnect
c_connect_leaks type sock r here =
    go r.connects r.answers r.shm_fd r.e_send r.e_recv r.allocates r.maps here
  where
    go :
        (p q : Bool) (a b d : Fd) (m n : Bool)
        → m ≡ true
        → (let r : Replies = record {
          socket = some sock;
          connects = p;
          answers = q;
          shm_fd = a;
          e_send = b;
          e_recv = d;
          allocates = m;
          maps = n;
        } in
            (c : Option Ctx) × (closed : List ℕ) × (connect type (some sock) r ≡ some (c, closed))
            × (leaked r ++ closed ++ disconnect c ≡ received r ++ sock ∷ [])
            × ((x : Ctx) → c ≡ some x → x.mapped ≡ true))
    go false q a b d m n e = (none, sock ∷ [], refl, refl, λ x y. cc)
    go true false a b d m n e = (none, sock ∷ [], refl, refl, λ x y. cc)
    go true true none none none m n e = (none, sock ∷ [], refl, refl, λ x y. cc)
    go true true none none (some d) m n e = (none, sock ∷ [], refl, refl, λ x y. cc)
    go true true none (some b) none m n e = (none, sock ∷ [], refl, refl, λ x y. cc)
    go true true none (some b) (some d) m n e = (none, sock ∷ [], refl, refl, λ x y. cc)
    go true true (some a) none none m n e = (none, sock ∷ [], refl, refl, λ x y. cc)
    go true true (some a) none (some d) m n e = (none, sock ∷ [], refl, refl, λ x y. cc)
    go true true (some a) (some b) none m n e = (none, sock ∷ [], refl, refl, λ x y. cc)
    go true true (some a) (some b) (some d) false n e = cc
    go true true (some a) (some b) (some d) true false e = (none, _, refl, refl, λ x y. cc)
    go true true (some a) (some b) (some d) true true e = (some _, [], refl, refl, λ x y. cc)
