-- ===== src/Server/Listen.antt =====
-- The start of `run` of src/server.rs: from the text of an address to a listening socket. The
-- operations of the socket are parameters; `none` is an error that `?` returns.
use rust_multichat_server.Base.{
  ℕ, ◌≡◌, refl, Bool, true, false, Option, none, some, if◌then◌else◌, ◌>>=◌, inl, inr, sym, ap, ◌∙◌,
  Bool-cases, arith,
}
use rust_multichat_server.Protocol.{Text}
use rust_multichat_server.Server.{listen_backlog}

-- `A` are the addresses, `S` the sockets and `L` the listeners.
pub record Sockets (A S L : Type 0) : Type 0 where
  pub parse : Text → Option A
  pub is_ipv4 : A → Bool
  pub new_v4 : Option S
  pub new_v6 : Option S
  pub set_reuseaddr : Bool → S → Option S
  pub bind : A → S → Option S
  pub listen : ℕ → S → Option L

module _ {A S L : Type 0} where
  unfoldable pub new_socket : Sockets A S L → A → Option S
  new_socket ops addr = if ops.is_ipv4 addr then ops.new_v4 else ops.new_v6

  unfoldable pub listen_at : Sockets A S L → Text → Option L
  unfolding new_socket
  listen_at ops addr = do
    sock_addr ← ops.parse addr
    socket ← new_socket ops sock_addr
    reusing ← ops.set_reuseaddr true socket
    bound ← ops.bind sock_addr reusing
    ops.listen listen_backlog bound

-- What a socket is: its family, whether it reuses addresses, and what it is bound to; and the socket
-- and the backlog of a listener.
pub record View (A S L : Type 0) : Type 0 where
  pub is_v4 : S → Bool
  pub reuses : S → Bool
  pub bound : S → Option A
  pub socket : L → S
  pub backlog : L → ℕ

module _ {A S L : Type 0} where
  -- What the operations are documented to do when they succeed.
  pub record Documented (ops : Sockets A S L) (v : View A S L) : Type 0 where
    pub v4 : (s : S) → ops.new_v4 ≡ some s → v.is_v4 s ≡ true
    pub v6 : (s : S) → ops.new_v6 ≡ some s → v.is_v4 s ≡ false
    pub reuse :
        (b : Bool) (s s' : S)
        → ops.set_reuseaddr b s ≡ some s'
        → (v.reuses s' ≡ b) × (v.is_v4 s' ≡ v.is_v4 s)
    pub binds :
        (a : A) (s s' : S)
        → ops.bind a s ≡ some s'
        → (v.bound s' ≡ some a) × (v.reuses s' ≡ v.reuses s) × (v.is_v4 s' ≡ v.is_v4 s)
    pub listens :
        (n : ℕ) (s : S) (l : L) → ops.listen n s ≡ some l → (v.socket l ≡ s) × (v.backlog l ≡ n)

  of_family :
      (ops : Sockets A S L) (v : View A S L) (a : A) (s : S)
      → Documented ops v
      → new_socket ops a ≡ some s
      → v.is_v4 s ≡ ops.is_ipv4 a
  unfolding new_socket
  of_family ops v a s d e = elim (Bool-cases (ops.is_ipv4 a)) [
    | inl four ↦ d.v4 s (ground arith) ∙ sym four
    | inr six ↦ d.v6 s (ground arith) ∙ sym six
  ]

  -- With sockets that do what they are documented to do, a listener that `listen_at` gives listens
  -- at the address that the text reads as, on a socket of that address's family, which reuses
  -- addresses, with a backlog of 8192.
  pub listen_at_lem :
      (ops : Sockets A S L) (v : View A S L) (addr : Text) (l : L)
      → Documented ops v
      → listen_at ops addr ≡ some l
      → (a : A) × (ops.parse addr ≡ some a)
        × (v.bound (v.socket l) ≡ some a)
        × (v.is_v4 (v.socket l) ≡ ops.is_ipv4 a)
        × (v.reuses (v.socket l) ≡ true)
        × (v.backlog l ≡ listen_backlog)
  unfolding listen_at
  listen_at_lem ops v addr l d e =
      let (a, parsed, e1) = bind_some (ops.parse addr) _ l e in
      let (s, made, e2) = bind_some (new_socket ops a) _ l e1 in
      let (s1, reusing, e3) = bind_some (ops.set_reuseaddr true s) _ l e2 in
      let (s2, at, e4) = bind_some (ops.bind a s1) _ l e3 in
      let (same, backlog) = d.listens listen_backlog s2 l e4 in
      let (bound, reuse, family) = d.binds a s1 s2 at in
      let (on, kept) = d.reuse true s s1 reusing in
      (
        a,
        parsed,
        ap v.bound same ∙ bound,
        ap v.is_v4 same ∙ family ∙ kept ∙ of_family ops v a s d made,
        ap v.reuses same ∙ reuse ∙ on,
        backlog,
      )
    where
      bind_some :
          {B C : Type 0} (o : Option B) (f : B → Option C) (c : C)
          → (o >>= f) ≡ some c
          → (b : B) × (o ≡ some b) × (f b ≡ some c)
      bind_some none f c h = absurd cc
      bind_some (some b) f c h = (b, refl, h)
