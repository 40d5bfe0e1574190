-- ===== src/Client/Writer.antt =====
-- The write task of `handle_client` in src/client.rs. What `rx.recv()` gives and whether
-- `write_all` comes through are arguments; a line is the message that it holds.
use rust_multichat_server.Base.{ℕ, ◌≡◌, refl, Bool, true, false, List, [], ◌∷◌, ◌++◌, map}
use rust_multichat_server.Protocol.{ServerMsg, BroadcastEvent, server, shutdown}

pub data Received (F : Type 0) : Type 0 where
  event : (e : BroadcastEvent F) (written : Bool) → Received F
  lagged : (n : ℕ) → Received F
  closed : Received F

module _ {F : Type 0} where
  -- The messages that are written, and whether the task has ended.
  unfoldable pub write_task : List (Received F) → List (ServerMsg F) × Bool
  write_task [] = ([], false)
  write_task (event (server msg) true ∷ rs) = let rest = write_task rs in (msg ∷ rest.0, rest.1)
  write_task (event (server msg) false ∷ rs) = ([], true)
  write_task (event shutdown written ∷ rs) = ([], true)
  write_task (lagged n ∷ rs) = write_task rs
  write_task (closed ∷ rs) = ([], true)

  -- The receiver has kept up, and every write comes through.
  abbrev pub in_time : List (BroadcastEvent F) → List (Received F)
  in_time es = map (λ e. event e true) es

  -- No shutdown is among the events.
  abbrev pub Open : List (BroadcastEvent F) → Type 0
  Open [] = Unit
  Open (server msg ∷ es) = Open es
  Open (shutdown ∷ es) = ⊥

  abbrev pub messages : List (BroadcastEvent F) → List (ServerMsg F)
  messages [] = []
  messages (server msg ∷ es) = msg ∷ messages es
  messages (shutdown ∷ es) = messages es

  pub Open-append : (es fs : List (BroadcastEvent F)) → Open es → Open fs → Open (es ++ fs)
  Open-append [] fs o p = p
  Open-append (server msg ∷ es) fs o p = Open-append es fs o p
  Open-append (shutdown ∷ es) fs o p = absurd o

  -- While the receiver keeps up, writes come through and no shutdown is sent, exactly the
  -- messages sent are written, in their order, and the task goes on; at the first shutdown it ends
  -- with all messages before it written, whatever is sent after it.
  pub write_task-in_time :
      (es fs : List (BroadcastEvent F))
      → Open es
      → (write_task (in_time es) ≡ (messages es, false))
        × (write_task (in_time (es ++ shutdown ∷ fs)) ≡ (messages es, true))
  unfolding write_task
  write_task-in_time [] fs o = (refl, refl)
  write_task-in_time (server msg ∷ es) fs o =
      let (going, ended) = write_task-in_time es fs o in (rw going refl, rw ended refl)
  write_task-in_time (shutdown ∷ es) fs o = absurd o
