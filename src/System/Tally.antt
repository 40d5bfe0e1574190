-- ===== src/System/Tally.antt =====
-- What the presence events in the log do to the number that a terminal client keeps.
use rust_multichat_server.Base.{
  ℕ, ◌+◌, ◌-◌, ◌%◌, ◌^◌, ◌≡◌, ap, ◌∙◌, refl, true, false, List, [], ◌∷◌, ◌++◌,
}
use rust_multichat_server.Protocol.{
  ClientMsg, set_nick, vote, unvote, ServerMsg, welcome, vote_snapshot, presence, error,
  BroadcastEvent, server, shutdown, Floats,
}
use rust_multichat_server.Protocol
use rust_multichat_server.Client.Writer.{messages}
use rust_multichat_server.Tui.{AppState, apply_msg, apply_all, title_count}
use rust_multichat_server.Tui

module _ {F : Type 0} where
  -- The counter of the terminal after a presence event; no other message changes it.
  abbrev pub counted : ServerMsg F → ℕ → ℕ
  counted (welcome peer_count) n = peer_count
  counted (presence id true) n = (n + 1) % 2 ^ 64
  counted (presence id false) n = n - 1
  counted _ n = n

  abbrev pub tally : List (BroadcastEvent F) → ℕ → ℕ
  tally [] n = n
  tally (server msg ∷ es) n = tally es (counted msg n)
  tally (shutdown ∷ es) n = tally es n

  pub tally-append :
      (es fs : List (BroadcastEvent F)) (n : ℕ) → tally (es ++ fs) n ≡ tally fs (tally es n)
  tally-append [] fs n = refl
  tally-append (server msg ∷ es) fs n = tally-append es fs (counted msg n)
  tally-append (shutdown ∷ es) fs n = tally-append es fs n

  apply_msg-counted :
      (msg : ServerMsg F) (s : AppState F)
      → (apply_msg msg s).client_count ≡ counted msg s.client_count
  unfolding apply_msg Tui.push_msg
  apply_msg-counted (welcome peer_count) s = refl
  apply_msg-counted (Protocol.ServerMsg.chat from nick text sent_at client_ts) s = refl
  apply_msg-counted (vote_snapshot counts percentages) s = refl
  apply_msg-counted (presence id true) s = refl
  apply_msg-counted (presence id false) s = refl
  apply_msg-counted (error msg) s = refl

  pub apply_all-tally :
      (es : List (BroadcastEvent F)) (s : AppState F)
      → (apply_all (messages es) s).client_count ≡ tally es s.client_count
  unfolding apply_all
  apply_all-tally [] s = refl
  apply_all-tally (server msg ∷ es) s =
      apply_all-tally es (apply_msg msg s) ∙ ap (tally es) (apply_msg-counted msg s)
  apply_all-tally (shutdown ∷ es) s = apply_all-tally es s
