-- ===== src/Tui/Loop/Served.antt =====
-- The terminal client and the server's side of its connection.
use rust_multichat_server.Base.{
  ℕ, ◌≡◌, ◌≢◌, ◌⊎◌, refl, ap, ◌∙◌, Bool, true, false, Option, none, some, List, [], ◌∷◌, Bool-cases,
  Option-cases, inl, inr, arith,
}
use rust_multichat_server.Protocol.{
  n_options, ClientMsg, ServerMsg, welcome, vote_snapshot, presence, error, set_nick, vote, unvote,
  Floats,
}
use rust_multichat_server.Protocol
use rust_multichat_server.Strings.{trim}
use rust_multichat_server.Tui.{
  AppState, KeyEvent, KeyCode, esc, enter, backspace, char, other, apply_msg, handle_key, edit,
  submit, push_msg,
}
use rust_multichat_server.Tui.Input.{vote_sent, parse_input-my_vote}
use rust_multichat_server.Tui.Frame.{Ratatui}
use rust_multichat_server.Tui.Loop.{
  UiEvent, network, no_key, io_failed, key, unsent, draws, event_loop,
}
use rust_multichat_server.Client.Session.Votes.{next_vote}
use rust_multichat_server.Client.Session.Sent.{final_vote}

List-cases : (xs : List ℕ) → (xs ≡ []) ⊎ ((y : ℕ) × (ys : List ℕ) × (xs ≡ y ∷ ys))
List-cases [] = inl refl
List-cases (x ∷ xs) = inr (x, xs, refl)

vote_sent-next_vote : (m : ClientMsg) (v : Option ℕ) → vote_sent (some m) v ≡ next_vote (some m) v
vote_sent-next_vote (Protocol.ClientMsg.chat text ts) v = refl
vote_sent-next_vote (set_nick name) v = refl
vote_sent-next_vote (vote option) v = refl
vote_sent-next_vote unvote v = refl

module _ {F : Type 0} where
  apply_msg-my_vote : (m : ServerMsg F) (s : AppState F) → (apply_msg m s).my_vote ≡ s.my_vote
  unfolding apply_msg push_msg
  apply_msg-my_vote (welcome n) s = refl
  apply_msg-my_vote (Protocol.ServerMsg.chat from nick text sent_at client_ts) s = refl
  apply_msg-my_vote (vote_snapshot counts percentages) s = refl
  apply_msg-my_vote (presence id true) s = refl
  apply_msg-my_vote (presence id false) s = refl
  apply_msg-my_vote (error msg) s = refl

  submit-my_vote :
      (now_ms : ℕ) (s : AppState F)
      → (submit now_ms s).1.my_vote ≡ vote_sent (submit now_ms s).0 s.my_vote
  unfolding submit
  submit-my_vote now_ms s = elim (List-cases (trim s.input)) [
    | inl blank ↦ rw (submit, blank) refl
    | inr (c, input, typed) ↦
        rw (submit, typed) (parse_input-my_vote (c ∷ input) now_ms (record s { input = [] }))
  ]

  edit-my_vote :
      (c : KeyCode) (now_ms : ℕ) (s : AppState F)
      → (edit c now_ms s).1.my_vote ≡ vote_sent (edit c now_ms s).0 s.my_vote
  unfolding edit
  edit-my_vote enter now_ms s = submit-my_vote now_ms s
  edit-my_vote backspace now_ms s = refl
  edit-my_vote (char c) now_ms s = refl
  edit-my_vote esc now_ms s = refl
  edit-my_vote other now_ms s = refl

  handle_key-my_vote :
      (k : KeyEvent) (now_ms : ℕ) (s : AppState F)
      → (handle_key k now_ms s).2.my_vote ≡ vote_sent (handle_key k now_ms s).1 s.my_vote
  unfolding handle_key
  handle_key-my_vote k now_ms s = ground (arith, edit-my_vote k.code now_ms s)

  handle_key-quits :
      (k : KeyEvent) (now_ms : ℕ) (s : AppState F)
      → (handle_key k now_ms s).0 ≡ true
      → (handle_key k now_ms s).1 ≡ none
  unfolding handle_key
  handle_key-quits k now_ms s e = ground arith

  pub event_loop-my_vote :
      (checks : Bool) (ui : Ratatui F) (es : List (UiEvent F)) (s : AppState F)
      → (event_loop checks ui es s).2 ≢ unsent
      → (event_loop checks ui es s).1.my_vote ≡ final_vote (event_loop checks ui es s).0 s.my_vote
  unfolding event_loop
  event_loop-my_vote checks ui [] s ok = refl
  event_loop-my_vote checks ui (network m ∷ es) s ok =
      event_loop-my_vote checks ui es (apply_msg m s) ok
      ∙ ap (final_vote (event_loop checks ui es (apply_msg m s)).0) (apply_msg-my_vote m s)
  event_loop-my_vote checks ui (no_key area ∷ es) s ok =
      elim (Bool-cases (draws checks ui area s)) [
        | inl drawn ↦
            rw (event_loop, drawn)
              (event_loop-my_vote checks ui es s (rw (event_loop, drawn) at ok))
        | inr panics ↦ rw (event_loop, panics) refl
      ]
  event_loop-my_vote checks ui (io_failed none ∷ es) s ok = refl
  event_loop-my_vote checks ui (io_failed (some area) ∷ es) s ok = refl
  event_loop-my_vote checks ui (key area k now_ms sent ∷ es) s ok =
      let held = handle_key-my_vote k now_ms s in
      let next = (handle_key k now_ms s).2 in
      elim (Bool-cases (draws checks ui area s)) [
        | inr panics ↦ rw (event_loop, panics) refl
        | inl drawn ↦ elim (Bool-cases (handle_key k now_ms s).0) [
          | inl out ↦
              rw (event_loop, drawn, out)
                (held ∙ ap (λ o. vote_sent o s.my_vote) (handle_key-quits k now_ms s out))
          | inr stays ↦ elim (Option-cases (handle_key k now_ms s).1) [
            | inl silent ↦
                rw (event_loop, drawn, stays, silent)
                  (event_loop-my_vote checks ui es next
                      (rw (event_loop, drawn, stays, silent) at ok)
                    ∙ ap (final_vote (event_loop checks ui es next).0)
                        (held ∙ ap (λ o. vote_sent o s.my_vote) silent))
            | inr (m, msg) ↦ elim (Bool-cases sent) [
              | inl through ↦
                  rw (event_loop, drawn, stays, msg, through)
                    (event_loop-my_vote checks ui es next
                        (rw (event_loop, drawn, stays, msg, through) at ok)
                      ∙ ap (final_vote (event_loop checks ui es next).0) (
                          held
                          ∙ ap (λ o. vote_sent o s.my_vote) msg
                          ∙ vote_sent-next_vote m s.my_vote))
              | inr lost ↦ absurd (ok (rw (event_loop, drawn, stays, msg, lost) refl))
            ]
          ]
        ]
      ]
