-- ===== src/Tui/Messages.antt =====
-- The lines of chat that the client keeps.
use rust_multichat_server.Base.{
  ℕ, zero, suc, ◌-◌, ◌≤◌, ◌<◌, ◌≡◌, refl, ap, ◌∙◌, List, [], ◌∷◌, ◌++◌, Bool-cases, inl, inr,
  length, length-append, drop, leb, leb→le, arith, append-nil, append_assoc,
}
use rust_multichat_server.Protocol.{Text}
use rust_multichat_server.Tui.{AppState, max_messages, push_msg}

-- The messages pushed one after another, the first of the list first.
abbrev pub push_all : {F : Type 0} → List Text → AppState F → AppState F
unfolding push_msg
push_all [] s = s
push_all (m ∷ ms) s = push_all ms (push_msg m s)

abbrev pub last_messages : List Text → List Text
last_messages ms = drop (length ms - max_messages) ms

module _ {ℓ} {A : Type ℓ} where
  drop-append : (k : ℕ) (xs ys : List A) → k ≤ length xs → drop k (xs ++ ys) ≡ drop k xs ++ ys
  drop-append zero xs ys h = refl
  drop-append (suc k) [] ys h = absurd (omega arith)
  drop-append (suc k) (x ∷ xs) ys h = drop-append k xs ys (omega arith)

  drop-suc : (k : ℕ) (xs : List A) → drop 1 (drop k xs) ≡ drop (suc k) xs
  drop-suc zero xs = refl
  drop-suc (suc k) [] = refl
  drop-suc (suc k) (x ∷ xs) = drop-suc k xs

  length-drop : (k : ℕ) (xs : List A) → length (drop k xs) ≡ length xs - k
  length-drop zero xs = omega arith
  length-drop (suc k) [] = omega arith
  length-drop (suc k) (x ∷ xs) = omega (arith, length-drop k xs)

module _ {F : Type 0} where
  push_last :
      (seen : List Text) (m : Text) (s : AppState F)
      → s.messages ≡ last_messages seen
      → (push_msg m s).messages ≡ last_messages (seen ++ m ∷ [])
  unfolding push_msg
  push_last seen m s e = elim (Bool-cases (leb max_messages (length s.messages))) [
    | inl full ↦
        let n : max_messages ≤ length seen =
          omega
            (arith, leb→le _ _ full, ap length e, length-drop (length seen - max_messages) seen) in
        let k : length (seen ++ m ∷ []) - max_messages ≡ suc (length seen - max_messages) =
          omega (arith, length-append seen (m ∷ [])) in
        rw (full, e, k, drop-append (suc (length seen - max_messages)) seen (m ∷ []) (omega arith))
          (ap (λ l. l ++ m ∷ []) (drop-suc (length seen - max_messages) seen))
    | inr room ↦
        let n : length seen < max_messages =
          ground (arith, ap length e, length-drop (length seen - max_messages) seen) in
        let k : length (seen ++ m ∷ []) - max_messages ≡ 0 =
          omega (arith, length-append seen (m ∷ [])) in
        let k' : length seen - max_messages ≡ 0 = omega arith in rw (room, e, k, k') refl
  ]

  push_all-seen :
      (seen ms : List Text) (s : AppState F)
      → s.messages ≡ last_messages seen
      → (push_all ms s).messages ≡ last_messages (seen ++ ms)
  unfolding push_all
  push_all-seen seen [] s e = rw (append-nil seen) e
  push_all-seen seen (m ∷ ms) s e =
      push_all-seen (seen ++ m ∷ []) ms (push_msg m s) (push_last seen m s e)
      ∙ ap last_messages (append_assoc seen (m ∷ []) ms)

  -- After any sequence of messages the list holds the last 200 of them in their order, or all of
  -- them if they are fewer, and never more than 200.
  pub push_all-last_messages :
      (ms : List Text) (s : AppState F)
      → s.messages ≡ []
      → ((push_all ms s).messages ≡ last_messages ms)
        × (length (push_all ms s).messages ≤ max_messages)
  push_all-last_messages ms s e =
      let kept = push_all-seen [] ms s e in
      (kept, omega (arith, ap length kept, length-drop (length ms - max_messages) ms))
