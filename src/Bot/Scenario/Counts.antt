-- ===== src/Bot/Scenario/Counts.antt =====
-- The bots of a mixed scenario in its report.
use rust_multichat_server.Base.{
  ℕ, suc, ◌+◌, ◌%◌, ◌^◌, ◌<◌, ◌≡◌, refl, ap, ◌∙◌, List, [], ◌∷◌, map, length, arith,
}
use rust_multichat_server.Bot.Scenario.{Joined, succeeded, bot_failed, join_error, count_joined}

pub count_joined-sum :
    (js : List Joined) (s f : ℕ)
    → s + f + length js < 2 ^ 64
    → (count_joined js (s, f)).0 + (count_joined js (s, f)).1 ≡ s + f + length js
unfolding count_joined
count_joined-sum [] s f h = omega arith
count_joined-sum (succeeded ∷ js) s f h =
    count_joined-sum js ((s + 1) % 2 ^ 64) f (omega arith) ∙ omega arith
count_joined-sum (bot_failed ∷ js) s f h =
    count_joined-sum js s ((f + 1) % 2 ^ 64) (omega arith) ∙ omega arith
count_joined-sum (join_error ∷ js) s f h =
    count_joined-sum js s ((f + 1) % 2 ^ 64) (omega arith) ∙ omega arith

pub length-map {ℓ} : {A B : Type ℓ} (f : A → B) (xs : List A) → length (map f xs) ≡ length xs
length-map f [] = refl
length-map f (x ∷ xs) = ap suc (length-map f xs)
