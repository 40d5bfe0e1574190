-- ===== src/Client/Session/Sent.antt =====
-- A client whose lines the server reads as the messages that they hold.
use rust_multichat_server.Base.{ℕ, ◌≡◌, refl, ap, ◌∙◌, Option, some, List, [], ◌∷◌, ◌++◌, map}
use rust_multichat_server.Protocol.{ClientMsg}
use rust_multichat_server.Client.Line.{Bytes, line}
use rust_multichat_server.Client.Session.{Codec, Times, Event, reads, decode}
use rust_multichat_server.Client.Session.Votes.{next_vote, vote_after}

-- The vote that messages leave, where `cv` was the vote before them.
abbrev pub final_vote : List ClientMsg → Option ℕ → Option ℕ
final_vote [] cv = cv
final_vote (m ∷ ms) cv = final_vote ms (next_vote (some m) cv)

pub final_vote-append :
    (ms ns : List ClientMsg) (cv : Option ℕ)
    → final_vote (ms ++ ns) cv ≡ final_vote ns (final_vote ms cv)
final_vote-append [] ns cv = refl
final_vote-append (m ∷ ms) ns cv = final_vote-append ms ns (next_vote (some m) cv)

-- The server reads the lines that hold the messages.
abbrev pub lines_of : (ClientMsg → Bytes) → Times → List ClientMsg → List Event
lines_of encode t ms = map (λ m. reads (line (encode m)) t) ms

module _ {F : Type 0} (codec : Codec F) (encode : ClientMsg → Bytes) (t : Times) where
  pub vote_after-lines_of :
      ((m : ClientMsg) → decode codec (encode m) ≡ some m)
      → (ms : List ClientMsg) (cv : Option ℕ)
      → vote_after codec (lines_of encode t ms) cv ≡ final_vote ms cv
  vote_after-lines_of reads_back [] cv = refl
  vote_after-lines_of reads_back (m ∷ ms) cv =
      ap (λ o. vote_after codec (lines_of encode t ms) (next_vote o cv)) (reads_back m)
      ∙ vote_after-lines_of reads_back ms (next_vote (some m) cv)
