-- ===== src/Examples/Runs.antt =====
-- Runs of the program's functions.
use rust_multichat_server.Base.{
  ℕ, ◌^◌, ◌-◌, ◌≡◌, refl, Bool, true, false, none, some, List, [], ◌∷◌, codes,
}
use rust_multichat_server.Protocol.{vote}
use rust_multichat_server.Strings.{
  max_u32, trim, is_whitespace, to_string, parse_unsigned, split, split_once, strip_prefix,
}
use rust_multichat_server.Client.Line.{read_line_bounded, chunk, line}
use rust_multichat_server.Bot.Tally.{vote_integrity}
use rust_multichat_server.Bot.Kind.{
  BotType, normal, spammer, fickle, ghost, quitter, ok, err, bad_number, from_str,
}
use rust_multichat_server.Bot.Ratio.{parse, default}
use rust_multichat_server.Bot.Allocate.{allocate}
use rust_multichat_server.Tui.{new, parse_input, parse_vote, send_vote, title_count}
use rust_multichat_server.Examples.Data.{percent}

trimmed : trim (codes "  /vote 3 ") ≡ codes "/vote 3"
unfolding trim is_whitespace
trimmed = refl

printed : to_string 4294967295 ≡ codes "4294967295"
unfolding to_string
printed = refl

parsed : parse_unsigned max_u32 (codes "+4294967295") ≡ some 4294967295
unfolding parse_unsigned
parsed = refl

too_large : parse_unsigned max_u32 (codes "4294967296") ≡ none
unfolding parse_unsigned
too_large = refl

two_lines :
    read_line_bounded 4 (chunk (b'a' ∷ b'b' ∷ []) ∷ chunk (b'\r' ∷ b'\n' ∷ b'c' ∷ []) ∷ [])
    ≡ (line (b'a' ∷ b'b' ∷ []), chunk (b'c' ∷ []) ∷ [])
unfolding read_line_bounded
two_lines = refl

-- The first bot voted for option 2; both saw the same snapshot.
two_bots :
    vote_integrity
      (λ es. es)
      (record { last_vote = some 2; last_snapshot = some (0 ∷ 0 ∷ 1 ∷ 0 ∷ []) }
        ∷ record { last_vote = none; last_snapshot = some (0 ∷ 0 ∷ 1 ∷ 0 ∷ []) }
        ∷ [])
    ≡ some (record {
      passed = true;
      expected = 0 ∷ 0 ∷ 1 ∷ 0 ∷ [];
      actual = 0 ∷ 0 ∷ 1 ∷ 0 ∷ [];
      fickle_count = 2;
    })
unfolding vote_integrity
two_bots = refl

default_lem :
    parse default
    ≡ ok (record {
      entries = (normal, 40) ∷ (spammer, 20) ∷ (fickle, 20) ∷ (ghost, 10) ∷ (quitter, 10) ∷ [];
    })
unfolding parse trim is_whitespace split split_once from_str parse_unsigned
default_lem = refl

no_number : parse (codes "normal:abc") ≡ err (bad_number (codes "abc"))
unfolding parse trim is_whitespace split split_once from_str parse_unsigned
no_number = refl

abbrev default_entries : List (BotType × ℕ)
default_entries = (normal, 40) ∷ (spammer, 20) ∷ (fickle, 20) ∷ (ghost, 10) ∷ (quitter, 10) ∷ []

allocate_501 :
    allocate true 501 (record { entries = default_entries })
    ≡ some ((normal, 201) ∷ (spammer, 100) ∷ (fickle, 100) ∷ (ghost, 50) ∷ (quitter, 50) ∷ [])
unfolding allocate
allocate_501 = refl

-- The ratios add up to 2 ^ 32: the sum wraps to zero, and the division panics; in a debug build the
-- sum itself panics.
wrapped_sum :
    (checks : Bool)
    → allocate checks 10 (record { entries = (normal, 4294967295) ∷ (spammer, 1) ∷ [] }) ≡ none
unfolding allocate
wrapped_sum true = refl
wrapped_sum false = refl

-- One more, and without checks the shares add up to far more than the 10 bots that were asked for.
wrapped_shares :
    allocate false 10 (record { entries = (normal, 4294967295) ∷ (spammer, 2) ∷ [] })
    ≡ some ((normal, 42949672950) ∷ (spammer, 20) ∷ [])
unfolding allocate
wrapped_shares = refl

-- The command takes 0 for the first option, as it takes 1.
vote_zero :
    parse_input (codes "/vote 0") 7 (new percent)
    ≡ (some (vote 0), record (new percent) { my_vote = some 0 })
unfolding parse_input parse_vote send_vote parse_unsigned strip_prefix trim is_whitespace
vote_zero = refl

-- Before the welcome message the number of others is a panic, or wraps.
first_frame :
    (title_count true (new percent) ≡ none) × (title_count false (new percent) ≡ some (2 ^ 64 - 1))
unfolding title_count new
first_frame = (refl, refl)
