-- ===== src/Examples/Bots.antt =====
-- The bots: their rates, their kinds, their shares, and the vote integrity check.
use rust_multichat_server.Base.{
  ℕ, ◌<◌, ◌≡◌, ◌≢◌, refl, true, false, none, some, List, [], ◌∷◌, codes, map, length, sum, arith,
}
use rust_multichat_server.Strings.{trim, split, is_whitespace, split_once, parse_unsigned}
use rust_multichat_server.Vote.{snapshot, new, vote_next, vote_prev}
use rust_multichat_server.Vote.Counting.{idle}
use rust_multichat_server.Vote.Race.{State, Reach, start, later, enter, begin, finish}
use rust_multichat_server.Bot.Tally.{FickleResult, array_eq, vote_integrity}
use rust_multichat_server.Bot.Tally.Entries.{seen_by, array_eq_flip}
use rust_multichat_server.Bot.Tally.Majority.{Iterates}
use rust_multichat_server.Bot.Tally.Integrity.{vote_integrity_passes}
use rust_multichat_server.Bot.Kind.{BotType, normal, ghost, ok, from_str}
use rust_multichat_server.Bot.Ratio.{parse, display}
use rust_multichat_server.Bot.Ratio.RoundTrip.{IsValid, parse-display}
use rust_multichat_server.Bot.Ratio.Rejects.{parse-IsValid}
use rust_multichat_server.Bot.Allocate.{allocate}
use rust_multichat_server.Bot.Allocate.Fair.{floor_of, ratio_of, allocate-fair}
use rust_multichat_server.Base.{◌+◌, ◌≤◌, inl}
use rust_multichat_server.Bot.Allocate.Total.{allocate-total}

abbrev entries : List (BotType × ℕ)
entries = (normal, 3) ∷ (ghost, 1) ∷ []

parse-display_example :
    parse (display (record { entries = entries })) ≡ ok (record { entries = entries })
parse-display_example =
    parse-display (normal, 3) ((ghost, 1) ∷ [])
      (omega arith, omega arith, (omega arith, omega arith, tt))

parses : parse (codes " normal:3, ghost:1 ") ≡ ok (record { entries = entries })
unfolding parse trim is_whitespace split split_once from_str parse_unsigned
parses = refl

parse-IsValid_example :
    (trim (codes " normal:3, ghost:1 ") ≢ [])
    × IsValid entries
    × (length entries ≡ length (split b',' (trim (codes " normal:3, ghost:1 "))))
parse-IsValid_example =
    parse-IsValid (codes " normal:3, ghost:1 ") (record { entries = entries }) parses

allocate-total_example :
    (result : List (BotType × ℕ)) × (allocate true 10 (record { entries = entries }) ≡ some result)
    × (sum (map (λ (p : BotType × ℕ). p.1) result) ≡ 10)
    × (length result ≡ 2)
allocate-total_example =
    allocate-total true 10 (normal, 3) ((ghost, 1) ∷ []) (omega arith) (omega arith) (omega arith)

-- Two clients, one of which has voted for option 2.
abbrev voted : State
voted = record { board = vote_prev none (vote_next 2 new); voters = idle (some 2) ∷ idle none ∷ [] }

voted-Reach : Reach voted
voted-Reach = later (later (later (later start enter) enter) (begin 0 2 refl)) (finish 0 refl)

abbrev seen : List ℕ
seen = 0 ∷ 0 ∷ 1 ∷ 0 ∷ []

-- What the two saw, and a third that missed the last snapshot.
abbrev results : List FickleResult
results =
    record { last_vote = some 2; last_snapshot = some seen }
    ∷ record { last_vote = none; last_snapshot = some seen }
    ∷ []

shows : snapshot voted.board ≡ seen
unfolding snapshot new vote_next vote_prev
shows = refl

seen_once : 0 < seen_by seen results
unfolding array_eq
seen_once = omega arith

identity-Iterates : Iterates (λ es. es)
identity-Iterates e es = (λ m. m, λ m. m)

others : (o : List ℕ) → array_eq o seen ≡ false → seen_by o results < seen_by seen results
others o h = rw (array_eq_flip o seen h) seen_once

vote_integrity_passes_example :
    vote_integrity (λ es. es) results
    ≡ some (record {
      passed = true;
      expected = snapshot voted.board;
      actual = snapshot voted.board;
      fickle_count = 2;
    })
vote_integrity_passes_example =
    vote_integrity_passes (λ es. es) (record { last_vote = some 2; last_snapshot = some seen })
      (record { last_vote = none; last_snapshot = some seen } ∷ []) voted-Reach (omega arith) refl
      refl identity-Iterates (rw shows seen_once) (rw shows others)

-- Seven bots for the ratios 3 and 1.
allocate-fair_example :
    (result : List (BotType × ℕ)) × (allocate true 7 (record { entries = entries }) ≡ some result)
    × (floor_of 7 entries 0 ≤ ratio_of result 0)
    × (ratio_of result 0 ≤ floor_of 7 entries 0 + 1)
    × (ratio_of result 1 + floor_of 7 entries 0 ≤ ratio_of result 0 + floor_of 7 entries 1)
allocate-fair_example =
    allocate-fair true 7 (normal, 3) ((ghost, 1) ∷ []) 0 1 (omega arith) (omega arith) (omega arith)
      (omega arith) (omega arith) (inl (omega arith))
