-- ===== src/Bot/Rtt.antt =====
-- `RttCounter` of src/bot/mod.rs: the sum and the number of the round-trip times.
use Prim.Native.Nat.add
use rust_multichat_server.Base.{
  ℕ, ◌+◌, ◌/◌, ◌%◌, ◌^◌, ◌<◌, ◌≡◌, Option, none, some, List, [], ◌∷◌, arith, if◌then◌else◌, ◌==◌,
  length, sum,
}

pub record RttCounter : Type 0 where
  pub sum_ms : ℕ
  pub count : ℕ

unfoldable pub new : RttCounter
new = record { sum_ms = 0; count = 0 }

unfoldable pub record_rtt : ℕ → RttCounter → RttCounter
record_rtt rtt_ms c = record {
  sum_ms = (c.sum_ms + rtt_ms) % 2 ^ 64;
  count = (c.count + 1) % 2 ^ 64;
}

unfoldable pub average : RttCounter → Option ℕ
average c = if c.count == 0 then none else some (c.sum_ms / c.count)

unfoldable pub record_all : List ℕ → RttCounter → RttCounter
unfolding record_rtt
record_all [] c = c
record_all (v ∷ vs) c = record_all vs (record_rtt v c)

record_all-sums :
    (vs : List ℕ) (c : RttCounter)
    → c.sum_ms + sum vs < 2 ^ 64
    → c.count + length vs < 2 ^ 64
    → ((record_all vs c).sum_ms ≡ c.sum_ms + sum vs)
      × ((record_all vs c).count ≡ c.count + length vs)
unfolding record_all
record_all-sums [] c h k = omega arith
record_all-sums (v ∷ vs) c h k = omega (
  arith,
  record_all-sums vs (record_rtt v c) (unfold record_rtt in omega arith)
      (unfold record_rtt in omega arith),
)

-- The average of no value is none, and that of one or more values is their mean, rounded down,
-- where neither their sum nor their number reaches 2 ^ 64.
pub average-record_all :
    (vs : List ℕ)
    → sum vs < 2 ^ 64
    → length vs < 2 ^ 64
    → average (record_all vs new) ≡ (if length vs == 0 then none else some (sum vs / length vs))
unfolding average new
average-record_all vs h k =
    let (s, n) = record_all-sums vs new (omega arith) (omega arith) in
    rw (s, n, add.zero (sum vs), add.zero (length vs))
