-- ===== src/System/Votes.antt =====
-- The votes of the clients that are connected, on the board of the running server.
use rust_multichat_server.Base.{
  ℕ, ◌%◌, ◌^◌, ◌≤◌, ◌<◌, ◌≡◌, sym, ap, ◌∙◌, refl, List, length, length-set, length-remove_at,
  remove_at, count_by, count_by-set, count_by-remove_at, count_by-le-length, holds, from_fn, arith,
}
use rust_multichat_server.Protocol.{n_options}
use rust_multichat_server.Vote
use rust_multichat_server.Vote.{clamp, snapshot}
use rust_multichat_server.Vote.Snapshot.{clamp_lem}
use rust_multichat_server.Client.Session.{Session, Codec, connect, decode, handle_line}
use rust_multichat_server.Client.Session.Votes.{handle_line-Carries, disconnect-counts}
use rust_multichat_server.Server.{max_connections}
use rust_multichat_server.System.{
  System, main_hub, boot, Step, admit, welcome_fails, receive, depart, flush, Reach, here, later,
}

-- How many of the sessions have voted for option `i`.
abbrev pub voters_of : List Session → ℕ → ℕ
voters_of sessions i = count_by (λ (c : Session). holds c.current_vote i) sessions

pub record Counted {F : Type 0} (s : System F) : Type 0 where
  pub counts : (i : ℕ) → i < n_options → s.hub.board.counts i ≡ voters_of s.sessions i % 2 ^ 64
  pub few : length s.sessions ≤ max_connections

module _ {F : Type 0} (codec : Codec F) where
  boot-Counted : Counted (boot {F = F})
  unfolding main_hub Vote.new
  boot-Counted = record { counts = λ i lt. refl; few = omega arith }

  Step-Counted : {s t : System F} → Step codec s t → Counted s → Counted t
  unfolding connect
  Step-Counted (admit room small) v = record {
    counts = λ i lt. v.counts i lt ∙ omega arith;
    few = omega arith;
  }
  Step-Counted (welcome_fails room small) v = record { counts = v.counts; few = v.few }
  Step-Counted {s} (receive j raw t {c} e) v =
      let base : ℕ → ℕ = voters_of (remove_at s.sessions j) in
      let vote = λ (c : Session) (i : ℕ). holds c.current_vote i in
      let c' = (handle_line codec (decode codec raw) t (c, s.hub)).0 in
      record {
        counts = λ i lt.
            handle_line-Carries codec base (decode codec raw) t (c, s.hub)
              (λ k lt'.
                v.counts k lt'
                ∙ ap (λ n. n % 2 ^ 64) (sym (count_by-remove_at (λ c. vote c k) s.sessions j c e)))
              i lt
            ∙ ap (λ n. n % 2 ^ 64)
                (omega (
                  arith,
                  count_by-remove_at (λ c. vote c i) s.sessions j c e,
                  count_by-set (λ c. vote c i) s.sessions j c c' e,
                ));
        few = omega (arith, length-set s.sessions j c', v.few);
      }
  Step-Counted {s} (depart j t {c} e) v =
      let vote = λ (c : Session) (i : ℕ). holds c.current_vote i in
      record {
        counts = λ i lt.
            disconnect-counts codec (voters_of (remove_at s.sessions j)) t (c, s.hub) i lt
              (λ k lt'.
                v.counts k lt'
                ∙ ap (λ n. n % 2 ^ 64) (sym (count_by-remove_at (λ c. vote c k) s.sessions j c e)));
        few = omega (arith, length-remove_at s.sessions j c e, v.few);
      }
  Step-Counted (flush now_ms) v = record { counts = v.counts; few = v.few }

  pub Reach-Counted : {s : System F} → Reach codec boot s → Counted s
  Reach-Counted here = boot-Counted
  Reach-Counted (later r st) = Step-Counted st (Reach-Counted r)

  -- In every state that the running server reaches, whatever the clients send and in whatever order
  -- they come and go, a snapshot of the board shows for each option the number of connected clients
  -- whose last vote that no unvote followed it is.
  pub snapshot-voters_of :
      {s : System F}
      → Reach codec boot s
      → snapshot s.hub.board ≡ from_fn n_options (voters_of s.sessions)
  unfolding snapshot
  snapshot-voters_of {s} r =
      let v = Reach-Counted r in
      let shown : (i : ℕ) → i < n_options → clamp (s.hub.board.counts i) ≡ voters_of s.sessions i =
        λ i lt.
          let few : voters_of s.sessions i ≤ length s.sessions = count_by-le-length _ s.sessions in
          let e : s.hub.board.counts i ≡ voters_of s.sessions i =
            v.counts i lt ∙ omega (arith, few, v.few) in
          ap clamp e ∙ clamp_lem (voters_of s.sessions i) (omega (arith, few, v.few)) in
      rw
        (shown 0 (omega arith), shown 1 (omega arith), shown 2 (omega arith), shown 3 (omega arith))
        refl
