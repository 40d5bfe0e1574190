-- ===== src/Bot/Ratio/RoundTrip.antt =====
-- A ratio specification is read back from its print.
use mathlib.Core.List.{cons-ne-nil}
use rust_multichat_server.Base.{
  ℕ, ◌≤◌, ◌<◌, ◌≡◌, ◌≢◌, refl, ap, ◌∙◌, Bool, true, List, [], ◌∷◌, ◌++◌, append_assoc, append-nil,
  sym, arith, map, ◌==◌, not, ◌&&◌, ◌+◌,
}
use rust_multichat_server.Protocol.{Text}
use rust_multichat_server.Strings.{max_u32, split, join, to_string, is_whitespace}
use rust_multichat_server.Strings.Decimal.{AllChars, to_string-AllChars, parse_unsigned-to_string}
use rust_multichat_server.Strings.Chars.{AllChars-append, AllChars-weaken, test_all-AllChars}
use rust_multichat_server.Strings.Trim.{is_dark, trim-dark}
use rust_multichat_server.Strings.Parts.{is_not, AllParts, split-join, split_once-append}
use rust_multichat_server.Bot.Kind.{
  BotType, normal, fickle, spammer, ghost, quitter, ok, as_str, from_str-as_str,
}
use rust_multichat_server.Bot.Ratio.{
  parse_part, parse_parts, parse_trimmed, parse, entry_str, display,
}

-- A name holds no whitespace, comma or colon, and a print of a number does not either.
abbrev pub is_plain : ℕ → Bool
is_plain c = is_dark c && not (c == b',') && not (c == b':')

as_str-AllChars : (b : BotType) → AllChars is_plain (as_str b)
unfolding as_str is_whitespace
as_str-AllChars normal = test_all-AllChars is_plain (as_str normal) refl
as_str-AllChars fickle = test_all-AllChars is_plain (as_str fickle) refl
as_str-AllChars spammer = test_all-AllChars is_plain (as_str spammer) refl
as_str-AllChars ghost = test_all-AllChars is_plain (as_str ghost) refl
as_str-AllChars quitter = test_all-AllChars is_plain (as_str quitter) refl

pub number-AllChars : (n : ℕ) → AllChars is_plain (to_string n)
number-AllChars = to_string-AllChars is_plain digit_plain
  where
    digit_plain : (d : ℕ) → d < 10 → is_plain (b'0' + d) ≡ true
    digit_plain d h = unfold is_whitespace in ground arith

pub plain_dark : (c : ℕ) → is_plain c ≡ true → is_dark c ≡ true
plain_dark c h = ground arith

pub plain_no_comma : (c : ℕ) → is_plain c ≡ true → is_not b',' c ≡ true
plain_no_comma c h = ground arith

pub plain_no_colon : (c : ℕ) → is_plain c ≡ true → is_not b':' c ≡ true
plain_no_colon c h = ground arith

-- The characters of an entry: plain ones and the colon.
entry_str-AllChars :
    (q : ℕ → Bool)
    → ((c : ℕ) → is_plain c ≡ true → q c ≡ true)
    → q b':' ≡ true
    → (e : BotType × ℕ) → AllChars q (entry_str e)
unfolding entry_str
entry_str-AllChars q h colon (b, r) =
    AllChars-append q (as_str b) _ (AllChars-weaken is_plain q h _ (as_str-AllChars b))
      (colon, AllChars-weaken is_plain q h _ (number-AllChars r))

parse_part-entry_str :
    (b : BotType) (r : ℕ) → 0 < r → r ≤ max_u32 → parse_part (entry_str (b, r)) ≡ ok (b, r)
unfolding parse_part entry_str
parse_part-entry_str b r pos fits =
    rw
      (
        split_once-append b':' (as_str b) (to_string r)
            (AllChars-weaken is_plain _ plain_no_colon _ (as_str-AllChars b)),
        trim-dark (as_str b) (AllChars-weaken is_plain _ plain_dark _ (as_str-AllChars b)),
        trim-dark (to_string r) (AllChars-weaken is_plain _ plain_dark _ (number-AllChars r)),
        from_str-as_str b,
        parse_unsigned-to_string max_u32 r fits,
      )
      (ground arith)

-- Every ratio is a positive `u32`.
abbrev pub IsValid : List (BotType × ℕ) → Type 0
IsValid [] = Unit
IsValid ((b, r) ∷ es) = (0 < r) × (r ≤ max_u32) × IsValid es

parse_parts-map :
    (es acc : List (BotType × ℕ))
    → IsValid es
    → parse_parts (map entry_str es) acc ≡ ok (record { entries = acc ++ es })
unfolding parse_parts
parse_parts-map [] acc v = rw append-nil
parse_parts-map ((b, r) ∷ es) acc (pos, fits, v) =
    rw
      (
        trim-dark (entry_str (b, r)) (entry_str-AllChars is_dark plain_dark dark_colon (b, r)),
        parse_part-entry_str b r pos fits,
      )
      (parse_parts-map es (acc ++ (b, r) ∷ []) v
        ∙ ap (λ (l : List (BotType × ℕ)). ok (record { entries = l }))
            (append_assoc acc ((b, r) ∷ []) es))
  where
    dark_colon : is_dark b':' ≡ true
    dark_colon = unfold is_whitespace in refl

map-AllParts : (es : List (BotType × ℕ)) → AllParts b',' (map entry_str es)
map-AllParts [] = tt
map-AllParts (e ∷ es) = (entry_str-AllChars (is_not b',') plain_no_comma refl e, map-AllParts es)

join-dark : (es : List (BotType × ℕ)) → AllChars is_dark (join b',' (map entry_str es))
unfolding join is_whitespace
join-dark [] = tt
join-dark (e ∷ []) = entry_str-AllChars is_dark plain_dark refl e
join-dark (e ∷ f ∷ es) =
    AllChars-append is_dark (entry_str e) _ (entry_str-AllChars is_dark plain_dark refl e)
      (refl, join-dark (f ∷ es))

parse_trimmed-append :
    (s t : Text) → s ≢ [] → parse_trimmed (s ++ t) ≡ parse_parts (split b',' (s ++ t)) []
unfolding parse_trimmed
parse_trimmed-append [] t h = absurd (h refl)
parse_trimmed-append (c ∷ s) t h = refl

entry_str-ne-nil : (e : BotType × ℕ) → entry_str e ≢ []
unfolding entry_str as_str
entry_str-ne-nil (normal, r) = cons-ne-nil _ _
entry_str-ne-nil (fickle, r) = cons-ne-nil _ _
entry_str-ne-nil (spammer, r) = cons-ne-nil _ _
entry_str-ne-nil (ghost, r) = cons-ne-nil _ _
entry_str-ne-nil (quitter, r) = cons-ne-nil _ _

-- A joined list starts with its first part.
join-first : (sep : ℕ) (p : Text) (ps : List Text) → (t : Text) × (join sep (p ∷ ps) ≡ p ++ t)
unfolding join
join-first sep p [] = ([], sym (append-nil p))
join-first sep p (q ∷ ps) = (sep ∷ join sep (q ∷ ps), refl)

-- A specification with one or more entries, each with a ratio from 1 to the largest `u32`, is read
-- back from its print, its entries in their order.
pub parse-display :
    (e : BotType × ℕ) (es : List (BotType × ℕ))
    → IsValid (e ∷ es)
    → parse (display (record { entries = e ∷ es })) ≡ ok (record { entries = e ∷ es })
unfolding parse display
parse-display e es v =
    let (t, first) = join-first b',' (entry_str e) (map entry_str es) in
    let trimmed = trim-dark _ (join-dark (e ∷ es)) in
    let parts = split-join b',' (entry_str e) (map entry_str es) (map-AllParts (e ∷ es)) in
    ap parse_trimmed (trimmed ∙ first)
    ∙ parse_trimmed-append (entry_str e) t (entry_str-ne-nil e)
    ∙ ap (λ (s : Text). parse_parts (split b',' s) []) (sym first)
    ∙ ap (λ (ps : List Text). parse_parts ps []) parts
    ∙ parse_parts-map (e ∷ es) [] v
