-- ===== src/Strings/Lines.antt =====
-- `str::lines`, and the lines that `join` puts together.
use rust_multichat_server.Base.{
  ℕ, ◌≡◌, ◌≢◌, refl, ap, ◌∙◌, sym, Bool, true, ◌&&◌, not, List, [], ◌∷◌, ◌++◌, ◌==◌, if◌then◌else◌,
  arith, append-nil, append_assoc,
}
use rust_multichat_server.Protocol.{Text}
use rust_multichat_server.Strings.{join}
use rust_multichat_server.Strings.Decimal.{AllChars}

-- A line that a newline ends, without the carriage return before it.
unfoldable pub strip_return : Text → Text
strip_return [] = []
strip_return (c ∷ []) = if c == b'\r' then [] else c ∷ []
strip_return (c ∷ d ∷ s) = c ∷ strip_return (d ∷ s)

-- The lines after the start `line` of one.
unfoldable pub lines_from : Text → Text → List Text
unfolding strip_return
lines_from [] [] = []
lines_from (c ∷ line) [] = (c ∷ line) ∷ []
lines_from line (c ∷ s) =
    let ended = strip_return line ∷ lines_from [] s in
    let rest = lines_from (line ++ (c ∷ [])) s in if c == b'\n' then ended else rest

-- `s.lines()`.
unfoldable pub lines : Text → List Text
unfolding lines_from
lines s = lines_from [] s

abbrev pub is_inline : ℕ → Bool
is_inline c = not (c == b'\n') && not (c == b'\r')

strip_return_lem : (s : Text) → AllChars is_inline s → strip_return s ≡ s
unfolding strip_return
strip_return_lem [] a = refl
strip_return_lem (c ∷ []) a = ground arith
strip_return_lem (c ∷ d ∷ s) a = ap (◌∷◌ c) (strip_return_lem (d ∷ s) a.1)

lines_from-step :
    (line : Text) (c : ℕ) (s : Text)
    → is_inline c ≡ true
    → lines_from line (c ∷ s) ≡ lines_from (line ++ (c ∷ [])) s
unfolding lines_from
lines_from-step [] c s h = ground arith
lines_from-step (d ∷ line) c s h = ground arith

lines_from-end : (line s : Text) → lines_from line (b'\n' ∷ s) ≡ strip_return line ∷ lines_from [] s
unfolding lines_from
lines_from-end [] s = refl
lines_from-end (d ∷ line) s = refl

lines_from-plain :
    (line p s : Text) → AllChars is_inline p → lines_from line (p ++ s) ≡ lines_from (line ++ p) s
lines_from-plain line [] s a = ap (λ l. lines_from l s) (sym (append-nil line))
lines_from-plain line (c ∷ p) s a =
    lines_from-step line c (p ++ s) a.0
    ∙ lines_from-plain (line ++ (c ∷ [])) p s a.1
    ∙ ap (λ l. lines_from l s) (append_assoc line (c ∷ []) p)

-- Lines that are not empty and hold no newline and no carriage return.
abbrev pub AllLines : List Text → Type 0
AllLines [] = Unit
AllLines (p ∷ ps) = (p ≢ []) × AllChars is_inline p × AllLines ps

lines_from-last : (p : Text) → p ≢ [] → lines_from p [] ≡ p ∷ []
unfolding lines_from
lines_from-last [] n = absurd (n refl)
lines_from-last (c ∷ p) n = refl

-- Such lines are read back from their join.
pub lines-join : (ps : List Text) → AllLines ps → lines (join b'\n' ps) ≡ ps
unfolding lines join lines_from
lines-join [] a = refl
lines-join (p ∷ []) (n, plain, a) =
    ap (lines_from []) (sym (append-nil p)) ∙ lines_from-plain [] p [] plain ∙ lines_from-last p n
lines-join (p ∷ q ∷ ps) (n, plain, a) =
    lines_from-plain [] p (b'\n' ∷ join b'\n' (q ∷ ps)) plain
    ∙ lines_from-end p (join b'\n' (q ∷ ps))
    ∙ ap (◌∷◌ (strip_return p)) (lines-join (q ∷ ps) a)
    ∙ ap (λ l. l ∷ q ∷ ps) (strip_return_lem p plain)
