-- ===== src/Shell/Words.antt =====
-- Lines of words in quotes, and the arguments that the shell takes from them.
use ppo_os.Common.{
  ℕ, suc, ◌+◌, ◌≤◌, ◌<◌, ◌≡◌, ◌≢◌, refl, ap, ◌∙◌, true, false, ◌||◌, some, none, ltb, if◌then◌else◌,
  Bool-cases, inl, inr, ltb→lt, ltb→le, le→ltb, List, [], ◌∷◌, ◌++◌, ◌==◌, length, length-append,
  get_or, arith, append_assoc, append-nil, lt→ltb, ne→==, and_false,
}
use ppo_os.Shell.{shell_max_args}
use ppo_os.Shell.Env.{EnvVar}
use ppo_os.Shell.Line.{expand, parse_char, parse_chars, parse_line}

-- The bytes of a word, between quotes.
abbrev pub quoted : List ℕ → List ℕ
quoted w = 34 ∷ (w ++ (34 ∷ []))

-- The words in quotes with a space behind each but the last.
abbrev pub line_of : List ℕ → List (List ℕ) → List ℕ
line_of w [] = quoted w
line_of w (w' ∷ ws) = quoted w ++ (32 ∷ line_of w' ws)

-- No byte is a quote.
abbrev pub IsPlain : List ℕ → Type 0
IsPlain [] = Unit
IsPlain (c ∷ cs) = (c ≢ 34) × IsPlain cs

-- A word of 1 to 63 bytes without quotes that does not start with '$'.
pub record IsWord (w : List ℕ) : Type 0 where
  pub plain : IsPlain w
  pub filled : 0 < length w
  pub short : length w ≤ 63
  pub unmarked : get_or w 0 0 ≢ 36

abbrev pub AreWords : List (List ℕ) → Type 0
AreWords [] = Unit
AreWords (w ∷ ws) = IsWord w × AreWords ws

expand_literal : (env : List EnvVar) (w : List ℕ) → get_or w 0 0 ≢ 36 → expand env w ≡ w
unfolding expand
expand_literal env [] h = refl
expand_literal env (c ∷ name) h = rw (ne→== c 36 h) refl

module _ (env : List EnvVar) where
  char_inside :
      (c : ℕ) (arg : List ℕ) (args : List (List ℕ))
      → c ≢ 34
      → length arg < 63
      → parse_char env c (record { args = args; arg = arg; in_quotes = true })
        ≡ record { args = args; arg = arg ++ (c ∷ []); in_quotes = true }
  unfolding parse_char
  char_inside c arg args other room =
      rw
        (
          ne→== c 34 other,
          and_false ((c == 32) || (c == 9) || (c == 0)),
          lt→ltb (length arg) 63 room,
        )
        refl

  -- The bytes of a word inside quotes are appended to the argument.
  inside_quotes :
      (w rest arg : List ℕ) (args : List (List ℕ))
      → IsPlain w
      → length args < shell_max_args
      → length arg + length w ≤ 63
      → parse_chars env (w ++ rest) (record { args = args; arg = arg; in_quotes = true })
        ≡ parse_chars env rest (record { args = args; arg = arg ++ w; in_quotes = true })
  unfolding parse_chars
  inside_quotes [] rest arg args plain few fits = rw (append-nil arg) refl
  inside_quotes (c ∷ cs) rest arg args (other, plain) few fits =
      let longer : length (arg ++ (c ∷ [])) ≡ length arg + 1 = length-append arg (c ∷ []) in
      rw (lt→ltb (length args) 8 few, char_inside c arg args other (omega arith))
        (inside_quotes cs rest (arg ++ (c ∷ [])) args plain few (omega arith)
          ∙ ap (λ a. parse_chars env rest (record { args = args; arg = a; in_quotes = true }))
              (append_assoc arg (c ∷ []) cs))

  -- A quoted word.
  quoted_word :
      (w rest : List ℕ) (args : List (List ℕ))
      → IsWord w
      → length args < shell_max_args
      → parse_chars env (quoted w ++ rest) (record { args = args; arg = []; in_quotes = false })
        ≡ parse_chars env rest (record { args = args; arg = w; in_quotes = false })
  unfolding parse_chars parse_char
  quoted_word w rest args word few =
      let split : (w ++ (34 ∷ [])) ++ rest ≡ w ++ (34 ∷ rest) = append_assoc w (34 ∷ []) rest in
      let inside = inside_quotes w (34 ∷ rest) [] args word.plain few (omega (arith, word.short)) in
      let open_again = lt→ltb (length args) 8 few in rw (open_again, split, inside, open_again) refl

  space :
      (w rest : List ℕ) (args : List (List ℕ))
      → IsWord w
      → length args < shell_max_args
      → parse_chars env (32 ∷ rest) (record { args = args; arg = w; in_quotes = false })
        ≡ parse_chars env rest (record { args = args ++ (w ∷ []); arg = []; in_quotes = false })
  unfolding parse_chars parse_char
  space w rest args word few =
      rw
        (
          lt→ltb (length args) 8 few,
          lt→ltb 0 (length w) word.filled,
          expand_literal env w word.unmarked,
        )
        refl

  -- The arguments so far, and a quoted word for each of the others.
  parse-line_of :
      (w : List ℕ) (ws args : List (List ℕ))
      → IsWord w
      → AreWords ws
      → length args + 1 + length ws ≤ 8
      → parse_chars env
          (line_of w ws ++ (0 ∷ []))
          (record { args = args; arg = []; in_quotes = false })
        ≡ record { args = args ++ (w ∷ ws); arg = []; in_quotes = false }
  unfolding parse_chars parse_char
  parse-line_of w [] args word words few =
      rw
        (
          quoted_word w (0 ∷ []) args word (omega arith),
          lt→ltb (length args) 8 (omega arith),
          lt→ltb 0 (length w) word.filled,
          expand_literal env w word.unmarked,
        )
        refl
  parse-line_of w (w' ∷ ws) args word (word', words) few =
      let one_more : length (args ++ (w ∷ [])) ≡ length args + 1 = length-append args (w ∷ []) in
      ap (λ l. parse_chars env l (record { args = args; arg = []; in_quotes = false }))
        (append_assoc (quoted w) (32 ∷ line_of w' ws) (0 ∷ []))
      ∙ quoted_word w (32 ∷ (line_of w' ws ++ (0 ∷ []))) args word (omega arith)
      ∙ space w (line_of w' ws ++ (0 ∷ [])) args word (omega arith)
      ∙ parse-line_of w' ws (args ++ (w ∷ [])) word' words (omega arith)
      ∙ ap (λ a. record { args = a; arg = []; in_quotes = false })
          (append_assoc args (w ∷ []) (w' ∷ ws))

  -- A line of 1 to 7 words in quotes, with a space between them, is taken apart into these words,
  -- where a word has 1 to 63 bytes, no quote, and no '$' in front; it may hold spaces. With 8 such
  -- words the NULL behind the arguments is written behind the end of argv.
  pub parse_line-line_of :
      (w : List ℕ) (ws : List (List ℕ))
      → IsWord w
      → AreWords ws
      → length ws ≤ 7
      → parse_line env (line_of w ws) ≡ (if ltb (length ws) 7 then some (w ∷ ws) else none)
  unfolding parse_line
  parse_line-line_of w ws word words few =
      rw (parse-line_of w ws [] word words (omega arith)) (elim (Bool-cases (ltb (length ws) 7)) [
        | inl fits ↦ rw (fits, lt→ltb (suc (length ws)) 8 (omega (arith, ltb→lt _ _ fits))) refl
        | inr over ↦ rw (over, le→ltb (suc (length ws)) 8 (omega (arith, ltb→le _ _ over))) refl
      ])
